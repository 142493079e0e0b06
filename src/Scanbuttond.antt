-- ===== src/Scanbuttond.antt =====
-- The backends of scanbuttond (src/scanbuttond/backends): the scanners that they support, and how
-- they read the buttons.
pub mod Device
pub mod Tables
pub mod Exchange
pub mod Buttons
pub mod Control
pub mod Libusbi
pub mod Loader
pub mod Meta
pub mod Hp5590
pub mod Epson
pub mod Messages
mod Tests
mod UsbTests
mod MetaTests
