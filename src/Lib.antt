-- ===== src/Lib.antt =====
-- scanbd: a daemon that watches the buttons of scanners and starts scripts when they are
-- pressed.
--
-- The daemon runs one polling thread for each scanner. The thread opens its device, looks up
-- which options of the device the configuration names, as the triggers of actions or as values
-- to be exported, and then reads those options again and again. When a value changes as an
-- action says, or when another thread asks for the action, it closes the device, runs the
-- action's script with the exported values in its environment, and opens the device again. The
-- devices come from SANE (src/scanbd/sane.c) or from the backends of scanbuttond
-- (src/scanbuttond/backends).
--
-- The files, with the paths from the repository's root:
--
-- Prelude and below: Boolean tests, lists and arrays over native numbers, C's integers and
--   strings. A write outside an array, a failed assertion and a null pointer that is read are
--   `none`.
-- Sane.Types: the structures of src/scanbd/sane.c (sane_opt_value, sane_dev_option,
--   sane_dev_function, sane_thread) and of the configuration's sections. SANE's calls on an open
--   device are a record Driver over an arbitrary state, regcomp and regexec a record Regex.
-- Sane.Value: hash, sane_option_value_init, sane_option_value_free and get_sane_option_value.
-- Sane.Match: sane_find_matching_functions and sane_find_matching_options; the loops over the
--   options recurse on the number of options left, so that no fuel is needed.
-- Sane.Poll.Setup: sane_poll up to its loop: open, allocate, match the configuration.
-- Sane.Poll.Check: the check of one option in the loop.
-- Sane.Poll.Environment: the strings that an action's script and the bus are given. getenv,
--   getcwd and getpwuid are a record Process.
-- Sane.Poll.Loop: the loop as a machine. Its steps are the stretches between two points at which
--   the thread's mutex changes hands or the device is opened; Sane.Poll.Loop.Reachable
--   interleaves them with triggers from sane_trigger_action, where the mutex is free, and with
--   any change at the device.
-- Sane.Threads: get_sane_devices, start_sane_threads, stop_sane_threads, sane_trigger_action,
--   and sig_hup_handler of src/scanbd/scanbd.c, on the list of threads. A call that waits for a
--   condition is a result of its own.
-- Sane.Samples and the files with Tests in their names: a small scanner, and runs on it.
-- Config.ScriptPath: make_script_path_abs of src/scanbd/config.c, with PATH_MAX 4096; a buffer without
--   the end of a string is `none`.
-- Scanbuttond.Device: the list of scanners of a backend, by src/scanbuttond/backends/plustek.c,
--   whose text the other backends share but for their tables, which Scanbuttond.Tables has.
-- Scanbuttond.Exchange and Scanbuttond.Buttons: scanbtnd_get_button of plustek.c,
--   plustek_umax.c, hp3500.c, mustek.c and snapscan.c. The calls of
--   src/scanbuttond/interface/libusbi.c are a record Usb over an arbitrary state.
-- Scanbuttond.Control and Scanbuttond.Messages: scanbtnd_get_button of hp3900.c, genesys.c, niash.c,
--   artec_eplus48u.c and gt68xx.c over control messages, and the buttons that they read.
-- Scanbuttond.Epson: scanbtnd_get_button of epson.c and epson_vphoto.c.
-- Scanbuttond.Hp5590: the protocol of hp5590.c, whose steps may fail, as a monad over the bus.
-- Scanbuttond.Libusbi: src/scanbuttond/interface/libusbi.c over the calls of libusb, which are a
--   record Libusb: the list of devices, the handles, and the loop that flushes a pipe.
-- Scanbuttond.Meta: src/scanbuttond/backends/meta.c, which loads the other backends and hands their
--   scanners on. A loaded backend is a record Module; Scanbuttond.Meta.Loading fills it with the
--   backends above.
-- Scanbuttond.Loader: src/scanbd/scanbuttond_loader.c, over dlopen, dlsym and dlclose, which are a
--   record Libraries.
-- Wrapper.Match: scbtn_find_matching_options of src/scanbd/scanbuttond_wrapper.c, which repeats
--   sane_find_matching_options for the buttons of a backend's scanner.
-- Wrapper.Poll: scbtn_poll of the same file, its start and its loop, as a machine like that of
--   Sane.Poll.Loop; the backend is a record Module.
-- Wrapper.Threads: the list of threads of the same file, with sig_hup_handler and the devices that
--   come and go in the build with the backends of scanbuttond.
-- Dbus: the messages that src/scanbd/dbus.c acts on, the calls that it sends, the devices that
--   src/scanbd/udev.c reports, and the hooks; the threads are those of Sane.Threads. libdbus's
--   messages are a record Messages.
-- Manager: src/scanbd/scanbd.c, with the signal handlers, the options of the command line and the
--   manager mode, whose steps towards the daemon are a list; Manager.Delivery hands them to Dbus and
--   to the signal handlers.
--
-- Numbers: an `unsigned long` has 64 bits, and its wrap-around is written out in the hash and in
-- the conversion of the configured values. The counts and indices of sane.c, which are `int`,
-- are natural numbers; a device that reports a negative number of options is not modelled. A
-- number from the bus wraps around at 2 ^ 32 and becomes negative from 2 ^ 31 on.
--
-- Fuel: libusb_flush recurs on a number of reads that is greater than the number of bytes that are
-- pending, which is enough since each read but the last takes one; the packets of hp5590.c recur on
-- the number of bytes that are wanted, since each packet brings one. A number is printed with at
-- most 20 digits, as an `unsigned long` has.
--
-- What is assumed: the type that a device gives an option does not change while it is polled,
-- and regcomp does not return a negative number (it returns a positive one for an error). A read
-- or a message from a bus gives no more bytes than were asked for. libdbus keeps the name and the arguments of a
-- call. dlopen opens one handle or none, and dlclose closes one. usb_open opens one handle of libusb or gives NULL, and usb_close closes one.
--
-- Not modelled: the connection to the bus, the signals that are sent and the thread that reads the
-- bus (src/scanbd/dbus.c), the start and end of the thread for udev (src/scanbd/udev.c), logging
-- (src/scanbd/slog.c), daemonising, dropping privileges and the files of src/scanbd/scanbd.c,
-- and the tables of options of src/scanbd/config.c, which are input and output; the build with HAL. The
-- loop of src/scanbd/scanbuttond_wrapper.c with several polling threads, which write the static index
-- that they share. What a thread reads of scanners that have been freed with their backend: the lists
-- of Wrapper.Threads say that they have been, and keep their contents. The fork of the script's process, the bus signals, the sleeps
-- and the cancellation of a thread are left out of the loops.
pub mod Prelude
pub mod Config
pub mod Sane
pub mod Scanbuttond
pub mod Wrapper
pub mod Dbus
pub mod Manager
