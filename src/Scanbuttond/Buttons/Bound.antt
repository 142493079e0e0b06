-- ===== src/Scanbuttond/Buttons/Bound.antt =====
-- The buttons that the decoders of src/scanbuttond/backends give.
use scanbd.Prelude.{ℕ, zero, suc, ◌≤◌, arith}
use scanbd.Scanbuttond.Buttons.{
  last_pressed, plustek_button, plustek_umax_button, hp3500_button, mustek_button, snapscan_button,
  gt68xx_button,
}

pub plustek_button-le : (n b : ℕ) → plustek_button n b ≤ n
unfolding plustek_button last_pressed
plustek_button-le zero b = omega arith
plustek_button-le (suc zero) b = ground arith
plustek_button-le (suc (suc zero)) b = ground arith
plustek_button-le (suc (suc (suc zero))) b = ground arith
plustek_button-le (suc (suc (suc (suc zero)))) b = ground arith
plustek_button-le (suc (suc (suc (suc (suc zero))))) b = ground arith
plustek_button-le (suc (suc (suc (suc (suc (suc n)))))) b = omega arith

pub plustek_umax_button-le : (n b : ℕ) → plustek_umax_button n b ≤ n
unfolding plustek_umax_button last_pressed
plustek_umax_button-le zero b = omega arith
plustek_umax_button-le (suc zero) b = ground arith
plustek_umax_button-le (suc (suc zero)) b = ground arith
plustek_umax_button-le (suc (suc (suc zero))) b = ground arith
plustek_umax_button-le (suc (suc (suc (suc zero)))) b = ground arith
plustek_umax_button-le (suc (suc (suc (suc (suc n))))) b = omega arith

pub hp3500_button-le : (b : ℕ) → hp3500_button b ≤ 3
unfolding hp3500_button
hp3500_button-le b = ground arith

pub mustek_button-le : (b : ℕ) → mustek_button b ≤ 5
unfolding mustek_button
mustek_button-le b = ground arith

pub snapscan_button-le : (sense b : ℕ) → snapscan_button sense b ≤ 4
unfolding snapscan_button
snapscan_button-le sense b = ground arith

pub gt68xx_button-le : (b : ℕ) → gt68xx_button b ≤ 5
unfolding gt68xx_button last_pressed
gt68xx_button-le b = ground arith
