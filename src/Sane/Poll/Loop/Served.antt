-- ===== src/Sane/Poll/Loop/Served.antt =====
-- How long a trigger stays set in a polling thread of src/scanbd/sane.c.
use scanbd.Prelude.{ℕ, zero, suc, ◌≤◌, ◌≡◌, false, Option, some, CString, ◌>>=◌}
use scanbd.Sane.Types.{Driver, Regex}
use scanbd.Sane.Poll.Environment.{Process}
use scanbd.Sane.Poll.Setup.{Opener}
use scanbd.Sane.Poll.Loop.{Poller, poll_step}

module _ {D : Type 0} (sane : Driver D) (opener : Opener D) (re : Regex) (p : Process)
    (script_path : CString → CString) where
  -- The state after `n` steps of the thread itself.
  unfoldable pub steps : ℕ → Poller D → Option (Poller D)
  steps zero s = some s
  steps (suc n) s = poll_step sane opener re p script_path s >>= steps n

  -- The trigger has been reset after at most `n` steps.
  abbrev pub ServedIn : ℕ → Poller D → Type 0
  ServedIn n s =
      (k : ℕ) × (s' : Poller D) × (k ≤ n) × (steps k s ≡ some s') × (s'.thread.triggered ≡ false)
