-- ===== src/Wrapper/Poll/Served.antt =====
-- Triggers in the loop of scbtn_poll in src/scanbd/scanbuttond_wrapper.c.
use scanbd.Prelude.{ℕ, ◌≤◌, ◌≡◌, ◌⊎◌, true, false, some, CString}
use scanbd.Sane.Poll.Environment.{Process}
use scanbd.Scanbuttond.Meta.{Module}
use scanbd.Wrapper.Poll.{ScbtnPoller, ended}
use scanbd.Wrapper.Poll.Steps.{scbtn_steps}

module _ {S : Type 0} (backend : Module S) (p : Process) (script_path : CString → CString) where
  -- The trigger is reset, or the thread has ended because the scanner could not be opened, and all
  -- will be started anew.
  abbrev pub IsDone : ScbtnPoller S → Type 0
  IsDone s = (s.triggered ≡ false) ⊎ ((s.phase ≡ ended) × (s.alarm ≡ true))

  abbrev pub ScbtnServedIn : ℕ → ScbtnPoller S → Type 0
  ScbtnServedIn n s =
      (k : ℕ) × (s' : ScbtnPoller S) × (k ≤ n)
      × (scbtn_steps backend p script_path k s ≡ some s')
      × IsDone s'
