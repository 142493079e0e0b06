-- ===== src/Wrapper/Poll/Steps.antt =====
-- The steps of the loop of scbtn_poll in src/scanbd/scanbuttond_wrapper.c.
use scanbd.Prelude.{ℕ, zero, suc, ◌>>=◌, ◌≡◌, Bool, Option, some, CString, ℤ}
use scanbd.Sane.Poll.Environment.{Process}
use scanbd.Scanbuttond.Device.{Scanner}
use scanbd.Scanbuttond.Meta.{Module}
use scanbd.Wrapper.Poll.{ScbtnPhase, ScbtnPoller, scbtn_step}
use scanbd.Wrapper.Poll.Valid.{ScbtnValid}

-- A backend answers each open scanner, without a fault.
abbrev pub Answering : {S : Type 0} → Module S → Type 0
Answering {S} backend =
    (dev : Scanner) (state : S) → (r : ℤ × S) × (backend.get_button dev state ≡ some r)

-- The same table and trigger, somewhere else in the loop.
pub elsewhere :
    {S : Type 0} (s : ScbtnPoller S) (index : ℕ) (phase : ScbtnPhase) (dev : Scanner) (state : S)
    (alarm : Bool)
    → ScbtnValid s
    → ScbtnValid
        (record s { index = index; phase = phase; dev = dev; state = state; alarm = alarm })
elsewhere s index phase dev state alarm v = record {
  used = v.used;
  scripts = v.scripts;
  trigger = v.trigger;
}

module _ {S : Type 0} (backend : Module S) (p : Process) (script_path : CString → CString) where
  -- `n` steps of the loop.
  unfoldable pub scbtn_steps : ℕ → ScbtnPoller S → Option (ScbtnPoller S)
  scbtn_steps zero s = some s
  scbtn_steps (suc n) s = do s' ← scbtn_step backend p script_path s; scbtn_steps n s'
