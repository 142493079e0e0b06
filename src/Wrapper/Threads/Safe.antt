-- ===== src/Wrapper/Threads/Safe.antt =====
-- The list of polling threads of src/scanbd/scanbuttond_wrapper.c fits the list of devices.
use scanbd.Prelude.{
  ℕ, zero, suc, ◌<◌, ◌≡◌, refl, sym, ap, subst, ◌∙◌, inl, inr, Bool, true, false, Bool-cases,
  Option, none, some, List, [], ◌∷◌, length, get_elem?, set, CString, arith,
}
use scanbd.Scanbuttond.Device.{Scanner}
use scanbd.Scanbuttond.Meta.{Module}
use scanbd.Wrapper.Threads.{
  ThreadSlot, ScbtnDaemon, ScbtnResult, returned, waiting, faulted, exited, then_do, start_slots,
  all_quiet, close_devices, stopped, stop_slots, stop_running, stop_scbtn_threads, started_slots,
  start_scbtn_threads,
}

-- One thread for each device.
abbrev pub Fits : List Scanner → List (Option ThreadSlot) → Type 0
Fits [] [] = Unit
Fits [] (t ∷ ts) = ⊥
Fits (dev ∷ devs) [] = ⊥
Fits (dev ∷ devs) (none ∷ ts) = ⊥
Fits (dev ∷ devs) (some t ∷ ts) = Fits devs ts

abbrev pub FitsIf : List Scanner → Option (List (Option ThreadSlot)) → Type 0
FitsIf devs none = Unit
FitsIf devs (some ts) = Fits devs ts

-- As many devices as are counted, and a thread for each of them if threads run.
pub record ScbtnConsistent {S : Type 0} (w : ScbtnDaemon S) : Type 0 where
  pub counted : w.num_devices ≡ length w.scbtn_device_list
  pub threads : FitsIf w.scbtn_device_list w.scbtn_poll_threads

-- The call meets no fault, and `P` holds when it returns.
abbrev pub Ensures : {S : Type 0} → (ScbtnDaemon S → Type 0) → ScbtnResult S → Type 0
Ensures P (returned w) = P w
Ensures P waiting = Unit
Ensures P faulted = ⊥
Ensures P exited = Unit

pub then_do-Ensures :
    {S : Type 0} (P Q : ScbtnDaemon S → Type 0) (r : ScbtnResult S)
    (f : ScbtnDaemon S → ScbtnResult S)
    → ((w : ScbtnDaemon S) → P w → Ensures Q (f w))
    → Ensures P r
    → Ensures Q (then_do r f)
unfolding then_do
then_do-Ensures P Q (returned w) f h p = h w p
then_do-Ensures P Q waiting f h p = tt
then_do-Ensures P Q faulted f h p = p
then_do-Ensures P Q exited f h p = tt

pub Ensures-weaken :
    {S : Type 0} (P Q : ScbtnDaemon S → Type 0) (r : ScbtnResult S)
    → ((w : ScbtnDaemon S) → P w → Q w)
    → Ensures P r
    → Ensures Q r
Ensures-weaken P Q (returned w) h p = h w p
Ensures-weaken P Q waiting h p = tt
Ensures-weaken P Q faulted h p = p
Ensures-weaken P Q exited h p = tt

start_slots-Fits : (devs : List Scanner) → Fits devs (start_slots (length devs) devs)
unfolding start_slots
start_slots-Fits [] = tt
start_slots-Fits (dev ∷ devs) = start_slots-Fits devs

all_quiet-Fits :
    (devs : List Scanner) (ts : List (Option ThreadSlot))
    → Fits devs ts
    → (b : Bool) × (all_quiet (length devs) devs ts ≡ some b)
unfolding all_quiet
all_quiet-Fits [] ts h = (true, refl)
all_quiet-Fits (dev ∷ devs) [] h = absurd h
all_quiet-Fits (dev ∷ devs) (none ∷ ts) h = absurd h
all_quiet-Fits (dev ∷ devs) (some t ∷ ts) h =
    let (b, e) = all_quiet-Fits devs ts h in
    elim (Bool-cases t.triggered) [ inl on ↦ (false, rw on refl) | inr off ↦ (b, rw (off, e) refl) ]

pub get_elem?-Fits :
    (devs : List Scanner) (ts : List (Option ThreadSlot)) (i : ℕ)
    → Fits devs ts
    → i < length devs
    → (t : ThreadSlot) × (get_elem? ts i ≡ some (some t))
get_elem?-Fits [] ts i h lt = absurd (omega (arith, lt))
get_elem?-Fits (dev ∷ devs) [] i h lt = absurd h
get_elem?-Fits (dev ∷ devs) (none ∷ ts) i h lt = absurd h
get_elem?-Fits (dev ∷ devs) (some t ∷ ts) zero h lt = (t, refl)
get_elem?-Fits (dev ∷ devs) (some t ∷ ts) (suc i) h lt =
    get_elem?-Fits devs ts i h (omega (arith, lt))

pub set-Fits :
    (devs : List Scanner) (ts : List (Option ThreadSlot)) (i : ℕ) (t : ThreadSlot)
    → Fits devs ts
    → Fits devs (set ts i (some t))
set-Fits [] [] i t h = tt
set-Fits [] (t' ∷ ts) i t h = absurd h
set-Fits (dev ∷ devs) [] i t h = absurd h
set-Fits (dev ∷ devs) (none ∷ ts) i t h = absurd h
set-Fits (dev ∷ devs) (some t' ∷ ts) zero t h = h
set-Fits (dev ∷ devs) (some t' ∷ ts) (suc i) t h = set-Fits devs ts i t h

-- `n` devices are counted and listed, and no thread runs.
pub record IsIdle {S : Type 0} (n : ℕ) (w : ScbtnDaemon S) : Type 0 where
  pub counts : w.num_devices ≡ n
  pub listed : n ≡ length w.scbtn_device_list
  pub none_left : w.scbtn_poll_threads ≡ none

pub idle-ScbtnConsistent : {S : Type 0} (n : ℕ) (w : ScbtnDaemon S) → IsIdle n w → ScbtnConsistent w
idle-ScbtnConsistent n w i = record {
  counted = i.counts ∙ i.listed;
  threads = subst (FitsIf w.scbtn_device_list) (sym i.none_left) tt;
}

-- The backend can be ended, and the hook passes its assertion.
abbrev pub CanExit : {S : Type 0} → Module S → Type 0
CanExit {S} backend = (state : S) → (state' : S) × (backend.exit state ≡ some state')

abbrev pub HookRuns : Option (Option (CString × List CString)) → Type 0
HookRuns hook = (run : Option (CString × List CString)) × (hook ≡ some run)

module _ {S : Type 0} (backend : Module S) where
  length-close_devices :
      (k : ℕ) (devs : List Scanner) (state : S)
      → length (close_devices backend k devs state).0 ≡ length devs
  unfolding close_devices
  length-close_devices zero devs state = refl
  length-close_devices (suc k) [] state = refl
  length-close_devices (suc k) (dev ∷ devs) state =
      ap suc (length-close_devices k devs (backend.close_scanner dev state).2)

  stop_running-IsIdle :
      (w : ScbtnDaemon S) (ts : Option (List (Option ThreadSlot)))
      → ScbtnConsistent w
      → w.scbtn_poll_threads ≡ ts
      → FitsIf w.scbtn_device_list ts
      → Ensures (IsIdle w.num_devices) (stop_running backend w ts)
  unfolding stop_running stop_slots stopped
  stop_running-IsIdle w none c e h = record { counts = refl; listed = c.counted; none_left = e }
  stop_running-IsIdle w (some ts) c e h =
      let (b, quiet) = all_quiet-Fits w.scbtn_device_list ts h in
      let all : all_quiet w.num_devices w.scbtn_device_list ts ≡ some b =
        ap (λ n. all_quiet n w.scbtn_device_list ts) c.counted ∙ quiet in
      subst (λ o. Ensures (IsIdle w.num_devices) (stop_slots backend w o)) (sym all) (ended b)
    where
      ended : (b : Bool) → Ensures (IsIdle w.num_devices) (stop_slots backend w (some b))
      ended false = tt
      ended true = record {
        counts = refl;
        listed = c.counted ∙ sym (length-close_devices w.num_devices w.scbtn_device_list w.state);
        none_left = refl;
      }

  pub stop-IsIdle :
      (w : ScbtnDaemon S)
      → ScbtnConsistent w
      → Ensures (IsIdle w.num_devices) (stop_scbtn_threads backend w)
  stop-IsIdle w c = stop_running-IsIdle w w.scbtn_poll_threads c refl c.threads

  pub start-ScbtnConsistent :
      (w : ScbtnDaemon S)
      → ScbtnConsistent w
      → Ensures ScbtnConsistent (start_scbtn_threads backend w)
  unfolding started_slots
  start-ScbtnConsistent w c =
      then_do-Ensures (IsIdle w.num_devices) ScbtnConsistent (stop_scbtn_threads backend w)
        (λ v. returned (started_slots backend v))
        (λ v i. record {
          counted = i.counts ∙ i.listed;
          threads =
              subst (λ n. Fits v.scbtn_device_list (start_slots n v.scbtn_device_list))
                (sym (i.counts ∙ i.listed)) (start_slots-Fits v.scbtn_device_list);
        })
        (stop-IsIdle w c)
