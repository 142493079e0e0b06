-- ===== src/Sane/Threads/Safe.antt =====
-- The list of polling threads after each operation of src/scanbd/sane.c on it.
use scanbd.Prelude.{
  ℕ, ◌<◌, ◌≡◌, refl, sym, ap, ◌∙◌, subst, inl, inr, leb, ◌==◌, if◌then◌else◌, Bool, true, false,
  Option, none, some, List, CString, length, get_elem?, get_elem?-lt, length-set, length-map, map,
  Bool-cases, arith,
}
use scanbd.Sane.Types.{Thread}
use scanbd.Sane.Poll.Loop.{TriggerOutcome, no_such_action, waits, fired, trigger_thread}
use scanbd.Sane.Threads.{
  Daemon, Result, returns, blocked, faults, and_then, count_devices, devices_of, get_sane_devices,
  start_thread, start_threads, all_idle, stop_threads, stop_list, stop_sane_threads, start_all,
  start_sane_threads, after_trigger, trigger_in, trigger_at, sane_trigger_action, sig_hup_handler,
}
use scanbd.Sane.Threads.Lists.{Matches, IsConsistent, idle, all_idle_lem, started}

-- A call that waits, or returns a state with a property.
abbrev pub Holds : (Daemon → Type 0) → Result → Type 0
Holds P (returns w) = P w
Holds P blocked = Unit {0}
Holds P faults = ⊥

pub and_then-Holds :
    (P Q : Daemon → Type 0) (r : Result) (f : Daemon → Result)
    → ((w : Daemon) → P w → Holds Q (f w))
    → Holds P r
    → Holds Q (and_then r f)
and_then-Holds P Q (returns w) f h c = h w c
and_then-Holds P Q blocked f h c = tt
and_then-Holds P Q faults f h c = c

pub Holds-weaken :
    (P Q : Daemon → Type 0) (r : Result) → ((w : Daemon) → P w → Q w) → Holds P r → Holds Q r
Holds-weaken P Q (returns w) h c = h w c
Holds-weaken P Q blocked h c = tt
Holds-weaken P Q faults h c = c

pub record IsStopped (w : Daemon) : Type 0 where
  pub consistent : IsConsistent w
  pub none_left : w.sane_poll_threads ≡ none

stop_threads-IsStopped :
    (w : Daemon) (b : Bool) → IsConsistent w → Holds IsStopped (stop_threads w (some b))
unfolding stop_threads
stop_threads-IsStopped w true c = record {
  consistent = record { counted = c.counted; threads = tt };
  none_left = refl;
}
stop_threads-IsStopped w false c = tt

stop_list-IsStopped :
    (w : Daemon) (ts? : Option (List Thread))
    → w.sane_poll_threads ≡ ts?
    → IsConsistent w
    → Matches w.num_devices ts?
    → Holds IsStopped (stop_list w ts?)
unfolding stop_list
stop_list-IsStopped w none e c h = record { consistent = c; none_left = e }
stop_list-IsStopped w (some ts) e c h =
    subst (λ o. Holds IsStopped (stop_threads w o))
      (sym (ap (λ n. all_idle n ts) (sym h) ∙ all_idle_lem ts))
      (stop_threads-IsStopped w (idle ts) c)

pub stop-IsStopped : (w : Daemon) → IsConsistent w → Holds IsStopped (stop_sane_threads w)
stop-IsStopped w c = stop_list-IsStopped w w.sane_poll_threads refl c c.threads

after_stop-IsConsistent :
    (w : Daemon)
    → IsConsistent w
    → Holds IsConsistent (
        if w.num_devices == 0
        then returns w
        else start_all w (start_threads w.num_devices (devices_of w.sane_device_list)))
unfolding start_all
after_stop-IsConsistent w c = elim (Bool-cases (w.num_devices == 0)) [
  | inl e ↦ rw e c
  | inr e ↦
      rw (e, started w c)
        (record { counted = c.counted; threads = fits w.sane_device_list c.counted })
]
  where
    fits :
        (o : Option (List CString))
        → w.num_devices ≡ count_devices o
        → length (map start_thread (devices_of o)) ≡ w.num_devices
    fits none h = sym h
    fits (some devices) h = length-map start_thread devices ∙ sym h

pub start-IsConsistent : (w : Daemon) → IsConsistent w → Holds IsConsistent (start_sane_threads w)
unfolding start_sane_threads
start-IsConsistent w c =
    and_then-Holds IsStopped IsConsistent (stop_sane_threads w) _
      (λ v h. after_stop-IsConsistent v h.consistent) (stop-IsStopped w c)

-- New devices are looked for only once the threads have been stopped.
pub devices-IsConsistent :
    (found : Option (List CString)) (w : Daemon)
    → w.sane_poll_threads ≡ none
    → IsConsistent (get_sane_devices found w)
unfolding get_sane_devices
devices-IsConsistent found w e = record {
  counted = refl;
  threads = subst (Matches (count_devices found)) (sym e) tt;
}

pub hup-IsConsistent :
    (found : Option (List CString)) (w : Daemon)
    → IsConsistent w
    → Holds IsConsistent (sig_hup_handler found w)
unfolding sig_hup_handler
hup-IsConsistent found w c =
    and_then-Holds IsStopped IsConsistent (stop_sane_threads w) _
      (λ v h.
        start-IsConsistent (get_sane_devices found v) (devices-IsConsistent found v h.none_left))
      (stop-IsStopped w c)

after_trigger-IsConsistent :
    (w : Daemon) (ts : List Thread) (dev : ℕ) (outcome : TriggerOutcome)
    → IsConsistent w
    → length ts ≡ w.num_devices
    → Holds IsConsistent (after_trigger w ts dev outcome)
unfolding after_trigger
after_trigger-IsConsistent w ts dev no_such_action c h = c
after_trigger-IsConsistent w ts dev waits c h = tt
after_trigger-IsConsistent w ts dev (fired st) c h = record {
  counted = c.counted;
  threads = length-set ts dev st ∙ h;
}

trigger_in-IsConsistent :
    (w : Daemon) (dev action : ℕ) (ts? : Option (List Thread))
    → IsConsistent w
    → Matches w.num_devices ts?
    → dev < w.num_devices
    → Holds IsConsistent (trigger_in w dev action ts?)
unfolding trigger_in trigger_at
trigger_in-IsConsistent w dev action none c h lt = tt
trigger_in-IsConsistent w dev action (some ts) c h lt =
    let n : length ts ≡ w.num_devices = h in
    let (st, e) = get_elem?-lt ts dev (omega (arith, n, lt)) in
    subst (Holds IsConsistent) (sym (run e))
      (after_trigger-IsConsistent w ts dev (trigger_thread action st) c h)
  where
    run :
        {st : Thread}
        → get_elem? ts dev ≡ some st
        → trigger_in w dev action (some ts) ≡ after_trigger w ts dev (trigger_thread action st)
    run e = ap (trigger_at w ts dev action) e

pub trigger-IsConsistent :
    (dev action : ℕ) (w : Daemon)
    → IsConsistent w
    → Holds IsConsistent (sane_trigger_action dev action w)
unfolding sane_trigger_action
trigger-IsConsistent dev action w c = elim (Bool-cases (w.num_devices == 0)) [
  | inl e ↦ rw e c
  | inr e ↦ elim (Bool-cases (leb w.num_devices dev)) [
    | inl past ↦ rw (e, past) c
    | inr inside ↦
        rw (e, inside)
          (trigger_in-IsConsistent w dev action w.sane_poll_threads c c.threads
            (below dev w.num_devices inside))
  ]
]
  where
    below : (m n : ℕ) → leb n m ≡ false → m < n
    below m n h = ground arith

-- From a state in which the number of devices is that of the list, and each device has a thread if
-- threads run, no operation on the threads accesses memory outside an array, whatever device and
-- action are asked for: stop_sane_threads, start_sane_threads, sane_trigger_action and
-- sig_hup_handler wait, or return such a state again, stop_sane_threads one without threads.
pub operations-IsConsistent :
    (w : Daemon) (dev action : ℕ) (found : Option (List CString))
    → IsConsistent w
    → Holds IsStopped (stop_sane_threads w)
      × Holds IsConsistent (start_sane_threads w)
      × Holds IsConsistent (sane_trigger_action dev action w)
      × Holds IsConsistent (sig_hup_handler found w)
operations-IsConsistent w dev action found c = (
  stop-IsStopped w c,
  start-IsConsistent w c,
  trigger-IsConsistent dev action w c,
  hup-IsConsistent found w c,
)
