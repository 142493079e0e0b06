-- ===== src/Wrapper/Threads/Removed.antt =====
-- The list of polling threads of src/scanbd/scanbuttond_wrapper.c when the configuration is read again
-- and when devices come and go (src/scanbd/scanbd.c, src/scanbd/dbus.c).
use scanbd.Prelude.{
  ℕ, ◌<◌, ◌≡◌, refl, inl, inr, leb, ◌==◌, true, false, Bool-cases, Option-cases, Option, none, some,
  List, get_elem?, CString, arith,
}
use scanbd.Scanbuttond.Meta.{Module}
use scanbd.Dbus.{Change, insert_hook, remove_hook}
use scanbd.Dbus.Dispatch.{HooksRun}
use scanbd.Wrapper.Threads.{
  ThreadSlot, ScbtnDaemon, waiting, then_do, get_scbtn_devices, stop_scbtn_threads,
  start_scbtn_threads, trigger_slot, trigger_running, scbtn_trigger_action, scbtn_shutdown,
  shut_down, load_backend, loaded, hooked, renew, scbtn_hup_handler, replaced, scbtn_device_added,
  scbtn_device_removed,
}
use scanbd.Wrapper.Threads.Safe.{
  FitsIf, ScbtnConsistent, Ensures, Ensures-weaken, then_do-Ensures, get_elem?-Fits, set-Fits,
  IsIdle, idle-ScbtnConsistent, CanExit, HookRuns, stop-IsIdle, start-ScbtnConsistent,
}

module _ {S : Type 0} (backend : Module S) where
  slot-ScbtnConsistent :
      (w : ScbtnDaemon S) (ts : List (Option ThreadSlot)) (dev action : ℕ)
      → ScbtnConsistent w
      → FitsIf w.scbtn_device_list (some ts)
      → dev < w.num_devices
      → Ensures ScbtnConsistent (trigger_slot backend w ts dev action (get_elem? ts dev))
  unfolding trigger_slot
  slot-ScbtnConsistent w ts dev action c h lt =
      let (t, e) = get_elem?-Fits w.scbtn_device_list ts dev h (omega (arith, lt, c.counted)) in
      elim (Bool-cases (leb t.num_of_options_with_scripts action)) [
        | inl none_such ↦ rw (e, none_such) c
        | inr there ↦ elim (Bool-cases t.triggered) [
          | inl busy ↦ rw (e, there, busy) tt
          | inr free ↦
              rw (e, there, free)
                (record {
                  counted = c.counted;
                  threads =
                      set-Fits w.scbtn_device_list ts dev
                        (record t { triggered = true; triggered_option = some action }) h;
                })
        ]
      ]

  running-ScbtnConsistent :
      (w : ScbtnDaemon S) (ts : Option (List (Option ThreadSlot))) (dev action : ℕ)
      → ScbtnConsistent w
      → FitsIf w.scbtn_device_list ts
      → dev < w.num_devices
      → Ensures ScbtnConsistent (trigger_running backend w dev action ts)
  unfolding trigger_running
  running-ScbtnConsistent w none dev action c h lt = tt
  running-ScbtnConsistent w (some ts) dev action c h lt =
      slot-ScbtnConsistent w ts dev action c h lt

  trigger-ScbtnConsistent :
      (dev action : ℕ) (w : ScbtnDaemon S)
      → ScbtnConsistent w
      → Ensures ScbtnConsistent (scbtn_trigger_action backend dev action w)
  unfolding scbtn_trigger_action
  trigger-ScbtnConsistent dev action w c = elim (Bool-cases (w.num_devices == 0)) [
    | inl e ↦ rw e c
    | inr e ↦ elim (Bool-cases (leb w.num_devices dev)) [
      | inl e' ↦ rw (e, e') c
      | inr e' ↦
          let lt : dev < w.num_devices = ground (arith, e') in
          rw (e, e') (running-ScbtnConsistent w w.scbtn_poll_threads dev action c c.threads lt)
    ]
  ]

  -- No thread polls, and the scanners that are listed have been freed.
  abbrev pub IsDown : ℕ → ScbtnDaemon S → Type 0
  IsDown n w = IsIdle n w × (w.freed ≡ true)

  shutdown-IsDown :
      (n : ℕ) (w : ScbtnDaemon S)
      → CanExit backend
      → IsIdle n w
      → Ensures (IsDown n) (scbtn_shutdown backend w)
  unfolding scbtn_shutdown shut_down
  shutdown-IsDown n w exits i =
      let (state, e) = exits w.state in
      rw e (record { counts = i.counts; listed = i.listed; none_left = i.none_left }, refl)

  load-IsDown :
      (n : ℕ) (w : ScbtnDaemon S) → IsDown n w → Ensures (IsDown n) (load_backend backend w)
  unfolding load_backend loaded
  load-IsDown n w (i, f) = elim (Option-cases (backend.init w.state)) [
    | inl e ↦ rw e tt
    | inr (state, e) ↦
        rw e (record { counts = i.counts; listed = i.listed; none_left = i.none_left }, f)
  ]

  hooked-IsDown :
      (n : ℕ) (hook : Option (Option (CString × List CString))) (w : ScbtnDaemon S)
      → HookRuns hook
      → IsDown n w
      → Ensures (IsDown n) (hooked backend hook w)
  unfolding hooked
  hooked-IsDown n hook w (run, e) i = rw e i

  renew-ScbtnConsistent :
      (n : ℕ) (w : ScbtnDaemon S) → IsIdle n w → Ensures ScbtnConsistent (renew backend w)
  unfolding renew get_scbtn_devices
  renew-ScbtnConsistent n w i =
      let v = get_scbtn_devices backend w in
      start-ScbtnConsistent backend v (
        idle-ScbtnConsistent v.num_devices v
          (record { counts = refl; listed = refl; none_left = i.none_left }))

  stopped_ended-IsDown :
      (w : ScbtnDaemon S)
      → CanExit backend
      → ScbtnConsistent w
      → Ensures
          (IsDown w.num_devices)
          (then_do (stop_scbtn_threads backend w) (scbtn_shutdown backend))
  stopped_ended-IsDown w exits c =
      let n = w.num_devices in
      then_do-Ensures (IsIdle n) (IsDown n) (stop_scbtn_threads backend w) (scbtn_shutdown backend)
        (λ v i. shutdown-IsDown n v exits i) (stop-IsIdle backend w c)

  replaced-IsDown :
      (hook : Option (Option (CString × List CString))) (w : ScbtnDaemon S)
      → HookRuns hook
      → CanExit backend
      → ScbtnConsistent w
      → Ensures (IsDown w.num_devices) (replaced backend hook w)
  replaced-IsDown hook w run exits c =
      let n = w.num_devices in
      then_do-Ensures (IsDown n) (IsDown n) _ (load_backend backend) (λ v i. load-IsDown n v i)
        (then_do-Ensures (IsDown n) (IsDown n) _ (hooked backend hook)
          (λ v i. hooked-IsDown n hook v run i) (stopped_ended-IsDown w exits c))

  hup-ScbtnConsistent :
      (w : ScbtnDaemon S)
      → CanExit backend
      → ScbtnConsistent w
      → Ensures ScbtnConsistent (scbtn_hup_handler backend w)
  hup-ScbtnConsistent w exits c =
      let n = w.num_devices in
      then_do-Ensures (IsDown n) ScbtnConsistent _ (renew backend)
        (λ v i. renew-ScbtnConsistent n v i.0)
        (then_do-Ensures (IsDown n) (IsDown n) _ (load_backend backend) (λ v i. load-IsDown n v i)
          (stopped_ended-IsDown w exits c))

  added-ScbtnConsistent :
      (ch : Change) (w : ScbtnDaemon S)
      → HookRuns (insert_hook ch)
      → CanExit backend
      → ScbtnConsistent w
      → Ensures ScbtnConsistent (scbtn_device_added backend ch w)
  added-ScbtnConsistent ch w run exits c =
      then_do-Ensures (IsDown w.num_devices) ScbtnConsistent (replaced backend (insert_hook ch) w)
        (renew backend) (λ v i. renew-ScbtnConsistent w.num_devices v i.0)
        (replaced-IsDown (insert_hook ch) w run exits c)

  removed-ScbtnConsistent :
      (ch : Change) (w : ScbtnDaemon S)
      → HookRuns (remove_hook ch)
      → CanExit backend
      → ScbtnConsistent w
      → Ensures ScbtnConsistent (scbtn_device_removed backend ch w)
  removed-ScbtnConsistent ch w run exits c =
      let n = w.num_devices in
      Ensures-weaken (IsDown n) ScbtnConsistent (scbtn_device_removed backend ch w)
        (λ v i. idle-ScbtnConsistent n v i.0) (replaced-IsDown (remove_hook ch) w run exits c)

  -- From a state with as many devices as are counted, and a thread for each of them if threads run,
  -- neither stopping nor starting the threads, nor a trigger with any numbers, nor a new
  -- configuration, nor a device that comes or goes makes the daemon leave the list of threads: the
  -- call waits for an action to end or for threads, or it ends the daemon because no backend can be
  -- loaded, or it returns such a state. The backend can be ended and the hooks pass their assertions.
  pub operations-ScbtnConsistent :
      (ch : Change) (dev action : ℕ) (w : ScbtnDaemon S)
      → HooksRun ch
      → CanExit backend
      → ScbtnConsistent w
      → Ensures ScbtnConsistent (stop_scbtn_threads backend w)
        × Ensures ScbtnConsistent (start_scbtn_threads backend w)
        × Ensures ScbtnConsistent (scbtn_trigger_action backend dev action w)
        × Ensures ScbtnConsistent (scbtn_hup_handler backend w)
        × Ensures ScbtnConsistent (scbtn_device_added backend ch w)
        × Ensures ScbtnConsistent (scbtn_device_removed backend ch w)
  operations-ScbtnConsistent ch dev action w run exits c = (
    Ensures-weaken (IsIdle w.num_devices) ScbtnConsistent (stop_scbtn_threads backend w)
        (λ v i. idle-ScbtnConsistent w.num_devices v i) (stop-IsIdle backend w c),
    start-ScbtnConsistent backend w c,
    trigger-ScbtnConsistent dev action w c,
    hup-ScbtnConsistent w exits c,
    added-ScbtnConsistent ch w run.inserted exits c,
    removed-ScbtnConsistent ch w run.removed exits c,
  )

  waits_idle :
      (n dev action : ℕ) (w : ScbtnDaemon S)
      → dev < n
      → IsIdle n w
      → scbtn_trigger_action backend dev action w ≡ waiting
  unfolding scbtn_trigger_action trigger_running
  waits_idle n dev action w lt i =
      let some_device : (w.num_devices == 0) ≡ false = ground (arith, lt, i.counts) in
      let inside : leb w.num_devices dev ≡ false = ground (arith, lt, i.counts) in
      rw (some_device, inside, i.none_left) refl

  -- After the removal of a device no thread polls any scanner, the scanners in the list of devices
  -- have been freed with the backend, and a trigger for a device that was
  -- counted before, whichever was removed, waits for threads. The backend can be ended and the hook
  -- passes its assertion; one thread runs for each device, or none.
  pub scbtn_device_removed-waits :
      (ch : Change) (dev action : ℕ) (w : ScbtnDaemon S)
      → HooksRun ch
      → CanExit backend
      → ScbtnConsistent w
      → dev < w.num_devices
      → Ensures
          (λ v.
            (v.scbtn_poll_threads ≡ none)
            × (v.freed ≡ true)
            × (scbtn_trigger_action backend dev action v ≡ waiting))
          (scbtn_device_removed backend ch w)
  scbtn_device_removed-waits ch dev action w run exits c lt =
      Ensures-weaken (IsDown w.num_devices) _ (scbtn_device_removed backend ch w)
        (λ v i. (i.0.none_left, i.1, waits_idle w.num_devices dev action v lt i.0))
        (replaced-IsDown (remove_hook ch) w run.removed exits c)
