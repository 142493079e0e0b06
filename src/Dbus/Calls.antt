-- ===== src/Dbus/Calls.antt =====
-- The calls that src/scanbd/dbus.c sends in manager mode, as the running daemon takes them.
use scanbd.Prelude.{
  ℕ, ◌-◌, ◌%◌, ◌≤◌, ◌<◌, ◌≡◌, ◌⊎◌, refl, ap, subst, ◌∙◌, inl, inr, ltb, ◌==◌, true, false,
  Bool-cases, ltb-true, none, some, List, [], ◌∷◌, ◌++◌, map, length, CString, str_eq, pos, negsuc,
  arith, ◌&&◌,
}
use scanbd.Sane.Types.{Thread}
use scanbd.Sane.Threads.{
  Daemon, Result, returns, faults, devices_of, start_thread, stop_list, start_all,
  start_sane_threads, sane_trigger_action,
}
use scanbd.Sane.Threads.Lists.{IsConsistent, Matches, idle, started}
use scanbd.Sane.Threads.Fresh.{stop_idle}
use scanbd.Dbus.{
  Change, uint32, Messages, scanbd_interface, method_acquire, method_release, method_trigger,
  to_int, trigger_thread_run, dbus_method_trigger, reaction, message_func, dbus_call_trigger,
  dbus_call_method,
}

-- libdbus as it is documented: a method call keeps its interface and its name, and its arguments in
-- their order.
pub record KeepsCalls {Msg : Type 0} (dbus : Messages Msg) : Type 0 where
  pub called :
      (interface method interface' method' : CString)
      → dbus.is_method_call (dbus.new_method_call interface method) interface' method'
        ≡ (str_eq interface interface' && str_eq method method')
  pub no_arguments :
      (interface method : CString) → dbus.arguments (dbus.new_method_call interface method) ≡ []
  pub still_called :
      (message : Msg) (n : ℕ) (interface method : CString)
      → dbus.is_method_call (dbus.append_uint32 message n) interface method
        ≡ dbus.is_method_call message interface method
  pub appended :
      (message : Msg) (n : ℕ)
      → dbus.arguments (dbus.append_uint32 message n) ≡ dbus.arguments message ++ uint32 n ∷ []

to_int-small : (n : ℕ) → n < 2147483648 → to_int n ≡ pos n
unfolding to_int
to_int-small n h =
    let same : n % 4294967296 ≡ n = omega (arith, h) in rw (same, ltb-true n 2147483648 h) refl

to_int-large : (n : ℕ) → 2147483648 ≤ n → n < 4294967296 → (k : ℕ) × (to_int n ≡ negsuc k)
unfolding to_int
to_int-large n h h' =
    let same : n % 4294967296 ≡ n = omega (arith, h') in
    let not_less : ltb n 2147483648 ≡ false = ground (arith, h) in
    (4294967295 - n, rw (same, not_less) refl)

-- The action is triggered as the caller asked, or a number that is too large for an int makes the
-- assertion fail.
abbrev pub IsTriggered : ℕ → ℕ → Daemon → Result → Type 0
IsTriggered device action w result =
    ((device < 2147483648) × (action < 2147483648) × (result ≡ sane_trigger_action device action w))
    ⊎ (((2147483648 ≤ device) ⊎ (2147483648 ≤ action)) × (result ≡ faults))

trigger_thread_run-IsTriggered :
    (device action : ℕ) (w : Daemon)
    → device < 4294967296
    → action < 4294967296
    → IsTriggered device action w (trigger_thread_run (to_int device, to_int action) w)
unfolding trigger_thread_run
trigger_thread_run-IsTriggered device action w h h' = elim (Bool-cases (ltb device 2147483648)) [
  | inr large ↦
      let le : 2147483648 ≤ device = ground (arith, large) in
      let (k, e) = to_int-large device le h in inr (inl le, rw e refl)
  | inl small ↦
      let lt : device < 2147483648 = ground (arith, small) in
      elim (Bool-cases (ltb action 2147483648)) [
        | inr large ↦
            let le : 2147483648 ≤ action = ground (arith, large) in
            let (k, e) = to_int-large action le h' in
            inr (inr le, rw (to_int-small device lt, e) refl)
        | inl small' ↦
            let lt' : action < 2147483648 = ground (arith, small') in
            inl (lt, lt', rw (to_int-small device lt, to_int-small action lt') refl)
      ]
]

module _ {Msg : Type 0} (dbus : Messages Msg) (keeps : KeepsCalls dbus) where
  call_lem :
      (device action : ℕ) (method : CString)
      → dbus.is_method_call (dbus_call_trigger dbus device action) scanbd_interface method
        ≡ str_eq method_trigger method
  call_lem device action method =
      keeps.still_called
        (dbus.append_uint32 (dbus.new_method_call scanbd_interface method_trigger) device) action
        scanbd_interface method
      ∙ (keeps.still_called (dbus.new_method_call scanbd_interface method_trigger) device
            scanbd_interface method
          ∙ keeps.called scanbd_interface method_trigger scanbd_interface method)

  arguments_lem :
      (device action : ℕ)
      → dbus.arguments (dbus_call_trigger dbus device action) ≡ uint32 device ∷ uint32 action ∷ []
  arguments_lem device action =
      let call = dbus.new_method_call scanbd_interface method_trigger in
      keeps.appended (dbus.append_uint32 call device) action
      ∙ ap (λ l. l ++ uint32 action ∷ [])
          (keeps.appended call device
            ∙ ap (λ l. l ++ uint32 device ∷ [])
                (keeps.no_arguments scanbd_interface method_trigger))

  -- The call that scanbd sends in manager mode to trigger an action makes the running daemon start
  -- one thread for exactly this device and action, and nothing else; the thread triggers the action
  -- if both numbers are less than 2 ^ 31, and otherwise the assertion on them fails, which ends the
  -- daemon. The numbers are less than 2 ^ 32, and libdbus keeps the name and the arguments of a call.
  pub dbus_call_trigger-IsTriggered :
      (device action : ℕ) (ch : Change) (w : Daemon)
      → device < 4294967296
      → action < 4294967296
      → (message_func dbus (dbus_call_trigger dbus device action) ch w
          ≡ reaction (returns w) ((to_int device, to_int action) ∷ []))
        × IsTriggered device action w (trigger_thread_run (to_int device, to_int action) w)
  unfolding message_func dbus_method_trigger
  dbus_call_trigger-IsTriggered device action ch w h h' = (
    rw
        (
          call_lem device action method_acquire,
          call_lem device action method_release,
          call_lem device action method_trigger,
          arguments_lem device action,
        )
        refl,
    trigger_thread_run-IsTriggered device action w h h',
  )

  method_lem :
      (method method' : CString)
      → dbus.is_method_call (dbus_call_method dbus method) scanbd_interface method'
        ≡ str_eq method method'
  method_lem method method' = keeps.called scanbd_interface method scanbd_interface method'

  -- While no action is active, the call `aquire` leaves no polling thread and forgets no device, and
  -- the call `release` after it starts one new thread for each device, in their order, so that saned
  -- has the devices in between; there is at least one thread before, as many as devices, and libdbus
  -- keeps the name of a call.
  pub release-acquire :
      (ch : Change) (w : Daemon) (st : Thread) (ts : List Thread)
      → IsConsistent w
      → w.sane_poll_threads ≡ some (st ∷ ts)
      → idle (st ∷ ts) ≡ true
      → (v v' : Daemon) × ((message_func dbus (dbus_call_method dbus method_acquire) ch w).result
          ≡ returns v)
        × (v.sane_poll_threads ≡ none)
        × ((message_func dbus (dbus_call_method dbus method_release) ch v).result ≡ returns v')
        × (v'.sane_poll_threads ≡ some (map start_thread (devices_of w.sane_device_list)))
  unfolding message_func start_sane_threads stop_list start_all
  release-acquire ch w st ts c e quiet =
      let running : length (st ∷ ts) ≡ w.num_devices =
        subst (λ o. Matches w.num_devices o) e c.threads in
      let some_device : (w.num_devices == 0) ≡ false = ground (arith, running) in
      (
        record w { sane_poll_threads = none },
        record w { sane_poll_threads = some (map start_thread (devices_of w.sane_device_list)) },
        rw (method_lem method_acquire method_acquire) (stop_idle w (st ∷ ts) e running quiet),
        refl,
        rw
            (
              method_lem method_release method_acquire,
              method_lem method_release method_release,
              some_device,
              started w c,
            )
            refl,
        refl,
      )
