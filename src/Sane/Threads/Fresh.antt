-- ===== src/Sane/Threads/Fresh.antt =====
-- The polling threads after a hangup signal to src/scanbd/scanbd.c.
use scanbd.Prelude.{
  ◌≡◌, refl, sym, ap, ◌∙◌, subst, inl, inr, ◌==◌, if◌then◌else◌, true, Option, none, some, List,
  CString, length, map, Bool-cases,
}
use scanbd.Sane.Types.{Thread}
use scanbd.Sane.Threads.{
  Daemon, returns, and_then, get_sane_devices, start_thread, all_idle, stop_threads, stop_list,
  stop_sane_threads, start_all, start_sane_threads, sig_hup_handler,
}
use mathlib.Core.Option.{some-injective}
use scanbd.Sane.Threads.Lists.{Matches, IsConsistent, idle, all_idle_lem, start_threads_lem}

-- The threads after a hangup signal, from idle ones.
pub stop_idle :
    (w : Daemon) (ts : List Thread)
    → w.sane_poll_threads ≡ some ts
    → length ts ≡ w.num_devices
    → idle ts ≡ true
    → stop_sane_threads w ≡ returns (record w { sane_poll_threads = none })
unfolding stop_list stop_threads
stop_idle w ts e h quiet =
    ap (stop_list w) e
    ∙ ap (stop_threads w) (ap (λ n. all_idle n ts) (sym h) ∙ (all_idle_lem ts ∙ ap some quiet))

pub restarted :
    (w : Daemon) (devices : List CString)
    → (v : Daemon) × (start_sane_threads
          (get_sane_devices (some devices) (record w { sane_poll_threads = none }))
        ≡ returns v)
      × (v.num_devices ≡ length devices)
      × (v.sane_poll_threads
          ≡ (if length devices == 0 then none else some (map start_thread devices)))
unfolding start_sane_threads get_sane_devices stop_list start_all
restarted w devices =
    let found = record w {
      sane_device_list = some devices;
      num_devices = length devices;
      sane_poll_threads = none;
    } in
    elim (Bool-cases (length devices == 0)) [
      | inl e ↦ (found, rw e refl, refl, rw e refl)
      | inr e ↦ (
        record found { sane_poll_threads = some (map start_thread devices) },
        rw (e, start_threads_lem devices) refl,
        refl,
        rw e refl,
      )
    ]

-- If no action is active, sig_hup_handler returns, and then one new thread runs for each device
-- found, in their order; if none is found no thread runs.
pub sig_hup_handler-fresh :
    (w : Daemon) (ts : List Thread) (devices : List CString)
    → IsConsistent w
    → w.sane_poll_threads ≡ some ts
    → idle ts ≡ true
    → (v : Daemon) × (sig_hup_handler (some devices) w ≡ returns v)
      × (v.num_devices ≡ length devices)
      × (v.sane_poll_threads
          ≡ (if length devices == 0 then none else some (map start_thread devices)))
unfolding sig_hup_handler
sig_hup_handler-fresh w ts devices c e quiet =
    let (v, r, n, t) = restarted w devices in
    (
      v,
      ap (λ x. and_then x (λ x. start_sane_threads (get_sane_devices (some devices) x))) stops ∙ r,
      n,
      t,
    )
  where
    matches :
        (o : Option (List Thread))
        → o ≡ some ts
        → Matches w.num_devices o
        → length ts ≡ w.num_devices
    matches none q h = cc
    matches (some us) q h = subst (λ xs. length xs ≡ w.num_devices) (some-injective _ _ q) h

    stops : stop_sane_threads w ≡ returns (record w { sane_poll_threads = none })
    stops = stop_idle w ts e (matches w.sane_poll_threads e c.threads) quiet
