-- ===== src/Sane/ThreadsTests.antt =====
-- The operations on the polling threads (src/scanbd/sane.c) for one device.
use scanbd.Prelude.{none, ◌≡◌, refl, some, [], ◌∷◌, lit}
use scanbd.Sane.Threads.{
  Daemon, returns, start_thread, stop_sane_threads, start_sane_threads, sane_trigger_action,
  sig_hup_handler,
}
use scanbd.Sane.Threads.Lists.{IsConsistent}
use scanbd.Sane.Threads.Safe.{Holds, IsStopped, operations-IsConsistent}
use scanbd.Sane.Threads.Fresh.{sig_hup_handler-fresh}

abbrev daemon : Daemon
daemon = record {
  sane_device_list = some (lit "test:0" ∷ []);
  num_devices = 1;
  sane_poll_threads = some (start_thread (lit "test:0") ∷ []);
}

daemon-IsConsistent : IsConsistent daemon
daemon-IsConsistent = record { counted = refl; threads = refl }

operations-IsConsistent_example :
    Holds IsStopped (stop_sane_threads daemon)
    × Holds IsConsistent (start_sane_threads daemon)
    × Holds IsConsistent (sane_trigger_action 0 2 daemon)
    × Holds IsConsistent (sig_hup_handler none daemon)
operations-IsConsistent_example = operations-IsConsistent daemon 0 2 none daemon-IsConsistent

sig_hup_handler-fresh_example :
    (v : Daemon) × (sig_hup_handler (some (lit "test:1" ∷ [])) daemon ≡ returns v)
    × (v.num_devices ≡ 1)
    × (v.sane_poll_threads ≡ some (start_thread (lit "test:1") ∷ []))
unfolding start_thread
sig_hup_handler-fresh_example =
    sig_hup_handler-fresh daemon (start_thread (lit "test:0") ∷ []) (lit "test:1" ∷ [])
      daemon-IsConsistent refl refl
