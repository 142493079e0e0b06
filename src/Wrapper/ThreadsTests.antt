-- ===== src/Wrapper/ThreadsTests.antt =====
-- The list of polling threads of src/scanbd/scanbuttond_wrapper.c with one scanner.
use scanbd.Prelude.{ℕ, ◌≡◌, true, false, none, some, [], ◌∷◌, refl, arith}
use scanbd.Dbus.Tests.{change, change-HooksRun}
use scanbd.Wrapper.PollTests.{backend, two_buttons}
use scanbd.Wrapper.Threads.{
  ScbtnDaemon, fresh_slot, waiting, stop_scbtn_threads, start_scbtn_threads, scbtn_trigger_action,
  scbtn_hup_handler, scbtn_device_added, scbtn_device_removed,
}
use scanbd.Wrapper.Threads.Safe.{ScbtnConsistent, Ensures, CanExit}
use scanbd.Wrapper.Threads.Removed.{operations-ScbtnConsistent, scbtn_device_removed-waits}

-- A thread with one action.
abbrev one_scanner : ScbtnDaemon ℕ
one_scanner = record {
  scbtn_device_list = two_buttons ∷ [];
  freed = false;
  num_devices = 1;
  scbtn_poll_threads = some (some (record fresh_slot { num_of_options_with_scripts = 1 }) ∷ []);
  state = 0;
}

one_scanner-ScbtnConsistent : ScbtnConsistent one_scanner
one_scanner-ScbtnConsistent = record { counted = refl; threads = tt }

backend-CanExit : CanExit backend
backend-CanExit state = (state, refl)

operations-ScbtnConsistent_example :
    Ensures ScbtnConsistent (stop_scbtn_threads backend one_scanner)
    × Ensures ScbtnConsistent (start_scbtn_threads backend one_scanner)
    × Ensures ScbtnConsistent (scbtn_trigger_action backend 0 0 one_scanner)
    × Ensures ScbtnConsistent (scbtn_hup_handler backend one_scanner)
    × Ensures ScbtnConsistent (scbtn_device_added backend change one_scanner)
    × Ensures ScbtnConsistent (scbtn_device_removed backend change one_scanner)
operations-ScbtnConsistent_example =
    operations-ScbtnConsistent backend change 0 0 one_scanner change-HooksRun backend-CanExit
      one_scanner-ScbtnConsistent

scbtn_device_removed-waits_example :
    Ensures
      (λ v.
        (v.scbtn_poll_threads ≡ none)
        × (v.freed ≡ true)
        × (scbtn_trigger_action backend 0 0 v ≡ waiting))
      (scbtn_device_removed backend change one_scanner)
scbtn_device_removed-waits_example =
    scbtn_device_removed-waits backend change 0 0 one_scanner change-HooksRun backend-CanExit
      one_scanner-ScbtnConsistent (omega arith)
