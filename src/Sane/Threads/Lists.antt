-- ===== src/Sane/Threads/Lists.antt =====
-- The loops over the polling threads of src/scanbd/sane.c.
use scanbd.Prelude.{
  ℕ, ◌≡◌, refl, ap, ◌∙◌, inl, inr, Bool, true, Option, none, some, List, [], ◌∷◌, CString, length,
  map, ◌&&◌, not, Bool-cases,
}
use scanbd.Sane.Types.{Thread}
use scanbd.Sane.Threads.{Daemon, count_devices, devices_of, start_thread, start_threads, all_idle}

-- The threads that run are one for each device.
abbrev pub Matches : ℕ → Option (List Thread) → Type 0
Matches n none = Unit {0}
Matches n (some ts) = length ts ≡ n

pub record IsConsistent (w : Daemon) : Type 0 where
  pub counted : w.num_devices ≡ count_devices w.sane_device_list
  pub threads : Matches w.num_devices w.sane_poll_threads

abbrev pub idle : List Thread → Bool
idle [] = true
idle (st ∷ ts) = not st.triggered && idle ts

pub all_idle_lem : (ts : List Thread) → all_idle (length ts) ts ≡ some (idle ts)
unfolding all_idle
all_idle_lem [] = refl
all_idle_lem (st ∷ ts) = elim (Bool-cases st.triggered) [
  | inl t ↦ rw t refl
  | inr t ↦ rw t (all_idle_lem ts)
]

pub start_threads_lem :
    (devices : List CString)
    → start_threads (length devices) devices ≡ some (map start_thread devices)
unfolding start_threads
start_threads_lem [] = refl
start_threads_lem (dev ∷ devices) = rw (start_threads_lem devices) refl

-- The threads that are started.
pub started :
    (w : Daemon)
    → IsConsistent w
    → start_threads w.num_devices (devices_of w.sane_device_list)
      ≡ some (map start_thread (devices_of w.sane_device_list))
started w c =
    ap (λ n. start_threads n (devices_of w.sane_device_list))
      (c.counted ∙ counted w.sane_device_list)
    ∙ start_threads_lem (devices_of w.sane_device_list)
  where
    counted : (o : Option (List CString)) → count_devices o ≡ length (devices_of o)
    counted none = refl
    counted (some devices) = refl
