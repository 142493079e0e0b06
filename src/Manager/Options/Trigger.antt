-- ===== src/Manager/Options/Trigger.antt =====
-- The options of src/scanbd/scanbd.c for a trigger.
use scanbd.Prelude.{ℕ, ◌<◌, ◌≡◌, refl, true, Option, none, some, [], ◌∷◌, CString, decimal, pos}
use scanbd.Manager.Numbers.{decimal-is_number}
use scanbd.Manager.Options.{
  Settings, on_m, on_t, on_a, trigger_option, trigger_action_option, one_option, read_options,
  Child, calls_trigger, trigger_or, manager_run, default_settings,
}

-- The options `-m -t device -a action`, with the numbers in decimal, make the manager mode call the
-- trigger of exactly this device and this action, and nothing else, whatever the pid file holds and
-- whatever would become of saned, if both numbers fit an int.
pub read_options-calls_trigger :
    (device action : ℕ) (conf junk : CString) (file : Option (Option CString)) (child : Child)
    → device < 2147483648
    → action < 2147483648
    → (s : Settings) × (read_options
          ((on_m, none) ∷ (on_t, some (decimal device)) ∷ (on_a, some (decimal action)) ∷ [])
          (default_settings conf)
        ≡ some s)
      × (s.manager_mode ≡ true)
      × (manager_run s file junk child ≡ (calls_trigger (pos device) (pos action) ∷ [], true))
unfolding read_options one_option trigger_option trigger_action_option trigger_or
read_options-calls_trigger device action conf junk file child h h' =
    let (number, value) = decimal-is_number device h in
    let (number', value') = decimal-is_number action h' in
    (
      record (default_settings conf) {
        manager_mode = true;
        foreground = true;
        trigger_device = pos device;
        trigger_action = pos action;
      },
      rw (number, value, number', value') refl,
      refl,
      refl,
    )
