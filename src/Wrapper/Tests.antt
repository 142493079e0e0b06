-- ===== src/Wrapper/Tests.antt =====
-- The matching of actions (src/scanbd/scanbuttond_wrapper.c) for a scanner with one button.
use scanbd.Prelude.{◌≡◌, refl, Option, none, some, ℕ, CString, lit, true, [], ◌∷◌}
use scanbd.Sane.Samples.{press, literal, global}
use scanbd.Wrapper.Match.{ScbtnOption, scbtn_find_matching_options}
use scanbd.Wrapper.Match.Overflow.{one_button, IsMatch, scbtn_find_matching_options-overflows}

abbrev scan_button : ℕ → Option CString
scan_button n = some (lit "scan")

abbrev unused : ScbtnOption
unused = record {
  number = 0;
  from_value = 0;
  to_value = 0;
  value = 0;
  script = none;
  action_name = none;
}

press-IsMatch : IsMatch literal scan_button press
press-IsMatch = record { compiles = refl; name = lit "scan"; named = refl; matches = refl }

scbtn_find_matching_options-overflows_example :
    scbtn_find_matching_options literal scan_button true
      (one_button unused 0)
      (record global { actions = press ∷ press ∷ [] })
    ≡ none
scbtn_find_matching_options-overflows_example =
    scbtn_find_matching_options-overflows literal scan_button unused press press
      (record global { actions = press ∷ press ∷ [] }) [] refl press-IsMatch press-IsMatch
