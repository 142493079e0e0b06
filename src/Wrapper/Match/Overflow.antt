-- ===== src/Wrapper/Match/Overflow.antt =====
-- The array of actions after scbtn_find_matching_options of src/scanbd/scanbuttond_wrapper.c.
use scanbd.Prelude.{
  ℕ, ◌≡◌, refl, ap, ◌∙◌, true, false, Option, none, some, List, [], ◌∷◌, CString, is_neg, store,
}
use scanbd.Sane.Types.{Regex, Action, Section}
use scanbd.Sane.Match.Search.{find_number}
use scanbd.Sane.Match.Options.{slot_for}
use scanbd.Wrapper.Match.{
  ScbtnOption, ScbtnThread, scbtn_entry, scbtn_write, scbtn_install, scbtn_option, scbtn_options,
  scbtn_action, scbtn_actions, scbtn_find_matching_options,
}

-- A thread for a scanner with one button, before and after its one entry.
abbrev pub one_button : ScbtnOption → ℕ → ScbtnThread
one_button entry count = record {
  num_of_options = 1;
  opts = entry ∷ [];
  num_of_options_with_scripts = count;
}

-- An action that matches the button.
pub record IsMatch (re : Regex) (button_name : ℕ → Option CString) (action : Action) : Type 0 where
  pub compiles : is_neg (re.regcomp action.filter) ≡ false
  pub name : CString
  pub named : button_name 1 ≡ some name
  pub matches : re.matches action.filter name ≡ true

module _ (re : Regex) (button_name : ℕ → Option CString) (action : Action)
    (m : IsMatch re button_name action) where
  first_fills :
      (entry : ScbtnOption)
      → scbtn_action re button_name true action (one_button entry 0)
        ≡ some (one_button (scbtn_entry action 0) 1)
  unfolding scbtn_action scbtn_options scbtn_option scbtn_install scbtn_write find_number slot_for
      store
  first_fills entry = rw (m.compiles, m.named, m.matches) refl

  second_faults :
      (earlier : Action)
      → scbtn_action re button_name true action (one_button (scbtn_entry earlier 0) 1) ≡ none
  unfolding scbtn_action scbtn_options scbtn_option scbtn_install scbtn_write find_number slot_for
      store
  second_faults earlier = rw (m.compiles, m.named, m.matches) refl

-- With multiple actions, a scanner with one button and a section whose first two actions match it
-- make scbtn_find_matching_options write behind the end of st->opts, whatever the actions and the
-- entry in the array are.
pub scbtn_find_matching_options-overflows :
    (re : Regex) (button_name : ℕ → Option CString) (entry : ScbtnOption) (first second : Action)
    (sec : Section) (rest : List Action)
    → sec.actions ≡ first ∷ second ∷ rest
    → IsMatch re button_name first
    → IsMatch re button_name second
    → scbtn_find_matching_options re button_name true (one_button entry 0) sec ≡ none
unfolding scbtn_find_matching_options scbtn_actions
scbtn_find_matching_options-overflows re button_name entry first second sec rest e m m' =
    ap (λ actions. scbtn_actions re button_name true actions (one_button entry 0)) e
    ∙ rw (first_fills re button_name first m entry, second_faults re button_name second m' first)
        refl
