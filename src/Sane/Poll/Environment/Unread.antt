-- ===== src/Sane/Poll/Environment/Unread.antt =====
-- The value of a function whose option has an action too (sane_poll of src/scanbd/sane.c).
use scanbd.Prelude.{
  ℕ, ◌≤◌, ◌<◌, ◌≡◌, refl, ◌∙◌, inl, inr, false, ◌||◌, none, some, lit, ◌==◌, ==_ne, length, take,
  get_elem?, get_elem?-map, get_elem?-take, All-get, if◌then◌else◌, arith, decimal, map, ◌≢◌,
}
use scanbd.Sane.Types.{Descriptor, Driver, ValueType, Thread, DevOption, DevFunction}
use scanbd.Sane.Value.Read.{is_string, sane_option_value_init}
use scanbd.Sane.Match.Search.{find_number-first, Slot}
use scanbd.Sane.Poll.Check.{open_descriptor}
use scanbd.Sane.Poll.Environment.{
  assign, or_null, is_button, is_number, function_value, function_string,
}

-- A search for the number of an entry stops before the end.
search_stops :
    (st : Thread) (o opt : ℕ) {action : DevOption}
    → o < st.num_of_options_with_scripts
    → get_elem? st.opts o ≡ some action
    → action.number ≡ opt
    → {i : ℕ}
    → Slot st.num_of_options_with_scripts
        (map DevOption.number (take st.num_of_options_with_scripts st.opts))
        opt
        i
    → (i == st.num_of_options_with_scripts) ≡ false
search_stops st o opt h e same {i} (inl (lt, _)) =
    ==_ne i st.num_of_options_with_scripts (λ q. omega (arith, lt, q))
search_stops st o opt h e same (inr (_, new)) =
    let count = st.num_of_options_with_scripts in
    let there =
      get_elem?-map DevOption.number (take count st.opts) o
        (get_elem?-take count o st.opts h ∙ e) in
    absurd (All-get (λ m. m ≢ opt) (map DevOption.number (take count st.opts)) o new there same)

-- If a function's option has an action, the script is not told its value, whatever the device or the
-- action's entry holds, and the device is not asked: a BOOL, INT or FIXED option, and any option
-- while a button is checked, is exported as 0, a STRING as a null pointer, and for another option,
-- such as a button while something else is checked, the assertion fails. The option has a
-- descriptor, and the entries in use fit the array.
pub function_string-unread :
    {D : Type 0} (sane : Driver D) (polled : ValueType) (d : D) (st : Thread) (f : DevFunction)
    (o : ℕ) {action : DevOption} {fdesc : Descriptor}
    → st.num_of_options_with_scripts ≤ length st.opts
    → o < st.num_of_options_with_scripts
    → get_elem? st.opts o ≡ some action
    → action.number ≡ f.number
    → open_descriptor sane d st f.number ≡ some fdesc
    → function_string sane polled d st f ≡ (
        if is_number fdesc.type || is_button polled
        then some (assign (or_null f.env) (lit "0"), d)
        else if is_string fdesc.type
        then some (assign (or_null f.env) (lit "(null)"), d)
        else none)
unfolding function_string function_value sane_option_value_init decimal
function_string-unread sane polled d st f o room h e same od =
    let count = st.num_of_options_with_scripts in
    let (i, found, slot) = find_number-first DevOption.number count st.opts f.number room in
    let stops = search_stops st o f.number h e same slot in rw (od, found, stops) refl
