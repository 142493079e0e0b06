-- ===== src/Wrapper/Poll/Press.antt =====
-- When an entry of scbtn_poll in src/scanbd/scanbuttond_wrapper.c fires.
use scanbd.Prelude.{
  ℕ, ◌<◌, ◌≡◌, ◌≢◌, ◌⊎◌, refl, inl, inr, ◌==◌, ◌&&◌, not, Bool, true, false, List, [], ◌∷◌, map, ℤ,
  arith,
}
use scanbd.Wrapper.Match.{ScbtnOption}
use scanbd.Wrapper.Poll.{is_pressed, value_of, check_button}

-- Whether the entry fires, pass by pass.
unfoldable pub firings : List ℤ → ScbtnOption → List Bool
firings [] entry = []
firings (button ∷ buttons) entry =
    let (entry', fires) = check_button button entry in fires ∷ firings buttons entry'

-- Where the signal goes up, after the value `was`.
unfoldable pub rising : Bool → List Bool → List Bool
rising was [] = []
rising was (now ∷ later) = (now && not was) ∷ rising now later

unfoldable pub never : List Bool → List Bool
never [] = []
never (now ∷ later) = false ∷ never later

fires_up :
    (number : ℕ) (button : ℤ) (was : Bool)
    → (is_pressed number button && (0 == value_of was && 1 == 1))
      ≡ (is_pressed number button && not was)
fires_up number button true = ground arith
fires_up number button false = ground arith

-- Pass by pass, an entry for a change from 0 to 1 fires exactly when its button is reported after a
-- pass in which it was not, whatever buttons are reported. The value of the entry is 1 if its button
-- was reported before, and 0 if not.
pub firings-rising :
    (buttons : List ℤ) (entry : ScbtnOption) (was : Bool)
    → entry.from_value ≡ 0
    → entry.to_value ≡ 1
    → entry.value ≡ value_of was
    → firings buttons entry ≡ rising was (map (is_pressed entry.number) buttons)
unfolding firings rising check_button
firings-rising [] entry was f t e = refl
firings-rising (button ∷ buttons) entry was f t e =
    let pressed = is_pressed entry.number button in
    let rest =
      firings-rising buttons (record entry { value = value_of pressed }) pressed f t refl in
    rw (rest, f, t, e, fires_up entry.number button was) refl

-- An entry for a change to another value than 1, such as that of a release, or from another value than
-- 0 and 1 never fires.
pub firings-never :
    (buttons : List ℤ) (entry : ScbtnOption)
    → (entry.to_value ≢ 1) ⊎ ((1 < entry.from_value) × (entry.value < 2))
    → firings buttons entry ≡ never (map (is_pressed entry.number) buttons)
unfolding firings never check_button
firings-never [] entry h = refl
firings-never (button ∷ buttons) entry (inl h) =
    let other : (entry.to_value == 1) ≡ false = ground (arith, h) in
    let pressed = is_pressed entry.number button in
    let rest = firings-never buttons (record entry { value = value_of pressed }) (inl h) in
    let quiet : (pressed && (entry.from_value == entry.value && entry.to_value == 1)) ≡ false =
      ground (arith, other) in
    rw (quiet, rest) refl
firings-never (button ∷ buttons) entry (inr (h, h')) =
    let other : (entry.from_value == entry.value) ≡ false = ground (arith, h, h') in
    let pressed = is_pressed entry.number button in
    let bit : value_of pressed < 2 = ground arith in
    let rest = firings-never buttons (record entry { value = value_of pressed }) (inr (h, bit)) in
    let quiet : (pressed && (entry.from_value == entry.value && entry.to_value == 1)) ≡ false =
      ground (arith, other) in
    rw (quiet, rest) refl
