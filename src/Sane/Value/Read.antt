-- ===== src/Sane/Value/Read.antt =====
-- sane_option_value_init, sane_option_value_free and get_sane_option_value of src/scanbd/sane.c.
use scanbd.Prelude.{ℕ, Bool, true, false, none, some, leb, if◌then◌else◌, take, c_string}
use scanbd.Sane.Types.{
  Descriptor, Driver, OptValue, ValueType, type_bool, type_int, type_fixed, type_string,
  type_button,
}
use scanbd.Sane.Value.Hash.{hash}

unfoldable pub sane_option_value_init : OptValue
sane_option_value_init = record { num_value = 0; str = none; reg = none }

-- The strings and the compiled expression are freed; the number stays.
unfoldable pub sane_option_value_free : OptValue → OptValue
sane_option_value_free v = record v { str = none; reg = none }

-- BOOL | INT | FIXED | BUTTON
abbrev pub is_numerical : ValueType → Bool
is_numerical type_bool = true
is_numerical type_int = true
is_numerical type_fixed = true
is_numerical type_button = true
is_numerical _ = false

abbrev pub is_string : ValueType → Bool
is_string type_string = true
is_string _ = false

module _ {D : Type 0} (sane : Driver D) where
  -- A number of at most sizeof(long int) bytes.
  read_numerical : D → ℕ → Descriptor → OptValue × D
  unfolding sane_option_value_init
  read_numerical d index odesc =
      let (got, d') = sane.read_word d index in
      if leb odesc.size 8
      then (
        elim got [
          | none ↦ sane_option_value_init
          | some n ↦ record sane_option_value_init { num_value = n }
        ],
        d',
      )
      else (sane_option_value_init, d)

  -- A string: the byte behind the option's size is overwritten by the terminating NUL.
  read_text : D → ℕ → Descriptor → OptValue × D
  unfolding sane_option_value_init hash
  read_text d index odesc =
      let (got, d') = sane.read_string d index in
      let (good, buffer) = got in
      let text = c_string (take odesc.size buffer) in
      (
        if good
            then record { num_value = hash text; str = some text; reg = none }
            else record sane_option_value_init { str = some (c_string buffer) },
        d',
      )

  unfoldable pub get_sane_option_value : D → ℕ → OptValue × D
  unfolding read_numerical read_text
  get_sane_option_value d index = elim (sane.descriptor d index) [
    | none ↦ (sane_option_value_init, d)
    | some odesc ↦
        if is_numerical odesc.type
        then read_numerical d index odesc
        else if is_string odesc.type
        then read_text d index odesc
        else (sane_option_value_init, d)
  ]
