-- ===== src/Sane/Types.antt =====
-- The data of src/scanbd/sane.c: option values, the matched actions and functions of a device, and
-- the polling thread; what sane.c takes from SANE and from the regular expressions of the C library.
use scanbd.Prelude.{ℕ, ℤ, Bool, Option, List, CString}

-- The types of SANE options (sane.h).
pub data ValueType : Type 0 where
  type_bool type_int type_fixed type_string type_button type_group : ValueType

-- SANE_Option_Descriptor, as far as sane.c reads it; `active` is SANE_OPTION_IS_ACTIVE(cap).
pub record Descriptor : Type 0 where
  pub name : Option CString
  pub type : ValueType
  pub size : ℕ
  pub active : Bool

-- The SANE calls on an open device whose state is a `D`. `descriptor d n` is
-- sane_get_option_descriptor. Two forms of sane_control_option with SANE_ACTION_GET_VALUE:
-- `read_word` gives the number that the caller's zeroed `unsigned long` then holds, `none` for a
-- status that is not good; `read_string` gives whether the status is good, and the bytes that the
-- caller's buffer of the descriptor's size and one then holds.
pub record Driver (D : Type 0) : Type 0 where
  pub descriptor : D → ℕ → Option Descriptor
  pub read_word : D → ℕ → Option ℕ × D
  pub read_string : D → ℕ → (Bool × List ℕ) × D

-- regcomp's result for a pattern, and whether regexec finds a match of a compiled pattern.
pub record Regex : Type 0 where
  pub regcomp : CString → ℤ
  pub matches : CString → CString → Bool

-- struct sane_opt_value; a compiled regular expression is the pattern that it was compiled from.
pub record OptValue : Type 0 where
  pub num_value : ℕ
  pub str : Option CString
  pub reg : Option CString

-- struct sane_dev_option
pub record DevOption : Type 0 where
  pub number : ℕ
  pub from_value : OptValue
  pub to_value : OptValue
  pub value : OptValue
  pub script : Option CString
  pub action_name : Option CString

-- struct sane_dev_function
pub record DevFunction : Type 0 where
  pub number : ℕ
  pub env : Option CString

-- struct sane_thread, without its locks and its thread id. `triggered_option` is `none` for -1.
pub record Thread : Type 0 where
  pub triggered : Bool
  pub triggered_option : Option ℕ
  pub dev_name : CString
  pub num_of_options : ℕ
  pub is_open : Bool
  pub opts : List DevOption
  pub num_of_options_with_scripts : ℕ
  pub functions : List DevFunction
  pub num_of_options_with_functions : ℕ

-- The sections of the configuration, as libconfuse hands them out (src/scanbd/config.c).
pub record Action : Type 0 where
  pub title : Option CString
  pub filter : CString
  pub script : Option CString
  pub num_from : ℤ
  pub num_to : ℤ
  pub str_from : CString
  pub str_to : CString

pub record Function : Type 0 where
  pub title : Option CString
  pub filter : CString
  pub env : CString

pub record Section : Type 0 where
  pub title : Option CString
  pub actions : List Action
  pub functions : List Function
