-- ===== src/Sane/Poll/Environment/Parts.antt =====
-- The number of strings in the fixed part of the environment (sane_poll of src/scanbd/sane.c).
use scanbd.Prelude.{
  ℕ, ◌+◌, ◌≡◌, refl, Bool, true, false, ◌&&◌, ◌||◌, Option, none, some, List, ◌∷◌, ◌++◌, CString,
  lit, ◌==◌, ==_iff, ==_ne, length, length-append, arith,
}
use scanbd.Sane.Types.{Thread, DevOption}
use scanbd.Sane.Match.Options.Entry.{is_set}
use scanbd.Sane.Poll.Environment.{
  Process, or_null, path_string, pwd_strings, pwd_from, or_passwd, named_strings,
}

-- Every variable of the fixed part of the environment is there.
abbrev pub has_all : Process → Bool
has_all p =
    (is_set (p.getenv (lit "PWD")) || is_set p.getcwd)
    && ((is_set (p.getenv (lit "USER")) || is_set p.passwd)
        && ((is_set (p.getenv (lit "HOME")) || is_set p.passwd)
            && (is_set p.device_env && is_set p.action_env)))

-- The number of strings that a part contributes.
abbrev pub count : Bool → ℕ
count true = 1
count false = 0

pub pwd_count :
    (set cwd : Option CString) → length (pwd_from set cwd) ≡ count (is_set set || is_set cwd)
unfolding pwd_from
pwd_count (some wd) cwd = refl
pwd_count none (some wd) = refl
pwd_count none none = refl

pub named_count :
    (name : Option CString) (value : CString)
    → length (named_strings name value) ≡ count (is_set name)
unfolding named_strings
named_count none value = refl
named_count (some name) value = refl

pub or_passwd-is_set :
    (name : CString) (field : CString × CString → CString) (set : Option CString)
    (passwd : Option (CString × CString))
    → is_set (or_passwd name field set passwd) ≡ (is_set set || is_set passwd)
unfolding or_passwd
or_passwd-is_set name field (some value) passwd = refl
or_passwd-is_set name field none (some pwd) = refl
or_passwd-is_set name field none none = refl

-- The parts fill the array exactly if the three that may be missing are there.
pub fills :
    (n k : ℕ) (a b c : Bool)
    → n ≡ k + (1 + (count a + (2 + (count b + count c))))
    → (n == (k + 6)) ≡ (a && (b && c))
fills n k true true true h = (==_iff n (k + 6)).1 (omega arith)
fills n k true true false h = ==_ne n (k + 6) (omega arith)
fills n k true false true h = ==_ne n (k + 6) (omega arith)
fills n k true false false h = ==_ne n (k + 6) (omega arith)
fills n k false true true h = ==_ne n (k + 6) (omega arith)
fills n k false true false h = ==_ne n (k + 6) (omega arith)
fills n k false false true h = ==_ne n (k + 6) (omega arith)
fills n k false false false h = ==_ne n (k + 6) (omega arith)

-- The parts of an environment, put together.
abbrev pub parts : Process → Thread → List CString → CString → CString → DevOption → List CString
parts p st fs user home action =
    fs
    ++ (path_string p
        ∷ (pwd_strings p
            ++ (user
                ∷ home
                ∷ (named_strings p.device_env st.dev_name
                    ++ named_strings p.action_env (or_null action.action_name)))))

pub parts-count :
    (p : Process) (st : Thread) (fs : List CString) (user home : CString) (action : DevOption)
    (k : ℕ)
    → length fs ≡ k
    → length (parts p st fs user home action)
      ≡ k
        + (1
            + (count (is_set (p.getenv (lit "PWD")) || is_set p.getcwd)
                + (2 + (count (is_set p.device_env) + count (is_set p.action_env)))))
parts-count p st fs user home action k h =
    let device = named_strings p.device_env st.dev_name in
    let script = named_strings p.action_env (or_null action.action_name) in
    let rest = user ∷ home ∷ (device ++ script) in
    omega (
      arith,
      h,
      length-append fs (path_string p ∷ (pwd_strings p ++ rest)),
      length-append (pwd_strings p) rest,
      length-append device script,
      pwd_count (p.getenv (lit "PWD")) p.getcwd,
      named_count p.device_env st.dev_name,
      named_count p.action_env (or_null action.action_name),
    )
