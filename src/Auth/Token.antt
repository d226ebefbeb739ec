-- ===== src/Auth/Token.antt =====
-- The wire token of internal/auth/auth.go, agpu_<keyid>_<secret>.
pub mod RoundTrip
use Prim.Native.Char.{code}
use agent_gpu.Prelude.{
  ℕ, String, Bool, Option, none, some, ◌||◌, not, str_eq, str_append, if◌then◌else◌, ◌==◌,
}

abbrev pub prefix : String
prefix = "agpu"

unfoldable pub format_token : String → String → String
format_token id secret = str_append prefix (str_append "_" (str_append id (str_append "_" secret)))

-- What stands before the first underscore and after it.
unfoldable pub cut : String → Option (String × String)
cut String.[] = none
cut (String.◌∷◌ c s) =
    if code c == b'_'
    then some ("", s)
    else elim (cut s) [ none ↦ none | some (a, r) ↦ some (String.◌∷◌ c a, r) ]

-- `strings.SplitN(token, "_", 3)` where it gives three parts.
unfoldable pub split_three : String → Option (String × String × String)
split_three token = elim (cut token) [
  | none ↦ none
  | some (a, r) ↦ elim (cut r) [ none ↦ none | some (b, c) ↦ some (a, b, c) ]
]

unfoldable pub parse_token : String → Option (String × String)
unfolding split_three
parse_token token = elim (split_three token) [
  | none ↦ none
  | some (p, id, secret) ↦
      if not (str_eq p prefix) || str_eq id "" || str_eq secret "" then none else some (id, secret)
]
