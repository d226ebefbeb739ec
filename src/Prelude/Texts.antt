-- ===== src/Prelude/Texts.antt =====
-- Texts as keys: equality, membership in a list, Go's byte order, and maps from texts.
use Prim.Native.Char.{Char, code}
use Prim.Native.String.append
use Prim.Native.String.compare
use Prim.Native.String.{String, compare, ◌++◌ as str_append}
use mathlib.Core.Path.{◌≡◌, refl, ap, ap₂}
use mathlib.Core.Bool.{Bool, true, false, ◌&&◌}
use mathlib.Core.Option.{Option, none, some}
use mathlib.Core.List.{List, [], ◌∷◌}
use native.Mathlib.Omega.{arith}
use text.Mathlib.Text.{◌==◌ as str_eq, is_lt}
use text.Mathlib.TextEquality.{eq_iff, Char-path}
use text.Mathlib.TextPositions.{compare_refl}
use agent_gpu.Prelude.Tests.{if◌then◌else◌, ltb, ◌==◌}

-- Whether a text stands in a list, by a scan from the front.
unfoldable pub contains : List String → String → Bool
contains [] s = false
contains (x ∷ xs) s = if str_eq x s then true else contains xs s

module _ {ℓ} {V : Type ℓ} where
  -- A Go map keyed by texts, as an association list with one entry for a key.
  unfoldable pub lookup : String → List (String × V) → Option V
  lookup key [] = none
  lookup key ((other, val) ∷ rest) = if str_eq other key then some val else lookup key rest

  -- `m[key] = val`
  unfoldable pub insert : String → V → List (String × V) → List (String × V)
  insert key val [] = (key, val) ∷ []
  insert key val ((other, old) ∷ rest) =
      let kept = (other, old) ∷ insert key val rest in
      if str_eq other key then (key, val) ∷ rest else kept

  -- `delete(m, key)`
  unfoldable pub remove : String → List (String × V) → List (String × V)
  remove key [] = []
  remove key ((other, old) ∷ rest) =
      let left = remove key rest in if str_eq other key then left else (other, old) ∷ left

  pub lookup-insert :
      (key asked : String) (val : V) (m : List (String × V))
      → lookup asked (insert key val m) ≡ (if str_eq key asked then some val else lookup asked m)
  unfolding lookup insert
  lookup-insert key asked val [] = refl
  lookup-insert key asked val ((other, old) ∷ rest) = ground (
    arith,
    lookup-insert key asked val rest,
    eq_iff other asked,
    eq_iff other key,
    eq_iff key asked,
  )

  pub lookup-remove :
      (key asked : String) (m : List (String × V))
      → lookup asked (remove key m) ≡ (if str_eq key asked then none else lookup asked m)
  unfolding lookup remove
  lookup-remove key asked [] = ground arith
  lookup-remove key asked ((other, old) ∷ rest) =
      ground (
        arith,
        eq_iff other asked,
        eq_iff other key,
        eq_iff key asked,
        lookup-remove key asked rest,
      )

  pub lookup-insert_other :
      (key asked : String) (val : V) (m : List (String × V))
      → str_eq key asked ≡ false
      → lookup asked (insert key val m) ≡ lookup asked m
  lookup-insert_other key asked val m h = rw (lookup-insert key asked val m, h) refl

  pub lookup-insert_same :
      (key asked : String) (val : V) (m : List (String × V))
      → str_eq key asked ≡ true
      → lookup asked (insert key val m) ≡ some val
  lookup-insert_same key asked val m h = rw (lookup-insert key asked val m, h) refl

  pub lookup-remove_other :
      (key asked : String) (m : List (String × V))
      → str_eq key asked ≡ false
      → lookup asked (remove key m) ≡ lookup asked m
  lookup-remove_other key asked m h = rw (lookup-remove key asked m, h) refl

-- Go's `<` on strings.
abbrev pub str_lt : String → String → Bool
str_lt s t = is_lt (compare s t)

-- It compares the first characters, and the rests where these agree.
str_lt-cons :
    (c d : Char) (s t : String)
    → str_lt (String.◌∷◌ c s) (String.◌∷◌ d t)
      ≡ (if ltb (code c) (code d) then true else code c == code d && str_lt s t)
str_lt-cons c d s t = rw (compare.cons-cons c d s t) (ground arith)

-- The empty text comes before every other.
str_lt-nil : (d : Char) (t : String) → str_lt String.[] (String.◌∷◌ d t) ≡ true
str_lt-nil d t = ap is_lt (compare.nil-cons d t)

not-str_lt-nil : (c : Char) (s : String) → str_lt (String.◌∷◌ c s) String.[] ≡ false
not-str_lt-nil c s = ap is_lt (compare.cons-nil c s)

pub str_lt_trans : (r s t : String) → str_lt r s ≡ true → str_lt s t ≡ true → str_lt r t ≡ true
str_lt_trans String.[] String.[] t h k = k
str_lt_trans String.[] (String.◌∷◌ d s) String.[] h k = cc (not-str_lt-nil d s)
str_lt_trans String.[] (String.◌∷◌ d s) (String.◌∷◌ e t) h k = str_lt-nil e t
str_lt_trans (String.◌∷◌ c r) String.[] t h k = cc (not-str_lt-nil c r)
str_lt_trans (String.◌∷◌ c r) (String.◌∷◌ d s) String.[] h k = cc (not-str_lt-nil d s)
str_lt_trans (String.◌∷◌ c r) (String.◌∷◌ d s) (String.◌∷◌ e t) h k =
    ground
      (arith, str_lt-cons c d r s, str_lt-cons d e s t, str_lt-cons c e r t, str_lt_trans r s t)

pub str_lt_irrefl : (s : String) → str_lt s s ≡ false
str_lt_irrefl s = rw (compare_refl s) refl

-- Two texts of which neither comes first are equal.
pub str_lt_total : (s t : String) → str_lt s t ≡ false → str_lt t s ≡ false → s ≡ t
str_lt_total String.[] String.[] h k = refl
str_lt_total String.[] (String.◌∷◌ d t) h k = cc (str_lt-nil d t)
str_lt_total (String.◌∷◌ c s) String.[] h k = cc (str_lt-nil c s)
str_lt_total (String.◌∷◌ c s) (String.◌∷◌ d t) h k =
    ap₂ String.◌∷◌ (Char-path c d (ground (arith, str_lt-cons c d s t, str_lt-cons d c t s))) (
      str_lt_total s t (ground (arith, str_lt-cons c d s t, str_lt-cons d c t s))
        (ground (arith, str_lt-cons c d s t, str_lt-cons d c t s)))

pub str_append_assoc :
    (r s t : String) → str_append (str_append r s) t ≡ str_append r (str_append s t)
str_append_assoc String.[] s t = rw (append.nil s, append.nil (str_append s t)) refl
str_append_assoc (String.◌∷◌ c r) s t =
    rw (append.cons c r s, append.cons c (str_append r s) t, append.cons c r (str_append s t))
      (ap (String.◌∷◌ c) (str_append_assoc r s t))

pub str_append-nil : (s : String) → str_append s "" ≡ s
str_append-nil String.[] = append.nil ""
str_append-nil (String.◌∷◌ c s) = rw (append.cons c s "") (ap (String.◌∷◌ c) (str_append-nil s))
