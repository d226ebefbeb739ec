-- ===== src/Auth/Token/RoundTrip.antt =====
-- Formatting and parsing tokens, one after the other in both orders.
use Prim.Native.Char.{code}
use Prim.Native.String.append
use text.Mathlib.TextEquality.{Char-path}
use agent_gpu.Prelude.{
  String, ◌≡◌, ap, ◌∙◌, ◌≢◌, some, arith, Avoids, str_append, eq_iff, Bool-cases, Option-cases, inl,
  inr, ◌==◌,
}
use agent_gpu.Auth.Token.{prefix, format_token, cut, parse_token}

append-underscore : (r : String) → str_append "_" r ≡ String.◌∷◌ "_" r
append-underscore r = append.cons "_" "" r ∙ ap (String.◌∷◌ "_") (append.nil r)

cut-append : (a r : String) → Avoids b'_' a → cut (str_append a (str_append "_" r)) ≡ some (a, r)
unfolding cut
cut-append String.[] r h = rw (append.nil (str_append "_" r), append-underscore r)
cut-append (String.◌∷◌ c a) r h =
    rw (append.cons c a (str_append "_" r)) (ground (arith, cut-append a r h.1, h.0))

-- What `cut` takes apart it took at an underscore.
cut-join : (s a r : String) → cut s ≡ some (a, r) → s ≡ str_append a (str_append "_" r)
unfolding cut
cut-join String.[] a r h = cc
cut-join (String.◌∷◌ c s) a r h = elim (Bool-cases (code c == b'_')) [
  | inl e ↦
      let at_end : (a ≡ "") × (r ≡ s) = ground arith in
      rw (at_end.0, at_end.1, append.nil (str_append "_" s), append-underscore s)
        (ap (λ d. String.◌∷◌ d s) (Char-path c "_" (ground arith)))
  | inr e ↦ elim (Option-cases (cut s)) [
    | inl f ↦ ground arith
    | inr ((b, q), f) ↦
        let later : (a ≡ String.◌∷◌ c b) × (r ≡ q) = ground arith in
        rw (later.0, later.1, append.cons c b (str_append "_" q))
          (ap (String.◌∷◌ c) (cut-join s b q f))
  ]
]

-- A token parses back to the id and the secret that it was made of, when neither is empty and no
-- underscore stands in the id.
pub parse_token-format_token :
    (id secret : String)
    → Avoids b'_' id
    → id ≢ ""
    → secret ≢ ""
    → parse_token (format_token id secret) ≡ some (id, secret)
unfolding parse_token format_token
parse_token-format_token id secret a h k = ground (
  arith,
  cut-append prefix (str_append id (str_append "_" secret)) (omega arith),
  cut-append id secret a,
  eq_iff prefix prefix,
  eq_iff id "",
  eq_iff secret "",
)

-- A token that parses is the one that its parts format to.
pub format_token-parse_token :
    (token id secret : String)
    → parse_token token ≡ some (id, secret)
    → format_token id secret ≡ token
unfolding parse_token format_token
format_token-parse_token token id secret h = elim (Option-cases (cut token)) [
  | inl e ↦ ground arith
  | inr ((p, r), e) ↦ elim (Option-cases (cut r)) [
    | inl f ↦ ground arith
    | inr ((b, c), f) ↦
        let parts : (p ≡ prefix) × (b ≡ id) × (c ≡ secret) = ground (arith, eq_iff p prefix) in
        cc (cut-join token p r e, cut-join r b c f, parts.0, parts.1, parts.2)
  ]
]
