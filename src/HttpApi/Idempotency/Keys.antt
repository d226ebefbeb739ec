-- ===== src/HttpApi/Idempotency/Keys.antt =====
-- The composite key tells requests apart. The path stands between two parts without NUL, so that it
-- may have one itself, as the decoded path of net/url can.
use Prim.Native.Char.{Char, code}
use mathlib.Core.Path.{ap₂}
use text.Mathlib.TextLemmas.{head-eq_of_cons-eq, tail-eq_of_cons-eq}
use Prim.Native.String.append
use agent_gpu.Prelude.{◌≡◌, refl, ap, sym, subst, ◌∙◌, String, Avoids, str_append}
use agent_gpu.HttpApi.Idempotency.{Request, composite_key}

append-nul : (r : String) → str_append "\0" r ≡ String.◌∷◌ "\0" r
append-nul r = append.cons "\0" "" r ∙ ap (String.◌∷◌ "\0") (append.nil r)

join : String → String → String
join a r = str_append a (str_append "\0" r)

join-nil : (r : String) → join "" r ≡ String.◌∷◌ "\0" r
unfolding join
join-nil r = append.nil (str_append "\0" r) ∙ append-nul r

join-cons : (c : Char) (a r : String) → join (String.◌∷◌ c a) r ≡ String.◌∷◌ c (join a r)
unfolding join
join-cons c a r = append.cons c a (str_append "\0" r)

Avoids-join : (a r : String) → Avoids 0 (join a r) → ⊥
Avoids-join String.[] r h = (subst (Avoids 0) (join-nil r) h).0 refl
Avoids-join (String.◌∷◌ c a) r h = Avoids-join a r (subst (Avoids 0) (join-cons c a r) h).1

-- A first part without NUL.
join_first : (a b r s : String) → Avoids 0 a → Avoids 0 b → join a r ≡ join b s → (a ≡ b) × (r ≡ s)
join_first String.[] String.[] r s h k e =
    (refl, tail-eq_of_cons-eq (sym (join-nil r) ∙ e ∙ join-nil s))
join_first String.[] (String.◌∷◌ d b) r s h k e =
    absurd (k.0 (ap code (sym (head-eq_of_cons-eq (sym (join-nil r) ∙ e ∙ join-cons d b s)))))
join_first (String.◌∷◌ c a) String.[] r s h k e =
    absurd (h.0 (ap code (head-eq_of_cons-eq (sym (join-cons c a r) ∙ e ∙ join-nil s))))
join_first (String.◌∷◌ c a) (String.◌∷◌ d b) r s h k e =
    let both = sym (join-cons c a r) ∙ e ∙ join-cons d b s in
    let (same, rest) = join_first a b r s h.1 k.1 (tail-eq_of_cons-eq both) in
    (ap₂ String.◌∷◌ (head-eq_of_cons-eq both) same, rest)

-- A last part without NUL.
join_last : (a b r s : String) → Avoids 0 r → Avoids 0 s → join a r ≡ join b s → (a ≡ b) × (r ≡ s)
join_last String.[] String.[] r s h k e =
    (refl, tail-eq_of_cons-eq (sym (join-nil r) ∙ e ∙ join-nil s))
join_last String.[] (String.◌∷◌ d b) r s h k e = absurd (
    Avoids-join b s
      (subst (Avoids 0) (tail-eq_of_cons-eq (sym (join-nil r) ∙ e ∙ join-cons d b s)) h))
join_last (String.◌∷◌ c a) String.[] r s h k e = absurd (
    Avoids-join a r
      (subst (Avoids 0) (tail-eq_of_cons-eq (sym (join-nil s) ∙ sym e ∙ join-cons c a r)) k))
join_last (String.◌∷◌ c a) (String.◌∷◌ d b) r s h k e =
    let both = sym (join-cons c a r) ∙ e ∙ join-cons d b s in
    let (same, rest) = join_last a b r s h k (tail-eq_of_cons-eq both) in
    (ap₂ String.◌∷◌ (head-eq_of_cons-eq both) same, rest)

-- What net/http and the ids of the keys guarantee: NUL at most in the path.
pub record IsClean (actor : String) (r : Request) : Type 0 where
  pub in_actor : Avoids 0 actor
  pub in_method : Avoids 0 r.method
  pub in_key : Avoids 0 r.raw_key

-- The same actor, method, path and header.
abbrev pub IsSameCall : String → Request → String → Request → Type 0
IsSameCall a q b r = (a ≡ b) × (q.method ≡ r.method) × (q.path ≡ r.path) × (q.raw_key ≡ r.raw_key)

pub composite_key_inj :
    (a b : String) (q r : Request)
    → IsClean a q
    → IsClean b r
    → composite_key a q ≡ composite_key b r
    → IsSameCall a q b r
unfolding composite_key join
composite_key_inj a b q r h k e =
    let (actor, e1) = join_first a b _ _ h.in_actor k.in_actor e in
    let (method, e2) = join_first q.method r.method _ _ h.in_method k.in_method e1 in
    let (path, key) = join_last q.path r.path _ _ h.in_key k.in_key e2 in (actor, method, path, key)
