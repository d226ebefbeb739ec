-- ===== src/Authz/Ladder.antt =====
-- The decision ladder against the permission matrix of the package documentation.
use agent_gpu.Prelude.{
  String, ◌≡◌, refl, ◌≢◌, ◌↔◌, ◌⊎◌, inl, inr, true, false, ◌&&◌, none, some, List, arith, Mem,
  contains, contains→mem, mem→contains, Bool-cases,
}
use agent_gpu.Store.{ApiKey}
use agent_gpu.Authz.{
  Action, pull, load, infer, other, is_pull_or_load, role_admin, role_user, role_read_only, decide,
  authorize, forbidden, info, warn, op,
}

-- Who may do what: the admin everything, the other roles what they grant on the models that the
-- key lists, the reading role never a pull or a load, and nobody anything on a denied model.
pub data IsPermitted (key : ApiKey) (model : String) (action : Action) : Type 0 where
  by_admin : ¬ Mem model key.deny_models → Mem role_admin key.roles → IsPermitted key model action
  by_user :
      ¬ Mem model key.deny_models
      → Mem model key.allow_models
      → Mem role_user key.roles
      → ¬ (Mem role_read_only key.roles × (is_pull_or_load action ≡ true))
      → IsPermitted key model action
  by_read_only :
      ¬ Mem model key.deny_models
      → Mem model key.allow_models
      → Mem role_read_only key.roles
      → action ≢ pull
      → action ≢ load
      → IsPermitted key model action

not-contains : (xs : List String) (s : String) → contains xs s ≡ false → ¬ Mem s xs
not-contains xs s h m = cc (mem→contains xs s m)

pub not-mem : (xs : List String) (s : String) → ¬ Mem s xs → contains xs s ≡ false
not-mem xs s h = elim (Bool-cases (contains xs s)) [
  | inl e ↦ absurd (h (contains→mem xs s e))
  | inr e ↦ e
]

is_pull_or_load-ne : (a : Action) → is_pull_or_load a ≡ false → (a ≢ pull) × (a ≢ load)
unfolding is_pull_or_load
is_pull_or_load-ne a h = ground arith

ne-is_pull_or_load : (a : Action) → a ≢ pull → a ≢ load → is_pull_or_load a ≡ false
unfolding is_pull_or_load
ne-is_pull_or_load pull h k = absurd (h refl)
ne-is_pull_or_load load h k = absurd (k refl)
ne-is_pull_or_load infer h k = refl
ne-is_pull_or_load (other n) h k = refl

module _ (key : ApiKey) (model : String) (action : Action) where
  -- The tests that an allowing decision passed.
  allowed_tests :
      (decide key model action).allowed ≡ true
      → (contains key.deny_models model ≡ false)
        × ((contains key.roles role_admin ≡ true)
            ⊎ ((contains key.allow_models model ≡ true)
                × ((contains key.roles role_read_only && is_pull_or_load action) ≡ false)
                × ((contains key.roles role_user ≡ true)
                    ⊎ (contains key.roles role_read_only ≡ true))))
  unfolding decide
  allowed_tests h = ground arith

  decide_sound : (decide key model action).allowed ≡ true → IsPermitted key model action
  decide_sound h =
      let (d, r) = allowed_tests h in
      elim r [
        | inl a ↦ by_admin (not-contains _ _ d) (contains→mem _ _ a)
        | inr (l, f, inl u) ↦
            by_user (not-contains _ _ d) (contains→mem _ _ l) (contains→mem _ _ u)
              (λ m. ground (arith, mem→contains key.roles role_read_only m.0))
        | inr (l, f, inr o) ↦
            let ne = is_pull_or_load-ne action (ground arith) in
            by_read_only (not-contains _ _ d) (contains→mem _ _ l) (contains→mem _ _ o) ne.0 ne.1
      ]

  decide_complete : IsPermitted key model action → (decide key model action).allowed ≡ true
  unfolding decide
  decide_complete (by_admin d a) =
      ground (arith, not-mem key.deny_models model d, mem→contains key.roles role_admin a)
  decide_complete (by_user d l u r) = ground (
    arith,
    not-mem key.deny_models model d,
    mem→contains key.allow_models model l,
    mem→contains key.roles role_user u,
    λ (m : contains key.roles role_read_only ≡ true) (p : is_pull_or_load action ≡ true).
        r (contains→mem key.roles role_read_only m, p),
  )
  decide_complete (by_read_only d l r p q) = ground (
    arith,
    not-mem key.deny_models model d,
    mem→contains key.allow_models model l,
    mem→contains key.roles role_read_only r,
    ne-is_pull_or_load action p q,
  )

-- A key may perform an action on a model exactly when the permission matrix grants it: then the
-- error is nil, and otherwise it is `ErrForbidden`.
pub authorize-IsPermitted :
    (key : ApiKey) (model : String) (action : Action)
    → (((authorize key model action).0 ≡ none) ↔ IsPermitted key model action)
      × (((authorize key model action).0 ≡ some forbidden) ↔ (¬ IsPermitted key model action))
unfolding authorize
authorize-IsPermitted key model action = (
  (
    λ h. decide_sound key model action (ground arith),
    λ p. ground (arith, decide_complete key model action p),
  ),
  (
    λ h p. ground (arith, decide_complete key model action p),
    λ n. elim (Bool-cases (decide key model action).allowed) [
      | inl a ↦ absurd (n (decide_sound key model action a))
      | inr r ↦ ground arith
    ],
  ),
)

-- Every decision is logged with the key, the model and the operation that it is about: a granted
-- one at the level info and a denied one at the level warn, and the granted ones are those that
-- return no error.
pub authorize_audit :
    (key : ApiKey) (model : String) (action : Action)
    → let (e, entry) = authorize key model action in
      (entry.key_id ≡ key.id)
      × (entry.model ≡ model)
      × (entry.op ≡ op action)
      × (((e ≡ none) × (entry.result ≡ "granted") × (entry.level ≡ info))
          ⊎ ((e ≡ some forbidden) × (entry.result ≡ "denied") × (entry.level ≡ warn)))
unfolding authorize
authorize_audit key model action = ground arith
