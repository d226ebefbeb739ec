-- ===== src/HttpApi/Idempotency/Cases.antt =====
-- The branches of the middleware, for a predicate on what it returns.
use agent_gpu.Prelude.{
  ◌≡◌, ltb, str_eq, String, true, false, none, some, length, bytes, ◌||◌, lookup, remove,
  Bool-cases, Option-cases, inl, inr, List,
}
use agent_gpu.HttpApi.Idempotency.{
  CachedResponse, Cache, Request, Reply, get, composite_key, pass_through, replay, run_recorded,
  answer_with, idempotent, max_idempotency_key_len,
}
use agent_gpu.HttpApi.Idempotency.Response.{Action}

abbrev pub forget : String → Cache → Cache
forget key c = record c { entries = remove key c.entries }

module _ {κ} {S : Type 0} (serve : Request → S → S × (List Action × String))
    (P : (Cache × S) × Reply → Type κ) (r : Request) (c : Cache) (s : S) where
  answer_with-cases :
      (key : String)
      → ((cached : CachedResponse)
          → lookup key c.entries ≡ some cached
          → ltb r.looked_up_at cached.expires ≡ true
          → P ((c, s), replay cached))
      → (lookup key c.entries ≡ none → P (run_recorded serve key r c s))
      → ((cached : CachedResponse)
          → lookup key c.entries ≡ some cached
          → ltb r.looked_up_at cached.expires ≡ false
          → P (run_recorded serve key r (forget key c) s))
      → P (answer_with serve key r s (get key r.looked_up_at c))
  unfolding answer_with get
  answer_with-cases key hit miss dead = elim (Option-cases (lookup key c.entries)) [
    | inl e ↦ rw (e, get) (miss e)
    | inr (cached, e) ↦ elim (Bool-cases (ltb r.looked_up_at cached.expires)) [
      | inl live ↦ rw (e, get, live) (hit cached e live)
      | inr late ↦ rw (e, get, late) (dead cached e late)
    ]
  ]

  pub idempotent-cases :
      P (pass_through serve r c s)
      → ((actor : String) (cached : CachedResponse)
          → r.actor ≡ some actor
          → lookup (composite_key actor r) c.entries ≡ some cached
          → ltb r.looked_up_at cached.expires ≡ true
          → P ((c, s), replay cached))
      → ((actor : String)
          → r.actor ≡ some actor
          → lookup (composite_key actor r) c.entries ≡ none
          → P (run_recorded serve (composite_key actor r) r c s))
      → ((actor : String) (cached : CachedResponse)
          → r.actor ≡ some actor
          → lookup (composite_key actor r) c.entries ≡ some cached
          → ltb r.looked_up_at cached.expires ≡ false
          → P (run_recorded serve (composite_key actor r) r (forget (composite_key actor r) c) s))
      → P (idempotent serve r c s)
  unfolding idempotent
  idempotent-cases pass hit miss dead =
      let skips = str_eq r.raw_key "" || ltb max_idempotency_key_len (length (bytes r.raw_key)) in
      elim (Bool-cases skips) [
        | inl e ↦ rw (e, idempotent) pass
        | inr e ↦ elim (Option-cases r.actor) [
          | inl f ↦ rw (e, idempotent, f) pass
          | inr (actor, f) ↦
              rw (e, idempotent, f)
                (answer_with-cases (composite_key actor r) (λ cached. hit actor cached f)
                  (miss actor f) (λ cached. dead actor cached f))
        ]
      ]
