-- ===== src/HttpApi/Idempotency/Bounds.antt =====
-- The size of the cache.
use agent_gpu.Prelude.{
  ℕ, ℤ, suc, ◌+◌, ◌≤◌, ◌<◌, ◌≡◌, refl, arith, pos_part, ltb, leb, length, String, ◌&&◌, List, [],
  ◌∷◌, insert, remove, Bool-cases, inl, inr,
}
use agent_gpu.Store.{Time}
use agent_gpu.HttpApi.Idempotency.{
  CachedResponse, Cache, Request, is_full, make_room, put, composite_key, pass_through,
  run_recorded, idempotent, new_idempotency_cache,
}
use agent_gpu.HttpApi.Idempotency.Response.{Action, new_writer, new_recorder, record_all}
use agent_gpu.HttpApi.Idempotency.Cases.{forget, idempotent-cases}
use agent_gpu.HttpApi.Idempotency.History.{Served, serve_next, run}

module _ {ℓ} {V : Type ℓ} where
  pub length-insert :
      (key : String) (val : V) (m : List (String × V)) → length (insert key val m) ≤ suc (length m)
  unfolding insert
  length-insert key val [] = omega arith
  length-insert key val ((k, old) ∷ m) = ground (arith, length-insert key val m)

  pub length-remove : (key : String) (m : List (String × V)) → length (remove key m) ≤ length m
  unfolding remove
  length-remove key [] = omega arith
  length-remove key ((k, old) ∷ m) = ground (arith, length-remove key m)

make_room-length :
    (n : ℕ) (now : Time) (c : Cache)
    → 0 < n
    → pos_part c.max ≡ n
    → length c.entries ≤ n
    → length (make_room now c) < n
unfolding make_room is_full
make_room-length n now c p e h = ground (arith, e, h)

-- The largest number of entries stays what it was, and there are at most so many.
abbrev Bounds : ℕ → Cache → Type 0
Bounds n c = (pos_part c.max ≡ n) × (length c.entries ≤ n)

put-Bounds :
    (n : ℕ) (key : String) (resp : CachedResponse) (now later : Time) (c : Cache)
    → 0 < n
    → Bounds n c
    → Bounds n (put key resp now later c)
unfolding put
put-Bounds n key resp now later c p h =
    let fresh : CachedResponse = record resp { expires = now + c.ttl } in
    (
      h.0,
      omega (
        arith,
        length-insert key fresh (make_room later c),
        make_room-length n later c p h.0 h.1,
      ),
    )

module _ {S : Type 0} (serve : Request → S → S × (List Action × String)) (n : ℕ) (p : 0 < n) where
  run_recorded-Bounds :
      (key : String) (r : Request) (c : Cache) (s : S)
      → Bounds n c
      → Bounds n (run_recorded serve key r c s).0.0
  unfolding run_recorded
  run_recorded-Bounds key r c s h =
      let rec = record_all (serve r s).1.0 (new_recorder new_writer) in
      elim (Bool-cases (leb 200 rec.status && ltb rec.status 300)) [
        | inl e ↦ rw e (put-Bounds n key _ r.stored_at r.evicted_at c p h)
        | inr e ↦ rw e h
      ]

  idempotent-Bounds :
      (r : Request) (c : Cache) (s : S) → Bounds n c → Bounds n (idempotent serve r c s).0.0
  unfolding pass_through
  idempotent-Bounds r c s h =
      idempotent-cases serve (λ out. Bounds n out.0.0) r c s h (λ actor cached e f g. h)
        (λ actor e f. run_recorded-Bounds (composite_key actor r) r c s h)
        (λ actor cached e f g.
          run_recorded-Bounds (composite_key actor r) r (forget (composite_key actor r) c) s
            (h.0, omega (arith, length-remove (composite_key actor r) c.entries, h.1)))

  run-Bounds :
      (rs : List Request) (st : Served S) → Bounds n st.cache → Bounds n (run serve rs st).cache
  unfolding run
  run-Bounds [] st h = h
  run-Bounds (r ∷ rs) st h =
      run-Bounds rs (serve_next serve r st) (idempotent-Bounds r st.cache st.app h)

-- Whatever is asked, a new cache never has more responses than its cap, when the cap is positive.
pub run-size :
    {S : Type 0} (serve : Request → S → S × (List Action × String)) (ttl max : ℤ) (s : S)
    (rs : List Request)
    → 0 < pos_part max
    → length
        (run serve rs
          (record { cache = new_idempotency_cache ttl max; app = s; past = [] })).cache.entries
      ≤ pos_part max
unfolding new_idempotency_cache
run-size serve ttl max s rs p =
    (run-Bounds serve (pos_part max) p rs
      (record { cache = new_idempotency_cache ttl max; app = s; past = [] }) (refl, omega arith)).1
