-- ===== src/HttpApi/Idempotency/Origin.antt =====
-- Where a replay comes from.
use agent_gpu.Prelude.{
  ℤ, ◌+◌, ◌≡◌, refl, sym, ap, ◌∙◌, ltb, leb, String, true, false, ◌&&◌, some, List, [], ◌∷◌, All,
  Entries, Entries-imp, insert-Entries, remove-Entries, lookup-Entries, ◌⊎◌, inl, inr, Bool-cases,
}
use agent_gpu.Store.{Time}
use agent_gpu.HttpApi.Idempotency.{
  CachedResponse, Cache, Request, Reply, unexpired, is_full, make_room, put, composite_key,
  new_idempotency_cache, pass_through, replay, run_recorded, idempotent,
}
use agent_gpu.HttpApi.Idempotency.Response.{
  Action, new_writer, new_recorder, record_all, record_all-sent, sent, on_wire, IsFinal,
}
use agent_gpu.HttpApi.Idempotency.Cases.{forget, idempotent-cases}
use agent_gpu.HttpApi.Idempotency.History.{Served, serve_next, run}
use agent_gpu.HttpApi.Idempotency.Keys.{IsClean, composite_key_inj}

-- Some answer of the past.
abbrev pub Any : (Request × Reply → Type 0) → List (Request × Reply) → Type 0
Any P [] = ⊥
Any P (x ∷ past) = P x ⊎ Any P past

-- The response is the one of this call, under its composite key.
abbrev Stored : String → CachedResponse → Request × Reply → Type 0
Stored key v (q, o) =
    (a : String) × (q.actor ≡ some a)
    × IsClean a q
    × (composite_key a q ≡ key)
    × (v.status ≡ o.status)
    × ((on_wire (v.status, v.body)).1 ≡ o.body)
    × (v.content_type ≡ o.content_type)

abbrev Logged : List (Request × Reply) → String → CachedResponse → Type 0
Logged past key v = Any (Stored key v) past

module _ {κ} (P : String → CachedResponse → Type κ) where
  unexpired-Entries :
      (now : Time) (m : List (String × CachedResponse)) → Entries P m → Entries P (unexpired now m)
  unfolding unexpired
  unexpired-Entries now [] h = tt
  unexpired-Entries now ((k, v) ∷ m) h = elim (Bool-cases (ltb now v.expires)) [
    | inl e ↦ rw (e, unexpired) (h.0, unexpired-Entries now m h.1)
    | inr e ↦ rw (e, unexpired) (unexpired-Entries now m h.1)
  ]

  make_room-Entries : (now : Time) (c : Cache) → Entries P c.entries → Entries P (make_room now c)
  unfolding make_room
  make_room-Entries now c h = elim (Bool-cases (is_full c c.entries)) [
    | inr e ↦ rw (e, make_room) h
    | inl e ↦ elim (Bool-cases (is_full c (unexpired now c.entries))) [
      | inl f ↦ rw (e, make_room, f) tt
      | inr f ↦ rw (e, make_room, f) (unexpired-Entries now c.entries h)
    ]
  ]

put-Logged :
    (key : String) (resp : CachedResponse) (now later : Time) (c : Cache) (event : Request × Reply)
    (past : List (Request × Reply))
    → Stored key resp event
    → Entries (Logged past) c.entries
    → Entries (Logged (event ∷ past)) (put key resp now later c).entries
unfolding put
put-Logged key resp now later c event past new h =
    insert-Entries (Logged (event ∷ past)) key (record resp { expires = now + c.ttl })
      (make_room later c) (inl new)
      (make_room-Entries (Logged (event ∷ past)) later c
        (Entries-imp (Logged past) (Logged (event ∷ past)) c.entries (λ k v. inr) h))

module _ {S : Type 0} (serve : Request → S → S × (List Action × String))
    (final : (r : Request) (s : S) → All IsFinal (serve r s).1.0) where
  abbrev LoggedAfter : Request → List (Request × Reply) → (Cache × S) × Reply → Type 0
  LoggedAfter r past ((c, s), o) = Entries (Logged ((r, o) ∷ past)) c.entries

  run_recorded-Logged :
      (a : String) (r : Request) (c : Cache) (s : S) (past : List (Request × Reply))
      → r.actor ≡ some a
      → IsClean a r
      → Entries (Logged past) c.entries
      → LoggedAfter r past (run_recorded serve (composite_key a r) r c s)
  unfolding run_recorded
  run_recorded-Logged a r c s past e k h =
      let rec = record_all (serve r s).1.0 (new_recorder new_writer) in
      let kind = (serve r s).1.1 in
      let (same, told, on) = record_all-sent (serve r s).1.0 (final r s) in
      let as_sent : on_wire (rec.status, rec.buf) ≡ sent rec.writer = on ∙ ap sent (sym same) in
      let reply : Reply = record {
        status = (sent rec.writer).0;
        body = (sent rec.writer).1;
        content_type = kind;
        is_replayed = false;
      } in
      elim (Bool-cases (leb 200 rec.status && ltb rec.status 300)) [
        | inr f ↦
            rw f (Entries-imp (Logged past) (Logged ((r, reply) ∷ past)) c.entries (λ key v. inr) h)
        | inl f ↦
            let resp : CachedResponse = record {
              status = rec.status;
              body = rec.buf;
              content_type = kind;
              expires = 0;
            } in
            rw f (
              put-Logged (composite_key a r) resp r.stored_at r.evicted_at c (r, reply) past
                (a, e, k, refl, ap (λ p. p.0) as_sent, ap (λ p. p.1) as_sent, refl) h)
      ]

  idempotent-Logged :
      (r : Request) (c : Cache) (s : S) (past : List (Request × Reply))
      → ((a : String) → r.actor ≡ some a → IsClean a r)
      → Entries (Logged past) c.entries
      → LoggedAfter r past (idempotent serve r c s)
  unfolding pass_through
  idempotent-Logged r c s past k h =
      let kept : (o : Reply) → Entries (Logged ((r, o) ∷ past)) c.entries =
        λ o. Entries-imp (Logged past) (Logged ((r, o) ∷ past)) c.entries (λ key v. inr) h in
      idempotent-cases serve (LoggedAfter r past) r c s (kept (pass_through serve r c s).1)
        (λ a cached e f g. kept (replay cached))
        (λ a e f. run_recorded-Logged a r c s past e (k a e) h)
        (λ a cached e f g.
          run_recorded-Logged a r (forget (composite_key a r) c) s past e (k a e)
            (remove-Entries (Logged past) (composite_key a r) c.entries h))

  run-Logged :
      (rs : List Request) (st : Served S)
      → All (λ r. (a : String) → r.actor ≡ some a → IsClean a r) rs
      → Entries (Logged st.past) st.cache.entries
      → Entries (Logged (run serve rs st).past) (run serve rs st).cache.entries
  unfolding run
  run-Logged [] st k h = h
  run-Logged (r ∷ rs) st k h =
      run-Logged rs (serve_next serve r st) k.1 (idempotent-Logged r st.cache st.app st.past k.0 h)

-- The answer of the past to the same call, of which the reply is a copy.
abbrev pub IsCopy : Request → Reply → Request × Reply → Type 0
IsCopy r p (q, o) =
    (q.actor ≡ r.actor)
    × (q.method ≡ r.method)
    × (q.path ≡ r.path)
    × (q.raw_key ≡ r.raw_key)
    × (o.status ≡ p.status)
    × (o.body ≡ p.body)
    × (o.content_type ≡ p.content_type)

Any-IsCopy :
    (a : String) (r : Request) (v : CachedResponse) (past : List (Request × Reply))
    → r.actor ≡ some a
    → IsClean a r
    → Any (Stored (composite_key a r) v) past
    → Any (IsCopy r (replay v)) past
unfolding replay
Any-IsCopy a r v [] e k h = absurd h
Any-IsCopy a r v ((q, o) ∷ past) e k (inr h) = inr (Any-IsCopy a r v past e k h)
Any-IsCopy a r v ((q, o) ∷ past) e k (inl (b, f, l, same, status, body, kind)) =
    let (actor, method, path, key) = composite_key_inj b a q r l k same in
    inl (f ∙ ap some actor ∙ sym e, method, path, key, sym status, sym body, sym kind)

module _ {S : Type 0} (serve : Request → S → S × (List Action × String)) where
  replayed-IsCopy :
      (r : Request) (c : Cache) (s : S) (past : List (Request × Reply))
      → ((a : String) → r.actor ≡ some a → IsClean a r)
      → Entries (Logged past) c.entries
      → let ((c', s'), reply) = idempotent serve r c s in
        reply.is_replayed ≡ true → Any (IsCopy r reply) past × (s' ≡ s)
  unfolding pass_through run_recorded
  replayed-IsCopy r c s past k h =
      idempotent-cases serve
        (λ out. out.1.is_replayed ≡ true → Any (IsCopy r out.1) past × (out.0.1 ≡ s)) r c s
        (λ g. cc g)
        (λ a cached e f live g. (
          Any-IsCopy a r cached past e (k a e)
              (lookup-Entries (Logged past) _ cached c.entries f h),
          refl,
        ))
        (λ a e f g. cc g) (λ a cached e f dead g. cc g)

  -- What a new cache and a handler's state become.
  abbrev pub served : ℤ → ℤ → S → List Request → Served S
  served ttl max s rs =
      run serve rs (record { cache = new_idempotency_cache ttl max; app = s; past = [] })

  -- A reply is marked as replayed only if it is a copy of an answer that the same actor got to a call
  -- of the same method, path and header, and the handler then does not run: whatever else was asked
  -- before. No id, method or header may have a NUL, and the handler sends no informational status.
  pub run-replayed :
      (ttl max : ℤ) (s : S) (rs : List Request) (r : Request)
      → ((q : Request) (t : S) → All IsFinal (serve q t).1.0)
      → All (λ q. (a : String) → q.actor ≡ some a → IsClean a q) (r ∷ rs)
      → (idempotent serve r (served ttl max s rs).cache (served ttl max s rs).app).1.is_replayed
        ≡ true
      → let st = served ttl max s rs in
        let ((c, t), reply) = idempotent serve r st.cache st.app in
        Any (IsCopy r reply) st.past × (t ≡ st.app)
  unfolding new_idempotency_cache
  run-replayed ttl max s rs r final k =
      let st = served ttl max s rs in
      replayed-IsCopy r st.cache st.app st.past k.0 (
        run-Logged serve final rs
          (record { cache = new_idempotency_cache ttl max; app = s; past = [] }) k.1 tt)
