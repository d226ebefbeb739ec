-- ===== src/HttpApi/Idempotency/Examples.antt =====
-- A handler that makes a key and counts them.
use agent_gpu.Prelude.{
  ℕ, suc, pos, ◌≤◌, ◌≡◌, refl, sym, ap, ◌∙◌, subst, or_default, bytes, lookup, insert, arith,
  String, some, List, [], ◌∷◌, length, true, All,
}
use agent_gpu.HttpApi.Idempotency.{
  Request, Reply, idempotent, new_idempotency_cache, answer_with, get, run_recorded, replay, put,
  make_room, is_full, composite_key,
}
use agent_gpu.HttpApi.Idempotency.Response.{
  Action, write_header, write, new_writer, new_recorder, record_all, record_all-sent, perform_all,
  sent, written, on_wire, IsFinal, record_action, record_header, record_write, perform,
}
use agent_gpu.HttpApi.Idempotency.Bounds.{run-size}
use agent_gpu.HttpApi.Idempotency.Keys.{IsClean}
use agent_gpu.HttpApi.Idempotency.Origin.{Any, IsCopy, served, run-replayed}
use agent_gpu.HttpApi.Idempotency.History.{Served, run}

abbrev made : List Action
made = write_header 201 ∷ write "{" ∷ write "}" ∷ []

abbrev make : Request → ℕ → ℕ × (List Action × String)
make r n = (suc n, (made, "application/json"))

make-IsFinal : (r : Request) (n : ℕ) → All IsFinal (make r n).1.0
make-IsFinal r n = (refl, (tt, (tt, tt)))

abbrev first : Request
first = record {
  actor = some "k1";
  method = "POST";
  path = "/admin/keys";
  raw_key = "abc";
  looked_up_at = 1;
  stored_at = 2;
  evicted_at = 2;
}

abbrev retry : Request
retry = record first { looked_up_at = 5 }

IsClean-by :
    (r : Request)
    → r.actor ≡ some "k1"
    → IsClean "k1" r
    → (a : String) → r.actor ≡ some a
    → IsClean a r
IsClean-by r own k a e = subst (λ b. IsClean b r) (ap (or_default "k1") (sym own ∙ e)) k

clean : (t : ℕ) → IsClean "k1" (record first { looked_up_at = t })
clean t = record { in_actor = omega arith; in_method = omega arith; in_key = omega arith }

abbrev start : Served ℕ
start = record { cache = new_idempotency_cache (pos 60) (pos 2); app = 0; past = [] }

abbrev copy : Reply
copy = record { status = 201; body = "{}"; content_type = "application/json"; is_replayed = true }

record_all-sent_example :
    let rec = record_all made (new_recorder new_writer) in
    let w = perform_all made new_writer in
    (rec.writer ≡ w)
    × ((rec.status, rec.buf) ≡ written w)
    × (on_wire (rec.status, rec.buf) ≡ sent w)
record_all-sent_example = record_all-sent made (refl, (tt, (tt, tt)))

run-size_example : length (run make (first ∷ retry ∷ []) start).cache.entries ≤ 2
run-size_example = run-size make (pos 60) (pos 2) 0 (first ∷ retry ∷ []) (omega arith)

retry_served :
    (idempotent make retry (run make (first ∷ []) start).cache (run make (first ∷ []) start).app).1
    ≡ copy
unfolding run idempotent bytes answer_with get lookup insert new_idempotency_cache run_recorded
    replay put make_room is_full record_all new_recorder record_action record_header record_write
    perform_all perform composite_key
retry_served = refl

run-replayed_example :
    let st = served make (pos 60) (pos 2) 0 (first ∷ []) in
    let out = idempotent make retry st.cache st.app in
    Any (IsCopy retry out.1) st.past × (out.0.1 ≡ st.app)
run-replayed_example =
    run-replayed make (pos 60) (pos 2) 0 (first ∷ []) retry make-IsFinal
      (IsClean-by retry refl (clean 5), (IsClean-by first refl (clean 1), tt))
      (ap (λ (p : Reply). p.is_replayed) retry_served)
