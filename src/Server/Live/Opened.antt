-- ===== src/Server/Live/Opened.antt =====
-- What a streaming submission comes to.
use agent_gpu.Prelude.{
  List, All, ◌≡◌, refl, sym, ap, ◌∙◌, subst, inl, inr, arith, String, ◌==◌, eq_iff, true, false,
  none, some, [], ◌∷◌, lookup, lookup-insert_same, Bool-cases, Option-cases,
}
use agent_gpu.Store.{Time, ApiKey}
use agent_gpu.Authz.{authorize, infer}
use agent_gpu.Types.{Job, JobChunk, validate}
use agent_gpu.Quota.{Engine, check_and_reserve}
use agent_gpu.Server.Stream.{Channel, forwards, accumulate, add_observer, add_pending}
use agent_gpu.Server.Stream.Answers.{Call, run}
use agent_gpu.Server.Stream.Watched.{Watches, accumulate-forwards}
use agent_gpu.Server.Fleet.{Handle, model_served}
use agent_gpu.Server.Submit.{Server, dispatch}
use agent_gpu.Server.Submit.Outcome.{kept_warm, preferred_of}
use agent_gpu.Server.Live.{
  Opening, refused, streaming, observe, open_stream, stream_admitted, stream_reserved,
  stream_permitted, submit_authorized_job_stream,
}
use agent_gpu.Server.Fleet.Pick.{IsPick, pick_worker-IsPick}
use agent_gpu.Server.Fleet.Valid.{IsRegistry}

open_stream-ready :
    (key : String) (h : Handle) (job : Job) (preferred : String) (now : Time) (ch obs : Channel)
    (s : Server)
    → let w = (open_stream key h job preferred now ch obs s).registry.heap h in
      (lookup job.id w.observers ≡ some obs) × (lookup job.id w.pending ≡ some ch)
unfolding open_stream observe dispatch add_observer add_pending
open_stream-ready key h job preferred now ch obs s =
    let e : (h == h) ≡ true = ground arith in
    rw e (
      lookup-insert_same job.id job.id obs (s.registry.heap h).observers
          ((eq_iff job.id job.id).1 refl),
      lookup-insert_same job.id job.id ch (s.registry.heap h).pending
          ((eq_iff job.id job.id).1 refl),
    )

-- The gates, and the worker with the channels of the job.
pub record Streams (key : ApiKey) (job : Job) (now : Time) (ch obs : Channel) (s after : Server)
    (h : Handle) : Type 0 where
  pub valid : validate job ≡ none
  pub allowed : (authorize key job.model infer).0 ≡ none
  pub in_quota : (check_and_reserve key now s.quota).1 ≡ none
  pub picked : IsPick now s.registry job.model (preferred_of job key.id now s) h
  pub answered_on : lookup job.id (after.registry.heap h).pending ≡ some ch
  pub forwarded :
      (cs : List Call) (chunk : JobChunk)
      → All (Watches job.id) cs
      → chunk.job_id ≡ job.id
      → chunk.is_done ≡ false
      → (accumulate chunk (run cs (after.registry.heap h))).1 ≡ forwards obs chunk ∷ []

-- A refusal leaves all but the counters of the quota as it was.
abbrev pub Opened : ApiKey → Job → Time → Channel → Channel → Server → Server × Opening → Type 0
Opened key job now ch obs s (after, refused e) = after ≡ record s { quota = after.quota }
Opened key job now ch obs s (after, streaming h sent) =
    (sent ≡ kept_warm job key.id now s) × Streams key job now ch obs s after h

module _ (key : ApiKey) (job : Job) (now : Time) (ch obs : Channel) (s : Server) where
  admitted-Opened :
      (e : Engine)
      → IsRegistry s.registry
      → validate job ≡ none
      → (authorize key job.model infer).0 ≡ none
      → (check_and_reserve key now s.quota).1 ≡ none
      → Opened key job now ch obs s (stream_admitted key.id job now ch obs (record s { quota = e }))
  unfolding stream_admitted
  admitted-Opened e v valid allowed in_quota =
      let preferred = preferred_of job key.id now s in
      let warm = kept_warm job key.id now s in
      let start = record s { quota = e } in
      elim (pick_worker-IsPick job.model preferred now s.registry v) [
        | inl (n, idle) ↦ elim (Bool-cases (model_served job.model now s.registry)) [
          | inl f ↦ rw (n, stream_admitted, f) refl
          | inr f ↦ rw (n, stream_admitted, f) refl
        ]
        | inr (h, p, best) ↦
            let (observed, pending) = open_stream-ready key.id h warm preferred now ch obs start in
            rw (p, stream_admitted)
              (
                refl,
                record {
                  valid = valid;
                  allowed = allowed;
                  in_quota = in_quota;
                  picked = best;
                  answered_on = pending;
                  forwarded = λ cs chunk watched same more.
                      accumulate-forwards chunk obs cs
                        ((open_stream key.id h warm preferred now ch obs start).registry.heap h)
                        (ap
                            (λ id.
                              lookup id
                                ((open_stream key.id h warm preferred now ch obs
                                    start).registry.heap
                                  h).observers)
                            same
                          ∙ observed)
                        (subst (λ id. All (Watches id) cs) (sym same) watched) more;
                },
              )
      ]

  reserved-Opened :
      IsRegistry s.registry
      → validate job ≡ none
      → (authorize key job.model infer).0 ≡ none
      → Opened key job now ch obs s
          (stream_reserved key.id job now ch obs (check_and_reserve key now s.quota) s)
  reserved-Opened v valid allowed =
      let (e, r) = check_and_reserve key now s.quota in
      elim (Option-cases (check_and_reserve key now s.quota).1) [
        | inl free ↦
            subst
              (λ o. Opened key job now ch obs s (stream_reserved key.id job now ch obs (e, o) s))
              (sym free) (admitted-Opened e v valid allowed free)
        | inr (d, over) ↦
            subst
              (λ o. Opened key job now ch obs s (stream_reserved key.id job now ch obs (e, o) s))
              (sym over) refl
      ]

  -- A streaming submission is either refused, and then nothing but the counters of the quota changed;
  -- or all its gates let it through, in the order validity, permission, quota, the best worker that
  -- can run the model was picked for it, and that worker's stream is ready: the caller's channel waits
  -- for the answer, and each chunk before the last one that comes in for the job is tried on the
  -- observer's channel and on no other, which takes it if it has room. That is so from the first chunk
  -- on, after any calls on the stream that neither end the job nor take its observer away, and while
  -- the stream is not dropped. The registry must be well-formed.
  pub submit_authorized_job_stream-Opened :
      IsRegistry s.registry
      → Opened key job now ch obs s (submit_authorized_job_stream key job now ch obs s)
  unfolding submit_authorized_job_stream
  submit_authorized_job_stream-Opened v = elim (Option-cases (validate job)) [
    | inr (e, bad) ↦ rw (bad, submit_authorized_job_stream) refl
    | inl valid ↦
        rw (valid, submit_authorized_job_stream)
          (elim (Option-cases (authorize key job.model infer).0) [
            | inr (e, denied) ↦
                subst (λ o. Opened key job now ch obs s (stream_permitted key job now ch obs o s))
                  (sym denied) refl
            | inl allowed ↦
                subst (λ o. Opened key job now ch obs s (stream_permitted key job now ch obs o s))
                  (sym allowed) (reserved-Opened v valid allowed)
          ])
  ]
