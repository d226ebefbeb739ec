-- ===== src/Server/Submit/Gate.antt =====
-- The gates of `SubmitAuthorizedJob`: what a refused request leaves alone.
use agent_gpu.Prelude.{◌≡◌, refl, sym, subst, inl, inr, none, some, Option-cases}
use agent_gpu.Store.{Time, ApiKey}
use agent_gpu.Authz
use agent_gpu.Authz.{authorize, infer}
use agent_gpu.Types.{Job, InvalidJob, validate}
use agent_gpu.Quota.{Engine, Denial, check_and_reserve}
use agent_gpu.Scheduler.{priority_for_roles}
use agent_gpu.Server.Stream.{Channel}
use agent_gpu.Server.Submit.{
  Server, Submission, fails, invalid, not_permitted, quota_exceeded, submit, submit_authorized_job,
  permitted, reserved,
}

-- The counters may have moved.
abbrev pub with_quota : Engine → Server → Server
with_quota e s = record s { quota = e }

-- What an authorized submission comes to.
pub data Gated (key : ApiKey) (job : Job) (now : Time) (ch : Channel) (s : Server)
    : Server × Submission → Type 0 where
  bad_job : (e : InvalidJob) → validate job ≡ some e → Gated key job now ch s (s, fails (invalid e))
  forbidden :
      (e : Authz.Error)
      → validate job ≡ none
      → (authorize key job.model infer).0 ≡ some e
      → Gated key job now ch s (s, fails (not_permitted e))
  over_quota :
      (d : Denial)
      → validate job ≡ none
      → (authorize key job.model infer).0 ≡ none
      → (check_and_reserve key now s.quota).1 ≡ some d
      → Gated key job now ch s
          (with_quota (check_and_reserve key now s.quota).0 s, fails (quota_exceeded d))
  admitted :
      validate job ≡ none
      → (authorize key job.model infer).0 ≡ none
      → (check_and_reserve key now s.quota).1 ≡ none
      → Gated key job now ch s (
          submit job key.id
            (priority_for_roles key.roles)
            now
            ch
            (with_quota (check_and_reserve key now s.quota).0 s))

module _ (key : ApiKey) (job : Job) (now : Time) (ch : Channel) (s : Server) where
  reserved-Gated :
      validate job ≡ none
      → (authorize key job.model infer).0 ≡ none
      → Gated key job now ch s (reserved key job now ch (check_and_reserve key now s.quota) s)
  reserved-Gated v a = elim (Option-cases (check_and_reserve key now s.quota).1) [
    | inl e ↦
        subst
          (λ o.
            Gated key job now ch s
              (reserved key job now ch ((check_and_reserve key now s.quota).0, o) s))
          (sym e) (admitted v a e)
    | inr (d, e) ↦
        subst
          (λ o.
            Gated key job now ch s
              (reserved key job now ch ((check_and_reserve key now s.quota).0, o) s))
          (sym e) (over_quota d v a e)
  ]

  permitted-Gated :
      validate job ≡ none
      → Gated key job now ch s (permitted key job now ch (authorize key job.model infer).0 s)
  permitted-Gated v = elim (Option-cases (authorize key job.model infer).0) [
    | inl e ↦
        subst (λ o. Gated key job now ch s (permitted key job now ch o s)) (sym e)
          (reserved-Gated v e)
    | inr (err, e) ↦
        subst (λ o. Gated key job now ch s (permitted key job now ch o s)) (sym e)
          (forbidden err v e)
  ]

  valid_lem :
      validate job ≡ none
      → submit_authorized_job key job now ch s
        ≡ permitted key job now ch (authorize key job.model infer).0 s
  unfolding submit_authorized_job
  valid_lem e = rw (e, submit_authorized_job) refl

  invalid_lem :
      (err : InvalidJob)
      → validate job ≡ some err
      → submit_authorized_job key job now ch s ≡ (s, fails (invalid err))
  unfolding submit_authorized_job
  invalid_lem err e = rw (e, submit_authorized_job) refl

-- The gates stand in this order: an invalid job and one that the key may not run change nothing, not
-- even the counters of the quota; one beyond the quota reaches no worker, queue, session or waiter;
-- only a job that passes all three is submitted, with the priority of the key's roles.
pub submit_authorized_job-Gated :
    (key : ApiKey) (job : Job) (now : Time) (ch : Channel) (s : Server)
    → Gated key job now ch s (submit_authorized_job key job now ch s)
submit_authorized_job-Gated key job now ch s = elim (Option-cases (validate job)) [
  | inl v ↦
      subst (Gated key job now ch s) (sym (valid_lem key job now ch s v))
        (permitted-Gated key job now ch s v)
  | inr (err, e) ↦
      subst (Gated key job now ch s) (sym (invalid_lem key job now ch s err e)) (bad_job err e)
]
