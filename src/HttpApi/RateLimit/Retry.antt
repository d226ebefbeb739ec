-- ===== src/HttpApi/RateLimit/Retry.antt =====
-- What the hint of a refusal promises.
use mathlib.Core.Option
use agent_gpu.Prelude.{
  List, All, ◌≢◌, ==_iff, or_default, ◌+◌, ◌-◌, ◌*◌, ◌≤◌, ◌<◌, ◌≡◌, ◌⊎◌, refl, sym, ap, ◌∙◌, arith,
  ◌==◌, ◌&&◌, false, Option, none, some, Bool-cases, Option-cases, inl, inr,
}
use agent_gpu.Store.{Time, Limits}
use agent_gpu.Quota.Window.{minute, window_reset, window_start}
use agent_gpu.Quota.{
  Counters, Denial, Engine, check_and_reserve_global, check_global, reserve, counters_at, roll,
  global_key_id,
}
use agent_gpu.Quota.Roll.{roll_windows, counters_at-insert}
use agent_gpu.Quota.Admission.{Call, time_of}
use agent_gpu.Quota.Rate.{run}
use agent_gpu.Quota.Minutes.{minute_of, run-minute}
use agent_gpu.HttpApi.RateLimit.{
  inc_global_throttled, second, seconds_until, Limiter, Refusal, after_check, rate_limit_middleware,
}

-- The hint of a refusal is at least a second, it reaches the end of the window, and no shorter one
-- does.
pub seconds_until-least :
    (reset now : Time)
    → (1 ≤ seconds_until reset now)
      × (reset ≤ now + seconds_until reset now * second)
      × ((seconds_until reset now ≡ 1) ⊎ (now + (seconds_until reset now - 1) * second < reset))
unfolding seconds_until
seconds_until-least reset now = (ground arith, ground arith, ground arith)

fresh-check_global :
    (lim : Limits) (c : Counters)
    → c.minute_requests ≡ 0
    → c.minute_tokens ≡ 0
    → check_global lim c ≡ none
unfolding check_global
fresh-check_global lim c e f = ground (arith, e, f)

-- Another minute ends before the one of a later time begins.
later-window :
    (now t : Time) → window_reset minute now ≤ t → window_start minute now ≢ window_start minute t
unfolding window_reset window_start
later-window now t h = ground (arith, h)

-- In another minute the counters start anew.
fresh-roll :
    (t : Time) (c : Counters)
    → c.minute_start ≢ window_start minute t
    → ((roll t c).minute_requests ≡ 0) × ((roll t c).minute_tokens ≡ 0)
fresh-roll t c apart =
    let (a, b, d, r, k, more, most) = roll_windows t c in
    let other : (c.minute_start == window_start minute t) ≡ false =
      ground (arith, apart, ==_iff c.minute_start (window_start minute t)) in
    (r ∙ rw other refl, k ∙ rw other refl)

-- A denial leaves the rolled counters and the limits.
denied_lem :
    (now : Time) (e : Engine) (d : Denial)
    → (check_and_reserve_global now e).1 ≡ some d
    → let e' = (check_and_reserve_global now e).0 in
      (counters_at global_key_id e'.counters ≡ roll now (counters_at global_key_id e.counters))
      × (e'.global ≡ e.global)
unfolding check_and_reserve_global reserve
denied_lem now e d h =
    let c = roll now (counters_at global_key_id e.counters) in
    elim (Bool-cases (e.global.rpm == 0 && e.global.tpm == 0)) [
      | inl f ↦ cc (rw f at h)
      | inr f ↦ elim (Option-cases (check_global e.global c)) [
        | inl g ↦ cc (rw (f, g) at h)
        | inr (d', g) ↦
            rw (f, g) (counters_at-insert global_key_id global_key_id c e.counters, refl)
      ]
    ]

admits_later :
    (t : Time) (e : Engine) (c : Counters)
    → counters_at global_key_id e.counters ≡ c
    → (roll t c).minute_requests ≡ 0
    → (roll t c).minute_tokens ≡ 0
    → (check_and_reserve_global t e).1 ≡ none
unfolding check_and_reserve_global reserve
admits_later t e c at_global r k = elim (Bool-cases (e.global.rpm == 0 && e.global.tpm == 0)) [
  | inl f ↦ rw f refl
  | inr f ↦ rw (f, at_global, fresh-check_global e.global (roll t c) r k) refl
]

module _ (at_reset at_wait : Time) (l : Limiter) where
  after_check-none :
      (out : Engine × Option Denial) → out.1 ≡ none → (after_check at_reset at_wait l out).1 ≡ none
  unfolding after_check
  after_check-none (e, none) h = refl
  after_check-none (e, some d) h = cc h

  after_check-some :
      (out : Engine × Option Denial) (refusal : Refusal)
      → (after_check at_reset at_wait l out).1 ≡ some refusal
      → ((d : Denial) × (out.1 ≡ some d))
        × ((after_check at_reset at_wait l out).0.quota ≡ some out.0)
        × (refusal.retry_after ≡ seconds_until (window_reset minute at_reset) at_wait)
  unfolding after_check inc_global_throttled
  after_check-some (e, none) refusal h = cc h
  after_check-some (e, some d) refusal h = (
    (d, refl),
    refl,
    ap (λ (o : Option Refusal). or_default 0 (Option.map (λ r. r.retry_after) o)) (sym h),
  )

window_reset_mono : (a b : Time) → a ≤ b → window_reset minute a ≤ window_reset minute b
unfolding window_reset window_start
window_reset_mono a b h = omega (arith, h)

-- The engine after a denial, and after calls in other minutes, admits once the window has ended.
denied-admits :
    (now t : Time) (e : Engine) (d : Denial) (cs : List Call)
    → (check_and_reserve_global now e).1 ≡ some d
    → window_reset minute now ≤ t
    → All (λ c. window_start minute (time_of c) ≢ window_start minute t) cs
    → (check_and_reserve_global t (run (check_and_reserve_global now e).0 cs)).1 ≡ none
denied-admits now t e d cs h k others =
    let denied = (check_and_reserve_global now e).0 in
    let start : minute_of global_key_id denied.counters ≡ window_start minute now =
      ap (λ (c : Counters). c.minute_start) (denied_lem now e d h).0
      ∙ (roll_windows now (counters_at global_key_id e.counters)).0 in
    let apart =
      run-minute global_key_id (window_start minute t) denied cs others
        (λ same. later-window now t k (sym start ∙ same)) in
    let (r, m) = fresh-roll t (counters_at global_key_id (run denied cs).counters) apart in
    admits_later t (run denied cs) (counters_at global_key_id (run denied cs).counters) refl r m

-- Other calls of the engine.
abbrev pub after_calls : List Call → Limiter → Limiter
after_calls cs l = record l { quota = Option.map (λ e. run e cs) l.quota }

without_engine :
    (now at_reset at_wait : Time) (l : Limiter)
    → l.quota ≡ none
    → (rate_limit_middleware now at_reset at_wait l).1 ≡ none
unfolding rate_limit_middleware
without_engine now at_reset at_wait l f = rw f refl

with_engine :
    (now at_reset at_wait : Time) (l : Limiter) (e : Engine)
    → l.quota ≡ some e
    → rate_limit_middleware now at_reset at_wait l
      ≡ after_check at_reset at_wait l (check_and_reserve_global now e)
unfolding rate_limit_middleware
with_engine now at_reset at_wait l e f =
    ap
      (λ (o : Option Engine). elim o [
        | none ↦ (l, none)
        | some engine ↦ after_check at_reset at_wait l (check_and_reserve_global now engine)
      ])
      f

-- A client that a refusal turned away and that comes back when the hint has passed is let through,
-- however the clock went on during the refusal, and whatever requests came, whatever tokens were
-- counted and whatever limits were set in between, when none of that is in the minute in which it
-- comes back.
pub retry-admitted :
    (now at_reset at_wait t at_reset' at_wait' : Time) (l : Limiter) (refusal : Refusal)
    (cs : List Call)
    → now ≤ at_reset
    → (rate_limit_middleware now at_reset at_wait l).1 ≡ some refusal
    → at_wait + refusal.retry_after * second ≤ t
    → All (λ c. window_start minute (time_of c) ≢ window_start minute t) cs
    → (rate_limit_middleware t at_reset' at_wait'
        (after_calls cs (rate_limit_middleware now at_reset at_wait l).0)).1
      ≡ none
retry-admitted now at_reset at_wait t at_reset' at_wait' l refusal cs h e waited others =
    elim (Option-cases l.quota) [
      | inl f ↦ cc (without_engine now at_reset at_wait l f, e)
      | inr (engine, f) ↦
          let m = with_engine now at_reset at_wait l engine f in
          let out = check_and_reserve_global now engine in
          let (denied, quota, hint) =
            after_check-some at_reset at_wait l out refusal (sym (ap (λ x. x.1) m) ∙ e) in
          let l' = after_calls cs (rate_limit_middleware now at_reset at_wait l).0 in
          let ended : window_reset minute now ≤ t = omega (
            arith,
            window_reset_mono now at_reset h,
            hint,
            waited,
            (seconds_until-least (window_reset minute at_reset) at_wait).1,
          ) in
          let now_engine : l'.quota ≡ some (run out.0 cs) =
            ap (Option.map (λ x. run x cs)) (ap (λ x. x.0.quota) m ∙ quota) in
          ap (λ x. x.1) (with_engine t at_reset' at_wait' l' (run out.0 cs) now_engine)
          ∙ after_check-none at_reset' at_wait' l' (check_and_reserve_global t (run out.0 cs))
              (denied-admits now t engine denied.0 cs denied.1 ended others)
    ]
