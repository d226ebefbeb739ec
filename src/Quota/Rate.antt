-- ===== src/Quota/Rate.antt =====
-- The limit on the requests of a minute, over any sequence of calls.
use agent_gpu.Prelude.{
  ℕ, ◌+◌, ◌^◌, ◌≡◌, refl, ◌≢◌, ◌<◌, ◌≤◌, String, str_eq, eq_iff, ap, if◌then◌else◌, arith, List, [],
  ◌∷◌, Bool-cases, Option-cases, inl, inr, All,
}
use agent_gpu.Store.{ApiKey, Time}
use agent_gpu.Quota.Window.{minute, window_start}
use agent_gpu.Quota.{
  Engine, roll, counters_at, reserve, check, check_global, effective_limits, check_and_reserve,
  check_and_reserve_global, record_tokens, record_global_tokens, usage, set_defaults,
  set_global_limits, global_key_id,
}
use agent_gpu.Quota.Admission.{
  Call, request, request_global, tokens, tokens_global, look, sets_defaults, sets_global, time_of,
  step, admits, admitted, requests_of, bump, check-Unspent, reserve-requests, reserve-check,
  add_tokens-requests, get-requests, requests_in-roll,
}

-- The requests of the key with this id have a limit, of at most r.
abbrev pub Capped : String → ℕ → Engine → Call → Type 0
Capped id r e (request key now) =
    key.id ≡ id → (0 < (effective_limits key e).rpm) × ((effective_limits key e).rpm ≤ r)
Capped id r e (request_global _) = Unit {0}
Capped id r e (tokens _ _ _) = Unit {0}
Capped id r e (tokens_global _ _) = Unit {0}
Capped id r e (look _ _ _) = Unit {0}
Capped id r e (sets_defaults _ _) = Unit {0}
Capped id r e (sets_global _ _ _) = Unit {0}

-- What a call does to the count of a key: it adds what it admits, and stays within the limit.
abbrev Adds : String → Time → ℕ → Engine → Call → Type 0
Adds id ms r e c =
    (requests_of id ms (step e c).counters ≡ requests_of id ms e.counters + admits id e c)
    × (requests_of id ms (step e c).counters ≤ r)

request-Adds :
    (id : String) (ms : Time) (r : ℕ) (e : Engine) (key : ApiKey) (now : Time)
    → window_start minute now ≡ ms
    → r + 1 < 2 ^ 64
    → Capped id r e (request key now)
    → requests_of id ms e.counters ≤ r
    → Adds id ms r e (request key now)
unfolding step admits check_and_reserve
request-Adds id ms r e key now w big cap h =
    let lim = effective_limits key e in
    let (s, q) = requests_in-roll ms now (counters_at key.id e.counters) w in
    let chk = check lim (roll now (counters_at key.id e.counters)) in
    let next : requests_of id ms (reserve key.id now (check lim) e.counters).0 ≡ (
        if str_eq key.id id
        then bump chk (requests_of key.id ms e.counters)
        else requests_of id ms e.counters) =
      rw
        (
          reserve-requests key.id id ms now (check lim) e.counters w,
          reserve-check key.id now (check lim) e.counters,
        )
        refl in
    let verdict = reserve-check key.id now (check lim) e.counters in
    elim (Bool-cases (str_eq key.id id)) [
      | inl same ↦
          let at : key.id ≡ id = (eq_iff key.id id).0 same in
          let moved = ap (λ x. requests_of x ms e.counters) at in
          elim (Option-cases chk) [
            | inl n ↦
                let fits =
                  (check-Unspent lim (roll now (counters_at key.id e.counters)) (omega arith)).0
                    n in
                let (low, high) = cap at in
                let below : requests_of id ms e.counters < lim.rpm = ground (arith, fits.0) in
                rw (next, verdict, same, n) (omega arith, omega arith)
            | inr (d, n) ↦ rw (next, verdict, same, n) (omega arith, omega arith)
          ]
      | inr other ↦ rw (next, other) (omega arith, h)
    ]

step-Adds :
    (id : String) (ms : Time) (r : ℕ) (e : Engine) (c : Call)
    → id ≢ global_key_id
    → window_start minute (time_of c) ≡ ms
    → r + 1 < 2 ^ 64
    → Capped id r e c
    → requests_of id ms e.counters ≤ r
    → Adds id ms r e c
unfolding step admits check_and_reserve_global record_tokens record_global_tokens usage set_defaults
    set_global_limits
step-Adds id ms r e (request key now) apart w big cap h = request-Adds id ms r e key now w big cap h
step-Adds id ms r e (request_global now) apart w big cap h = ground (
  arith,
  eq_iff global_key_id id,
  reserve-requests global_key_id id ms now (check_global e.global) e.counters w,
)
step-Adds id ms r e (tokens other now n) apart w big cap h =
    ground (arith, add_tokens-requests other id ms now n e.counters w)
step-Adds id ms r e (tokens_global now n) apart w big cap h =
    ground (arith, add_tokens-requests global_key_id id ms now n e.counters w)
step-Adds id ms r e (look other lim now) apart w big cap h =
    ground (arith, get-requests other id ms now e.counters w)
step-Adds id ms r e (sets_defaults d now) apart w big cap h = (omega arith, h)
step-Adds id ms r e (sets_global rpm tpm now) apart w big cap h = (omega arith, h)

-- The same at each call of a history.
abbrev pub AllCapped : String → ℕ → Engine → List Call → Type 0
AllCapped id r e [] = Unit {0}
AllCapped id r e (c ∷ cs) = Capped id r e c × AllCapped id r (step e c) cs

unfoldable pub run : Engine → List Call → Engine
run e [] = e
run e (c ∷ cs) = run (step e c) cs

-- Over any calls of one minute, whatever they are and of whatever keys, changes of the limits among
-- them, a key that has a limit of at most r requests at each of its requests gets no more than r
-- admitted: the store counts each of them, and the count stays within r. It is within r at the
-- beginning, r is below the last number of 64 bits, and the key is not the one that the global limit
-- is counted under.
pub run-admitted :
    (id : String) (ms : Time) (r : ℕ) (e : Engine) (cs : List Call)
    → id ≢ global_key_id
    → r + 1 < 2 ^ 64
    → All (λ c. window_start minute (time_of c) ≡ ms) cs
    → AllCapped id r e cs
    → requests_of id ms e.counters ≤ r
    → (requests_of id ms (run e cs).counters ≡ requests_of id ms e.counters + admitted id e cs)
      × (requests_of id ms (run e cs).counters ≤ r)
unfolding run admitted
run-admitted id ms r e [] apart big w cap h = (omega arith, h)
run-admitted id ms r e (c ∷ cs) apart big w cap h =
    let (adds, within) = step-Adds id ms r e c apart w.0 big cap.0 h in
    let (total, rest) = run-admitted id ms r (step e c) cs apart big w.1 cap.1 within in
    (omega arith, rest)
