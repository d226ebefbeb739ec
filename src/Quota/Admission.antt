-- ===== src/Quota/Admission.antt =====
-- What the engine admits, over any sequence of calls.
use agent_gpu.Prelude.{
  ℕ, ◌≢◌, ◌∙◌, ◌+◌, ◌%◌, ◌^◌, ◌≡◌, refl, ◌<◌, ◌⊎◌, ◌↔◌, String, str_eq, eq_iff, if◌then◌else◌,
  arith, Option, none, some, List, [], ◌∷◌, Option-cases, inl, inr,
}
use agent_gpu.Store.{ApiKey, Limits, Time}
use agent_gpu.Quota.Window.{minute, window_start}
use agent_gpu.Quota.{
  Counters, CounterStore, Denial, Engine, roll, counters_at, reserve, add_tokens, get, check,
  effective_limits, check_and_reserve, check_and_reserve_global, record_tokens,
  record_global_tokens, usage, set_defaults, set_global_limits,
}
use agent_gpu.Quota.Roll.{requests_in, roll_windows, counters_at-insert}

-- A budget that is not spent; a limit of 0 stands for none.
abbrev pub Unspent : ℕ → ℕ → Type 0
Unspent limit used = (limit ≡ 0) ⊎ (used < limit)

-- The check admits a request exactly if no budget is spent.
pub check-Unspent :
    (lim : Limits) (c : Counters)
    → c.minute_requests + 1 < 2 ^ 64
    → (check lim c ≡ none) ↔ (
        Unspent lim.rpm c.minute_requests
        × Unspent lim.tpm c.minute_tokens
        × Unspent lim.daily_tokens c.day_tokens
        × Unspent lim.monthly_tokens c.month_tokens)
unfolding check
check-Unspent lim c h = (
  (λ e. (ground arith, ground arith, ground arith, ground arith)),
  (λ b. let (r, t, d, m) = b in ground arith),
)

-- A call of the engine; `tokens` stands for `RecordTokens`. The limits may be set between the requests.
pub data Call : Type 0 where
  request : ApiKey → Time → Call
  request_global : Time → Call
  tokens : String → Time → ℕ → Call
  tokens_global : Time → ℕ → Call
  look : String → Limits → Time → Call
  sets_defaults : Limits → Time → Call
  sets_global : ℕ → ℕ → Time → Call

abbrev pub time_of : Call → Time
time_of (request _ now) = now
time_of (request_global now) = now
time_of (tokens _ now _) = now
time_of (tokens_global now _) = now
time_of (look _ _ now) = now
time_of (sets_defaults _ now) = now
time_of (sets_global _ _ now) = now

unfoldable pub step : Engine → Call → Engine
step e (request key now) = (check_and_reserve key now e).0
step e (request_global now) = (check_and_reserve_global now e).0
step e (tokens id now n) = record_tokens id now n e
step e (tokens_global now n) = record_global_tokens now n e
step e (look id lim now) = (usage id lim now e).0
step e (sets_defaults d now) = set_defaults d e
step e (sets_global rpm tpm now) = set_global_limits rpm tpm e

abbrev pub counted : Option Denial → ℕ
counted none = 1
counted (some _) = 0

-- The requests of the key that the call admits: one or none.
unfoldable pub admits : String → Engine → Call → ℕ
admits id e (request key now) =
    if str_eq key.id id then counted (check_and_reserve key now e).1 else 0
admits id e _ = 0

unfoldable pub admitted : String → Engine → List Call → ℕ
admitted id e [] = 0
admitted id e (c ∷ cs) = admits id e c + admitted id (step e c) cs

-- The requests that the store has for a key in the minute given.
abbrev pub requests_of : String → Time → CounterStore → ℕ
requests_of id ms m = requests_in ms (counters_at id m)

pub requests_in-roll :
    (ms now : Time) (c : Counters)
    → window_start minute now ≡ ms
    → ((roll now c).minute_start ≡ ms) × ((roll now c).minute_requests ≡ requests_in ms c)
unfolding requests_in
requests_in-roll ms now c e =
    let (a, b, d, r, t1, t2, t3) = roll_windows now c in (a ∙ e, ground arith)

abbrev pub bump : Option Denial → ℕ → ℕ
bump none n = (n + 1) % 2 ^ 64
bump (some _) n = n

pub reserve-requests :
    (id asked : String) (ms now : Time) (chk : Counters → Option Denial) (m : CounterStore)
    → window_start minute now ≡ ms
    → requests_of asked ms (reserve id now chk m).0 ≡ (
        if str_eq id asked
        then bump (reserve id now chk m).1 (requests_of id ms m)
        else requests_of asked ms m)
unfolding reserve requests_in
reserve-requests id asked ms now chk m e =
    let (s, r) = requests_in-roll ms now (counters_at id m) e in
    elim (Option-cases (chk (roll now (counters_at id m)))) [
      | inl n ↦ rw (n, counters_at-insert id asked _ m) (ground arith)
      | inr (d, n) ↦ rw (n, counters_at-insert id asked _ m) (ground arith)
    ]

pub reserve-check :
    (id : String) (now : Time) (chk : Counters → Option Denial) (m : CounterStore)
    → (reserve id now chk m).1 ≡ chk (roll now (counters_at id m))
unfolding reserve
reserve-check id now chk m = elim (Option-cases (chk (roll now (counters_at id m)))) [
  | inl n ↦ rw n refl
  | inr (d, n) ↦ rw n refl
]

pub add_tokens-requests :
    (id asked : String) (ms now : Time) (n : ℕ) (m : CounterStore)
    → window_start minute now ≡ ms
    → requests_of asked ms (add_tokens id now n m) ≡ requests_of asked ms m
unfolding add_tokens requests_in
add_tokens-requests id asked ms now n m e =
    let (s, r) = requests_in-roll ms now (counters_at id m) e in
    rw (counters_at-insert id asked _ m) (ground (arith, eq_iff id asked))

pub get-requests :
    (id asked : String) (ms now : Time) (m : CounterStore)
    → window_start minute now ≡ ms
    → requests_of asked ms (get id now m).0 ≡ requests_of asked ms m
unfolding get requests_in
get-requests id asked ms now m e =
    let (s, r) = requests_in-roll ms now (counters_at id m) e in
    rw (counters_at-insert id asked _ m) (ground (arith, eq_iff id asked))

reserve-others :
    (id other : String) (now : Time) (chk : Counters → Option Denial) (m : CounterStore)
    → other ≢ id
    → counters_at other (reserve id now chk m).0 ≡ counters_at other m
unfolding reserve
reserve-others id other now chk m apart = elim (Option-cases (chk (roll now (counters_at id m)))) [
  | inl n ↦ rw (n, counters_at-insert id other _ m) (ground (arith, eq_iff id other))
  | inr (d, n) ↦ rw (n, counters_at-insert id other _ m) (ground (arith, eq_iff id other))
]

-- A request is admitted exactly if no budget of its key is spent in the windows of the time; an
-- admitted one is counted, a denied one is not, and no other key's counters change. The count of the
-- requests must not be about to wrap.
pub check_and_reserve-Unspent :
    (key : ApiKey) (now : Time) (e : Engine)
    → (roll now (counters_at key.id e.counters)).minute_requests + 1 < 2 ^ 64
    → ((check_and_reserve key now e).1 ≡ none ↔ (
        Unspent
          (effective_limits key e).rpm
          (roll now (counters_at key.id e.counters)).minute_requests
        × Unspent
            (effective_limits key e).tpm
            (roll now (counters_at key.id e.counters)).minute_tokens
        × Unspent
            (effective_limits key e).daily_tokens
            (roll now (counters_at key.id e.counters)).day_tokens
        × Unspent
            (effective_limits key e).monthly_tokens
            (roll now (counters_at key.id e.counters)).month_tokens))
      × (requests_of key.id (window_start minute now) (check_and_reserve key now e).0.counters
          ≡ bump
              (check_and_reserve key now e).1
              (requests_of key.id (window_start minute now) e.counters))
      × ((other : String)
          → other ≢ key.id
          → counters_at other (check_and_reserve key now e).0.counters
            ≡ counters_at other e.counters)
unfolding check_and_reserve
check_and_reserve-Unspent key now e h =
    let lim = effective_limits key e in
    let c = roll now (counters_at key.id e.counters) in
    (
      rw (reserve-check key.id now (check lim) e.counters) (check-Unspent lim c h),
      ground (
        arith,
        eq_iff key.id key.id,
        reserve-requests key.id key.id (window_start minute now) now (check lim) e.counters refl,
      ),
      λ other apart. reserve-others key.id other now (check lim) e.counters apart,
    )
