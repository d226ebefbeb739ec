-- ===== src/Quota/Minutes.antt =====
-- The minute that the counters of the server are in, over any calls of internal/quota/engine.go.
use agent_gpu.Prelude.{
  ℕ, ap, ◌∙◌, insert, ◌≡◌, ◌≢◌, arith, String, str_eq, if◌then◌else◌, List, [], ◌∷◌, All, Option,
  Option-cases, inl, inr,
}
use agent_gpu.Store.{Time}
use agent_gpu.Quota.Window.{minute, window_start}
use agent_gpu.Quota.{
  Counters, CounterStore, Denial, Engine, roll, counters_at, reserve, add_tokens, get,
  global_key_id, check, check_global, effective_limits, check_and_reserve, check_and_reserve_global,
  record_tokens, record_global_tokens, usage, set_defaults, set_global_limits,
}
use agent_gpu.Quota.Roll.{roll_windows, counters_at-insert}
use agent_gpu.Quota.Admission.{
  Call, request, request_global, tokens, tokens_global, look, sets_defaults, sets_global, time_of,
  step,
}
use agent_gpu.Quota.Rate.{run}

abbrev pub minute_of : String → CounterStore → Time
minute_of id m = (counters_at id m).minute_start

abbrev Moves : String → String → Time → CounterStore → CounterStore → Type 0
Moves id asked now m after =
    minute_of asked after ≡ (if str_eq id asked then window_start minute now else minute_of asked m)

module _ (id asked : String) (now : Time) (m : CounterStore) where
  insert-Moves :
      (c : Counters)
      → c.minute_start ≡ window_start minute now
      → Moves id asked now m (insert id c m)
  insert-Moves c start =
      ap (λ (x : Counters). x.minute_start) (counters_at-insert id asked c m)
      ∙ ground (arith, start)

  reserve-Moves : (chk : Counters → Option Denial) → Moves id asked now m (reserve id now chk m).0
  unfolding reserve
  reserve-Moves chk =
      let start = (roll_windows now (counters_at id m)).0 in
      elim (Option-cases (chk (roll now (counters_at id m)))) [
        | inl n ↦ rw n (insert-Moves _ start)
        | inr (d, n) ↦ rw n (insert-Moves _ start)
      ]

  add_tokens-Moves : (n : ℕ) → Moves id asked now m (add_tokens id now n m)
  unfolding add_tokens
  add_tokens-Moves n = insert-Moves _ (roll_windows now (counters_at id m)).0

  get-Moves : Moves id asked now m (get id now m).0
  unfolding get
  get-Moves = insert-Moves _ (roll_windows now (counters_at id m)).0

-- A call in another minute does not bring the counters into the minute given.
step-minute :
    (asked : String) (ms : Time) (e : Engine) (c : Call)
    → window_start minute (time_of c) ≢ ms
    → minute_of asked e.counters ≢ ms
    → minute_of asked (step e c).counters ≢ ms
unfolding step check_and_reserve check_and_reserve_global record_tokens record_global_tokens usage
    set_defaults set_global_limits
step-minute asked ms e (request key now) apart h =
    ground (arith, reserve-Moves key.id asked now e.counters (check (effective_limits key e)))
step-minute asked ms e (request_global now) apart h =
    ground (arith, reserve-Moves global_key_id asked now e.counters (check_global e.global))
step-minute asked ms e (tokens id now n) apart h =
    ground (arith, add_tokens-Moves id asked now e.counters n)
step-minute asked ms e (tokens_global now n) apart h =
    ground (arith, add_tokens-Moves global_key_id asked now e.counters n)
step-minute asked ms e (look id lim now) apart h = ground (arith, get-Moves id asked now e.counters)
step-minute asked ms e (sets_defaults d now) apart h = h
step-minute asked ms e (sets_global rpm tpm now) apart h = h

pub run-minute :
    (asked : String) (ms : Time) (e : Engine) (cs : List Call)
    → All (λ c. window_start minute (time_of c) ≢ ms) cs
    → minute_of asked e.counters ≢ ms
    → minute_of asked (run e cs).counters ≢ ms
unfolding run
run-minute asked ms e [] a h = h
run-minute asked ms e (c ∷ cs) a h =
    run-minute asked ms (step e c) cs a.1 (step-minute asked ms e c a.0 h)
