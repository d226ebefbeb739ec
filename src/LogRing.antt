-- ===== src/LogRing.antt =====
-- The ring buffer of log records in cmd/agentgpu/ringlog.go, over any type of records. `zero` is the
-- zero value that `make` fills the buffer with. Its mutex makes each method one step.
pub mod Reads
pub mod Newest
mod Examples
use agent_gpu.Prelude.{
  ℕ, ℤ, zero, suc, ◌+◌, ◌%◌, ◌^◌, pos_part, ◌==◌, Bool, true, false, ◌||◌, if◌then◌else◌, List, [],
  ◌∷◌, take,
}

pub record LogRing (R : Type 0) : Type 0 where
  pub buf : List R
  pub next : ℕ
  pub is_full : Bool
  pub capacity : ℕ  -- `cap`
  pub count : ℕ

-- `make([]logRecord, capacity)`
unfoldable pub blank : {R : Type 0} → R → ℕ → List R
blank z zero = []
blank z (suc n) = z ∷ blank z n

-- `r.buf[i] = rec` and `r.buf[i]`; the ring uses no index outside its buffer.
unfoldable pub set_at : {R : Type 0} → ℕ → R → List R → List R
set_at i x [] = []
set_at zero x (y ∷ ys) = x ∷ ys
set_at (suc i) x (y ∷ ys) = y ∷ set_at i x ys

unfoldable pub get_at : {R : Type 0} → R → ℕ → List R → R
get_at z i [] = z
get_at z zero (y ∷ ys) = y
get_at z (suc i) (y ∷ ys) = get_at z i ys

-- The loop of k turns from i on.
unfoldable pub collect : {R : Type 0} → (ℕ → R) → ℕ → ℕ → List R
collect f i zero = []
collect f i (suc k) = f i ∷ collect f (suc i) k

module _ {R : Type 0} where
  unfoldable pub append : R → LogRing R → LogRing R
  append x r =
      if r.capacity == 0
      then r
      else (let next = (r.next + 1) % r.capacity in
          record {
            buf = set_at r.next x r.buf;
            next = next;
            is_full = if next == 0 then true else r.is_full;
            capacity = r.capacity;
            count = r.count + 1;
          })

  unfoldable pub len : LogRing R → ℕ
  len r = if r.capacity == 0 then 0 else if r.is_full then r.capacity else r.next

  unfoldable pub count : LogRing R → ℕ
  count r = if r.capacity == 0 then 0 else r.count % 2 ^ 64

module _ {R : Type 0} (z : R) where
  unfoldable pub new_log_ring : ℤ → LogRing R
  new_log_ring n = record {
    buf = blank z (pos_part n);
    next = 0;
    is_full = false;
    capacity = pos_part n;
    count = 0;
  }

  unfoldable pub snapshot_locked : LogRing R → List R
  snapshot_locked r =
      if r.is_full
      then collect (λ i. get_at z ((r.next + i) % r.capacity) r.buf) 0 r.capacity
      else take r.next r.buf

  unfoldable pub snapshot : LogRing R → List R
  snapshot r = if r.capacity == 0 then [] else snapshot_locked r

  -- The answer has the count as a uint64.
  unfoldable pub snapshot_count : LogRing R → List R × ℕ
  snapshot_count r = if r.capacity == 0 then ([], 0) else (snapshot_locked r, r.count % 2 ^ 64)
