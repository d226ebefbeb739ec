-- ===== src/HttpApi/Idempotency/Replay.antt =====
-- A retry after a success.
use agent_gpu.Prelude.{
  ℕ, ◌+◌, ◌≤◌, ◌<◌, ◌≡◌, pos_part, length, str_eq, bytes, String, false, some, List, lookup,
}
use agent_gpu.Store.{Time}
use agent_gpu.HttpApi.Idempotency.{CachedResponse, Cache, Request, max_idempotency_key_len}
use agent_gpu.HttpApi.Idempotency.Response.{Action, new_writer, new_recorder, record_all}

-- A cache with a positive cap has room for so many more responses.
abbrev pub Room : ℕ → Cache → Type 0
Room n c = 0 < pos_part c.max → length c.entries + n ≤ pos_part c.max

-- The response is stored, and so many more do not displace it.
abbrev Kept : String → CachedResponse → ℕ → Cache → Type 0
Kept key v n c = (lookup key c.entries ≡ some v) × Room n c

-- A request that takes part: its header is neither empty nor too long.
abbrev pub IsKeyed : Request → Type 0
IsKeyed r = (str_eq r.raw_key "" ≡ false) × (length (bytes r.raw_key) ≤ max_idempotency_key_len)

-- What the recorder has of the actions of a handler, as it is stored.
abbrev recorded_as : List Action × String → Time → CachedResponse
recorded_as (actions, kind) expires =
    let rec = record_all actions (new_recorder new_writer) in
    record { status = rec.status; body = rec.buf; content_type = kind; expires = expires }
