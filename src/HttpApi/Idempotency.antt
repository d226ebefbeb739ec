-- ===== src/HttpApi/Idempotency.antt =====
-- internal/httpapi/idempotency.go. The cache is one for the whole server; a method under its lock is
-- one step, which takes its readings of the clock as arguments. A body is a text.
pub mod Response
pub mod Cases
pub mod History
pub mod Bounds
pub mod Keys
pub mod Origin
pub mod Replay
mod Examples
use agent_gpu.Prelude.{
  ℕ, ℤ, suc, ◌+◌, pos_part, ltb, leb, ltz, String, str_eq, str_append, bytes, length, Bool, true,
  false, not, ◌&&◌, ◌||◌, Option, none, some, List, [], ◌∷◌, lookup, insert, remove, if◌then◌else◌,
}
use agent_gpu.Store.{Time}
use Response.{
  Action, Writer, Recorder, new_writer, perform_all, new_recorder, record_all, sent, on_wire,
}

abbrev default_idempotency_ttl : Time
default_idempotency_ttl = 86400000000000

abbrev max_idempotency_key_len : ℕ
max_idempotency_key_len = 255

pub record CachedResponse : Type 0 where
  pub status : ℕ
  pub body : String
  pub content_type : String
  pub expires : Time

pub record Cache : Type 0 where
  pub entries : List (String × CachedResponse)
  pub ttl : Time
  pub max : ℤ

-- `newIdempotencyCache`: a duration that is not positive gives way to a day.
unfoldable pub new_idempotency_cache : ℤ → ℤ → Cache
new_idempotency_cache ttl max = record {
  entries = [];
  ttl = if ltb 0 (pos_part ttl) then pos_part ttl else default_idempotency_ttl;
  max = max;
}

unfoldable pub get : String → Time → Cache → Cache × Option CachedResponse
get key now c = elim (lookup key c.entries) [
  | none ↦ (c, none)
  | some r ↦
      if not (ltb now r.expires)
      then (record c { entries = remove key c.entries }, none)
      else (c, some r)
]

-- The loop of `put` that deletes what has expired.
unfoldable pub unexpired : Time → List (String × CachedResponse) → List (String × CachedResponse)
unexpired now [] = []
unexpired now ((k, v) ∷ m) =
    let rest = unexpired now m in if not (ltb now v.expires) then rest else (k, v) ∷ rest

-- `c.max > 0 && len(c.entries) >= c.max`
unfoldable pub is_full : Cache → List (String × CachedResponse) → Bool
is_full c m = ltb 0 (pos_part c.max) && leb (pos_part c.max) (length m)

unfoldable pub make_room : Time → Cache → List (String × CachedResponse)
make_room now c =
    let kept = unexpired now c.entries in
    if is_full c c.entries then (if is_full c kept then [] else kept) else c.entries

-- `put` reads the clock for the expiry of the response, and again for the eviction.
unfoldable pub put : String → CachedResponse → Time → Time → Cache → Cache
put key resp now later c =
    let fresh = record resp { expires = now + c.ttl } in
    record c { entries = insert key fresh (make_room later c) }

-- A request as the middleware sees it, with the clock at `get` and at `put`.
pub record Request : Type 0 where
  pub actor : Option String
  pub method : String
  pub path : String
  pub raw_key : String
  pub looked_up_at : Time
  pub stored_at : Time
  pub evicted_at : Time

unfoldable pub composite_key : String → Request → String
composite_key actor r = str_append actor (
    str_append "\0"
      (str_append r.method (str_append "\0" (str_append r.path (str_append "\0" r.raw_key)))))

-- What the client receives.
pub record Reply : Type 0 where
  pub status : ℕ
  pub body : String
  pub content_type : String
  pub is_replayed : Bool  -- the header `Idempotency-Replayed`

unfoldable pub replay : CachedResponse → Reply
replay cached = record {
  status = cached.status;
  body = (on_wire (cached.status, cached.body)).1;
  content_type = cached.content_type;
  is_replayed = true;
}

-- A handler over a state of its own: what it writes, and the content type that it sets.
module _ {S : Type 0} (serve : Request → S → S × (List Action × String)) where
  -- The handler without the middleware.
  unfoldable pub pass_through : Request → Cache → S → (Cache × S) × Reply
  pass_through r c s =
      let (s', (actions, kind)) = serve r s in
      let (status, body) = sent (perform_all actions new_writer) in
      ((c, s'), record { status = status; body = body; content_type = kind; is_replayed = false })

  unfoldable pub run_recorded : String → Request → Cache → S → (Cache × S) × Reply
  run_recorded key r c s =
      let (s', (actions, kind)) = serve r s in
      let rec = record_all actions (new_recorder new_writer) in
      let (status, body) = sent rec.writer in
      let resp : CachedResponse = record {
        status = rec.status;
        body = rec.buf;
        content_type = kind;
        expires = 0;
      } in
      (
        (
          if leb 200 rec.status && ltb rec.status 300
              then put key resp r.stored_at r.evicted_at c
              else c,
          s',
        ),
        record { status = status; body = body; content_type = kind; is_replayed = false },
      )

  -- What follows the look-up.
  unfoldable pub answer_with :
      String → Request → S → Cache × Option CachedResponse → (Cache × S) × Reply
  unfolding replay
  answer_with key r s (c, some cached) = ((c, s), replay cached)
  answer_with key r s (c, none) = run_recorded key r c s

  unfoldable pub idempotent : Request → Cache → S → (Cache × S) × Reply
  idempotent r c s =
      if str_eq r.raw_key "" || ltb max_idempotency_key_len (length (bytes r.raw_key))
      then pass_through r c s
      else elim r.actor [
        | none ↦ pass_through r c s
        | some actor ↦
            let key = composite_key actor r in answer_with key r s (get key r.looked_up_at c)
      ]
