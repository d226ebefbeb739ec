-- ===== src/Server/Stream/Observers.antt =====
-- What the sends of a stream do to the channels of its observers, which hold 64 chunks. A send on a
-- closed channel and a second close are panics in Go.
use agent_gpu.Prelude.{
  ℕ, ◌≡◌, refl, sym, ◌∙◌, inl, inr, String, str_eq, ltb, ◌==◌, if◌then◌else◌, Bool, true, false,
  Option, none, some, List, [], ◌∷◌, ◌++◌, arith, ap, length, lookup, Bool-cases, Option-cases,
  ==_iff,
}
use agent_gpu.Types.{JobChunk, JobError}
use agent_gpu.Server.Stream.{
  Stream, Channel, Send, answers, forwards, closes, accumulate, append_delta, forward_chunk,
  fail_waiters, end_observers, fail_all_pending, failed_chunk,
}
use agent_gpu.Server.Stream.Answers.{accumulate_more}

pub record Line : Type 0 where
  pub buffer : List JobChunk
  pub is_closed : Bool

abbrev pub Lines : Type 0
Lines = Channel → Line

abbrev update : Channel → Line → Lines → Lines
update obs line lines ch = if ch == obs then line else lines ch

abbrev observer_capacity : ℕ
observer_capacity = 64

-- What one send does: `none` is a panic, and a full buffer drops the chunk.
unfoldable pub deliver : Send → Lines → Option Lines
deliver (answers ch res) lines = some lines
deliver (forwards obs chunk) lines =
    if (lines obs).is_closed
    then none
    else if ltb (length (lines obs).buffer) observer_capacity
    then some
        (update obs (record { buffer = (lines obs).buffer ++ chunk ∷ []; is_closed = false }) lines)
    else some lines
deliver (closes obs) lines =
    if (lines obs).is_closed
    then none
    else some (update obs (record { buffer = (lines obs).buffer; is_closed = true }) lines)

unfoldable pub deliver_all : List Send → Lines → Option Lines
deliver_all [] lines = some lines
deliver_all (s ∷ sent) lines = elim (deliver s lines) [ none ↦ none | some l ↦ deliver_all sent l ]

deliver_all-append :
    (xs ys : List Send) (lines : Lines)
    → deliver_all (xs ++ ys) lines
      ≡ elim (deliver_all xs lines) [ none ↦ none | some l ↦ deliver_all ys l ]
unfolding deliver_all
deliver_all-append [] ys lines = refl
deliver_all-append (s ∷ xs) ys lines = elim (Option-cases (deliver s lines)) [
  | inl e ↦ rw (e, deliver_all) refl
  | inr (l, e) ↦ rw (e, deliver_all) (deliver_all-append xs ys l)
]

-- The channel is closed, unless there was a panic.
abbrev closed_at : Channel → Option Lines → Bool
closed_at obs none = true
closed_at obs (some l) = (l obs).is_closed

-- A closed channel stays closed.
deliver-closed :
    (s : Send) (lines : Lines) (obs : Channel)
    → (lines obs).is_closed ≡ true
    → closed_at obs (deliver s lines) ≡ true
unfolding deliver
deliver-closed (answers ch res) lines obs h = h
deliver-closed (forwards other chunk) lines obs h = ground (arith, ==_iff obs other)
deliver-closed (closes other) lines obs h = ground (arith, ==_iff obs other)

deliver_all-closed :
    (sent : List Send) (lines : Lines) (obs : Channel)
    → (lines obs).is_closed ≡ true
    → closed_at obs (deliver_all sent lines) ≡ true
unfolding deliver_all
deliver_all-closed [] lines obs h = h
deliver_all-closed (s ∷ sent) lines obs h = elim (Option-cases (deliver s lines)) [
  | inl e ↦ rw (e, deliver_all) refl
  | inr (l, e) ↦
      rw (e, deliver_all)
        (deliver_all-closed sent l obs (ap (closed_at obs) (sym e) ∙ deliver-closed s lines obs h))
]

-- After its close a channel is closed.
closes-closed_at :
    (obs : Channel) (lines : Lines) → closed_at obs (deliver (closes obs) lines) ≡ true
unfolding deliver
closes-closed_at obs lines = ground (arith, ==_iff obs obs)

closes-closed :
    (obs : Channel) (sent : List Send) (lines : Lines)
    → closed_at obs (deliver_all (closes obs ∷ sent) lines) ≡ true
unfolding deliver_all
closes-closed obs sent lines = elim (Option-cases (deliver (closes obs) lines)) [
  | inl e ↦ rw (e, deliver_all) refl
  | inr (l, e) ↦
      rw (e, deliver_all)
        (deliver_all-closed sent l obs (ap (closed_at obs) (sym e) ∙ closes-closed_at obs lines))
]

step-closed :
    (s : Send) (sent : List Send) (obs : Channel)
    → ((lines : Lines) → closed_at obs (deliver_all sent lines) ≡ true)
    → (lines : Lines) → closed_at obs (deliver_all (s ∷ sent) lines) ≡ true
unfolding deliver_all
step-closed s sent obs h lines = elim (Option-cases (deliver s lines)) [
  | inl e ↦ rw (e, deliver_all) refl
  | inr (l, e) ↦ rw (e, deliver_all) (h l)
]

append-closed :
    (xs ys : List Send) (obs : Channel)
    → ((lines : Lines) → closed_at obs (deliver_all ys lines) ≡ true)
    → (lines : Lines) → closed_at obs (deliver_all (xs ++ ys) lines) ≡ true
append-closed [] ys obs h lines = h lines
append-closed (s ∷ xs) ys obs h lines =
    step-closed s (xs ++ ys) obs (append-closed xs ys obs h) lines

end_observers-closed :
    (e : JobError) (m : List (String × Channel)) (job : String) (obs : Channel)
    → lookup job m ≡ some obs
    → (lines : Lines) → closed_at obs (deliver_all (end_observers e m) lines) ≡ true
unfolding end_observers lookup
end_observers-closed e [] job obs h lines = cc
end_observers-closed e ((other, ch) ∷ m) job obs h lines = elim (Bool-cases (str_eq other job)) [
  | inl same ↦
      let found : ch ≡ obs = ground arith in
      rw found (
        step-closed (forwards obs (failed_chunk other e)) (closes obs ∷ end_observers e m) obs
          (closes-closed obs (end_observers e m)) lines)
  | inr apart ↦
      step-closed (forwards ch (failed_chunk other e)) (closes ch ∷ end_observers e m) obs
        (step-closed (closes ch) (end_observers e m) obs
          (end_observers-closed e m job obs (ground arith)))
        lines
]

forward_closed :
    (obs : Channel) (chunk : JobChunk) (l : Lines)
    → (l obs).is_closed ≡ true
    → deliver_all (forwards obs chunk ∷ []) l ≡ none
unfolding deliver_all deliver
forward_closed obs chunk l h = ground arith

forwards-panics :
    (xs : List Send) (obs : Channel) (chunk : JobChunk) (lines : Lines)
    → closed_at obs (deliver_all xs lines) ≡ true
    → deliver_all (xs ++ forwards obs chunk ∷ []) lines ≡ none
forwards-panics xs obs chunk lines h = elim (Option-cases (deliver_all xs lines)) [
  | inl e ↦ deliver_all-append xs (forwards obs chunk ∷ []) lines ∙ rw e refl
  | inr (l, e) ↦
      deliver_all-append xs (forwards obs chunk ∷ []) lines
      ∙ rw e (forward_closed obs chunk l (ap (closed_at obs) (sym e) ∙ h))
]

-- `accumulate` looks an observer up under the lock and sends to it after the lock is released. When
-- `failAllPending` comes in between, as on an eviction, it closes the channel first, and the send
-- panics, whatever the channels hold.
pub accumulate-fail_all_pending_race :
    (chunk : JobChunk) (w : Stream) (obs : Channel) (e : JobError) (lines : Lines)
    → chunk.is_done ≡ false
    → lookup chunk.job_id w.observers ≡ some obs
    → deliver_all ((fail_all_pending e (accumulate chunk w).0).1 ++ (accumulate chunk w).1) lines
      ≡ none
accumulate-fail_all_pending_race chunk w obs e lines more h = rw (accumulate_more chunk w more) (
    unfold append_delta forward_chunk fail_all_pending in
    rw h (
      forwards-panics (fail_waiters e w.pending ++ end_observers e w.observers) obs chunk lines (
        append-closed (fail_waiters e w.pending) (end_observers e w.observers) obs
          (end_observers-closed e w.observers chunk.job_id obs h) lines)))
