-- ===== src/HttpApi/Idempotency/Response.antt =====
-- The recorder of internal/httpapi/idempotency.go, over the response writer of net/http: the first
-- status that is not informational counts, and a write without one sends 200.
use agent_gpu.Prelude.{
  ℕ, leb, ◌==◌, ◌≡◌, refl, ap, ◌∙◌, String, str_append, Bool, true, false, not, ◌&&◌, Option, none,
  some, or_default, List, [], ◌∷◌, All, if◌then◌else◌,
}

-- What a handler does with its writer.
pub data Action : Type 0 where
  write_header : ℕ → Action
  write : String → Action

-- The writer of net/http: the status, and what was written after it.
pub record Writer : Type 0 where
  pub status : Option ℕ
  pub body : String

abbrev pub is_informational : ℕ → Bool
is_informational status = leb 100 status && leb status 199 && not (status == 101)

abbrev pub new_writer : Writer
new_writer = record { status = none; body = "" }

-- net/http, the first status wins
unfoldable pub perform : Action → Writer → Writer
perform (write_header status) w =
    if is_informational status then w else record w { status = some (or_default status w.status) }
perform (write b) w = record { status = some (or_default 200 w.status); body = str_append w.body b }

unfoldable pub perform_all : List Action → Writer → Writer
perform_all [] w = w
perform_all (a ∷ actions) w = perform_all actions (perform a w)

pub record Recorder : Type 0 where
  pub writer : Writer
  pub status : ℕ
  pub buf : String
  pub wrote_header : Bool

unfoldable pub new_recorder : Writer → Recorder
new_recorder w = record { writer = w; status = 200; buf = ""; wrote_header = false }

unfoldable pub record_header : ℕ → Recorder → Recorder
record_header status r = if r.wrote_header then r else record r {
  status = status;
  wrote_header = true;
  writer = perform (write_header status) r.writer;
}

unfoldable pub record_write : String → Recorder → Recorder
record_write b r =
    let ready = if not r.wrote_header then record_header 200 r else r in
    record ready { buf = str_append ready.buf b; writer = perform (write b) ready.writer }

unfoldable pub record_action : Action → Recorder → Recorder
record_action (write_header status) r = record_header status r
record_action (write b) r = record_write b r

unfoldable pub record_all : List Action → Recorder → Recorder
record_all [] r = r
record_all (a ∷ actions) r = record_all actions (record_action a r)

-- net/http drops the body of a status that has none.
abbrev pub allows_body : ℕ → Bool
allows_body status =
    not (leb 100 status && leb status 199) && not (status == 204) && not (status == 304)

abbrev pub on_wire : ℕ × String → ℕ × String
on_wire (status, body) = (status, if allows_body status then body else "")

-- What was written, and the response that the client has of it when the handler is done.
abbrev pub written : Writer → ℕ × String
written w = (or_default 200 w.status, w.body)

abbrev pub sent : Writer → ℕ × String
sent w = on_wire (written w)

-- The handler sends no informational status.
abbrev pub IsFinal : Action → Type 0
IsFinal (write_header status) = is_informational status ≡ false
IsFinal (write b) = Unit {0}

is_set : Option ℕ → Bool
is_set none = false
is_set (some status) = true

-- The recorder in front of a writer, when it has seen all that was sent.
tracked : Writer → Recorder
unfolding is_set
tracked w = record {
  writer = w;
  status = or_default 200 w.status;
  buf = w.body;
  wrote_header = is_set w.status;
}

record_action-tracked :
    (a : Action) (status : Option ℕ) (body : String)
    → IsFinal a
    → let w : Writer = record { status = status; body = body } in
      record_action a (tracked w) ≡ tracked (perform a w)
unfolding perform record_action record_header record_write tracked is_set
record_action-tracked (write_header n) none body f = rw f refl
record_action-tracked (write_header n) (some old) body f = rw f refl
record_action-tracked (write b) none body f = refl
record_action-tracked (write b) (some old) body f = refl

record_all-tracked :
    (actions : List Action) (w : Writer)
    → All IsFinal actions
    → record_all actions (tracked w) ≡ tracked (perform_all actions w)
unfolding record_all perform_all
record_all-tracked [] w f = refl
record_all-tracked (a ∷ actions) w f =
    ap (record_all actions) (record_action-tracked a w.status w.body f.0)
    ∙ record_all-tracked actions (perform a w) f.1

-- A handler behind the recorder sends what it would have sent without it, and the recorder then has
-- the status and all that was written, of which net/http sends the same. It must send no informational
-- status.
pub record_all-sent :
    (actions : List Action)
    → All IsFinal actions
    → let rec = record_all actions (new_recorder new_writer) in
      let w = perform_all actions new_writer in
      (rec.writer ≡ w)
      × ((rec.status, rec.buf) ≡ written w)
      × (on_wire (rec.status, rec.buf) ≡ sent w)
unfolding new_recorder tracked is_set
record_all-sent actions f =
    let e = record_all-tracked actions new_writer f in
    (
      ap (λ (r : Recorder). r.writer) e,
      ap (λ (r : Recorder). (r.status, r.buf)) e,
      ap (λ (r : Recorder). on_wire (r.status, r.buf)) e,
    )
