-- ===== src/Types.antt =====
-- internal/types/types.go: the domain types that the parts of the server share.
pub mod Wire
pub mod Reports
pub mod RoundTrip
use agent_gpu.Prelude.{
  Bool, str_append, ℕ, ℤ, String, List, Option, none, some, str_eq, if◌then◌else◌,
}
use agent_gpu.Store.{Time}

pub record Model : Type 0 where
  pub name : String
  pub digest : String

pub record ToolCall : Type 0 where
  pub id : String
  pub kind : String  -- `Type`
  pub function_name : String
  pub arguments : String

pub record Message : Type 0 where
  pub role : String
  pub content : String
  pub tool_call_id : String
  pub name : String
  pub tool_calls : List ToolCall

pub record ToolFunction : Type 0 where
  pub name : String
  pub description : String
  pub parameters : String

pub record Tool : Type 0 where
  pub kind : String  -- `Type`
  pub function : ToolFunction

pub record Job : Type 0 where
  pub id : String
  pub model : String
  pub prompt : String
  pub messages : List Message
  pub tools : List Tool
  pub session_id : String
  pub keep_alive_seconds : ℤ

-- A structured failure of a job; a nil `*JobError` is `none`.
pub record JobError : Type 0 where
  pub code : String
  pub message : String

-- `Error`, on a pointer that may be nil.
unfoldable pub job_error_text : Option JobError → String
job_error_text none = ""
job_error_text (some e) =
    if str_eq e.code "" then e.message else str_append e.code (str_append ": " e.message)

pub record JobResult : Type 0 where
  pub job_id : String
  pub output : String
  pub error : Option JobError  -- `Err`
  pub tokens : ℕ  -- uint64
  pub tool_calls : List ToolCall
  pub finish_reason : String
  pub prompt_tokens : ℕ  -- uint64
  pub completion_tokens : ℕ  -- uint64

pub record JobChunk : Type 0 where
  pub job_id : String
  pub delta : String
  pub is_done : Bool
  pub error : Option JobError  -- `Err`
  pub tokens : ℕ  -- uint64
  pub tool_calls : List ToolCall
  pub finish_reason : String
  pub prompt_tokens : ℕ  -- uint64
  pub completion_tokens : ℕ  -- uint64

pub record Heartbeat : Type 0 where
  pub worker_id : String
  pub active_jobs : ℕ  -- uint32
  pub total_vram : ℕ  -- uint64
  pub free_vram : ℕ  -- uint64
  pub load : ℕ  -- uint32
  pub gpu_type : String
  pub available_models : List Model

pub data WorkerStatus : Type 0 where
  online draining stale : WorkerStatus

unfoldable pub status_text : WorkerStatus → String
status_text online = "online"
status_text draining = "draining"
status_text stale = "stale"

pub record Worker : Type 0 where
  pub id : String
  pub models : List Model
  pub last_seen : Time
  pub active_jobs : ℕ  -- uint32
  pub total_vram : ℕ  -- uint64
  pub free_vram : ℕ  -- uint64
  pub load : ℕ  -- uint32
  pub gpu_type : String
  pub status : WorkerStatus
  pub registered_at : Time

pub data InvalidJob : Type 0 where
  missing_id missing_model : InvalidJob

-- `none` for a job that can be dispatched.
unfoldable pub validate : Job → Option InvalidJob
validate j =
    if str_eq j.id ""
    then some missing_id
    else if str_eq j.model ""
    then some missing_model
    else none
