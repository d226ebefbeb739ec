-- ===== src/Types/Wire.antt =====
-- The conversions of internal/types/types.go to and from the messages of proto/agentgpu/v1, whose
-- records stand here under their own names. A pointer is an option; nil and the empty slice are one list.
use agent_gpu.Prelude.{ℕ, ℤ, pos, String, Bool, Option, none, some, List, [], map}
use agent_gpu.Types.{Model, ToolCall, Message, Tool, ToolFunction, Job}

pub record ModelMessage : Type 0 where
  pub name : String
  pub digest : String

pub record ToolCallMessage : Type 0 where
  pub id : String
  pub kind : String  -- `Type`
  pub function_name : String
  pub arguments_json : String

pub record ChatMessage : Type 0 where
  pub role : String
  pub content : String
  pub tool_call_id : String
  pub name : String
  pub tool_calls : List (Option ToolCallMessage)

pub record ToolFunctionMessage : Type 0 where
  pub name : String
  pub description : String
  pub parameters_json : String

pub record ToolMessage : Type 0 where
  pub kind : String  -- `Type`
  pub function : Option ToolFunctionMessage

pub record JobMessage : Type 0 where
  pub id : String
  pub model : String
  pub prompt : String
  pub messages : List (Option ChatMessage)
  pub tools : List (Option ToolMessage)
  pub keep_alive_seconds : ℤ

pub record ErrorMessage : Type 0 where
  pub code : String
  pub message : String

pub record JobResultMessage : Type 0 where
  pub job_id : String
  pub output : String
  pub error : Option ErrorMessage
  pub tokens : ℕ
  pub tool_calls : List (Option ToolCallMessage)
  pub finish_reason : String
  pub prompt_tokens : ℕ
  pub completion_tokens : ℕ

pub record JobChunkMessage : Type 0 where
  pub job_id : String
  pub delta : String
  pub is_done : Bool
  pub error : Option ErrorMessage
  pub tokens : ℕ
  pub tool_calls : List (Option ToolCallMessage)
  pub finish_reason : String
  pub prompt_tokens : ℕ
  pub completion_tokens : ℕ

pub record HeartbeatMessage : Type 0 where
  pub worker_id : String
  pub active_jobs : ℕ
  pub total_vram_bytes : ℕ
  pub free_vram_bytes : ℕ
  pub load : ℕ
  pub gpu_type : String
  pub available_models : List (Option ModelMessage)

unfoldable pub model_proto : Model → Option ModelMessage
model_proto m = some (record { name = m.name; digest = m.digest })

unfoldable pub model_from_proto : Option ModelMessage → Model
model_from_proto none = record { name = ""; digest = "" }
model_from_proto (some p) = record { name = p.name; digest = p.digest }

unfoldable pub models_from_proto : List (Option ModelMessage) → List Model
models_from_proto ps = map model_from_proto ps

unfoldable pub models_to_proto : List Model → List (Option ModelMessage)
models_to_proto ms = map model_proto ms

unfoldable pub tool_call_proto : ToolCall → Option ToolCallMessage
tool_call_proto t = some (record {
  id = t.id;
  kind = t.kind;
  function_name = t.function_name;
  arguments_json = t.arguments;
})

unfoldable pub tool_call_from_proto : Option ToolCallMessage → ToolCall
tool_call_from_proto none = record { id = ""; kind = ""; function_name = ""; arguments = "" }
tool_call_from_proto (some p) = record {
  id = p.id;
  kind = p.kind;
  function_name = p.function_name;
  arguments = p.arguments_json;
}

unfoldable pub tool_calls_to_proto : List ToolCall → List (Option ToolCallMessage)
tool_calls_to_proto ts = map tool_call_proto ts

unfoldable pub tool_calls_from_proto : List (Option ToolCallMessage) → List ToolCall
tool_calls_from_proto ps = map tool_call_from_proto ps

unfoldable pub message_proto : Message → Option ChatMessage
message_proto m = some (record {
  role = m.role;
  content = m.content;
  tool_call_id = m.tool_call_id;
  name = m.name;
  tool_calls = tool_calls_to_proto m.tool_calls;
})

unfoldable pub message_from_proto : Option ChatMessage → Message
message_from_proto none = record {
  role = "";
  content = "";
  tool_call_id = "";
  name = "";
  tool_calls = [];
}
message_from_proto (some p) = record {
  role = p.role;
  content = p.content;
  tool_call_id = p.tool_call_id;
  name = p.name;
  tool_calls = tool_calls_from_proto p.tool_calls;
}

unfoldable pub messages_to_proto : List Message → List (Option ChatMessage)
messages_to_proto ms = map message_proto ms

unfoldable pub messages_from_proto : List (Option ChatMessage) → List Message
messages_from_proto ps = map message_from_proto ps

unfoldable pub tool_proto : Tool → Option ToolMessage
tool_proto t = some (record {
  kind = t.kind;
  function = some (record {
    name = t.function.name;
    description = t.function.description;
    parameters_json = t.function.parameters;
  });
})

-- The getters of a nil function give empty texts.
abbrev function_of : Option ToolFunctionMessage → ToolFunction
function_of none = record { name = ""; description = ""; parameters = "" }
function_of (some f) = record {
  name = f.name;
  description = f.description;
  parameters = f.parameters_json;
}

unfoldable pub tool_from_proto : Option ToolMessage → Tool
tool_from_proto none = record { kind = ""; function = function_of none }
tool_from_proto (some p) = record { kind = p.kind; function = function_of p.function }

unfoldable pub tools_to_proto : List Tool → List (Option ToolMessage)
tools_to_proto ts = map tool_proto ts

unfoldable pub tools_from_proto : List (Option ToolMessage) → List Tool
tools_from_proto ps = map tool_from_proto ps

unfoldable pub job_proto : Job → Option JobMessage
job_proto j = some (record {
  id = j.id;
  model = j.model;
  prompt = j.prompt;
  messages = messages_to_proto j.messages;
  tools = tools_to_proto j.tools;
  keep_alive_seconds = j.keep_alive_seconds;
})

unfoldable pub job_from_proto : Option JobMessage → Job
job_from_proto none = record {
  id = "";
  model = "";
  prompt = "";
  messages = [];
  tools = [];
  session_id = "";
  keep_alive_seconds = pos 0;
}
job_from_proto (some p) = record {
  id = p.id;
  model = p.model;
  prompt = p.prompt;
  messages = messages_from_proto p.messages;
  tools = tools_from_proto p.tools;
  session_id = "";
  keep_alive_seconds = p.keep_alive_seconds;
}
