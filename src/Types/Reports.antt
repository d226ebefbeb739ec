-- ===== src/Types/Reports.antt =====
-- The conversions of what a worker reports: results, chunks and heartbeats (internal/types/types.go).
use agent_gpu.Prelude.{false, Option, none, some, []}
use agent_gpu.Types.{JobError, JobResult, JobChunk, Heartbeat}
use agent_gpu.Types.Wire.{
  ErrorMessage, JobResultMessage, JobChunkMessage, HeartbeatMessage, tool_calls_to_proto,
  tool_calls_from_proto, models_to_proto, models_from_proto,
}

unfoldable pub job_error_proto : Option JobError → Option ErrorMessage
job_error_proto none = none
job_error_proto (some e) = some (record { code = e.code; message = e.message })

unfoldable pub job_error_from_proto : Option ErrorMessage → Option JobError
job_error_from_proto none = none
job_error_from_proto (some p) = some (record { code = p.code; message = p.message })

unfoldable pub job_result_proto : JobResult → Option JobResultMessage
job_result_proto r = some (record {
  job_id = r.job_id;
  output = r.output;
  error = job_error_proto r.error;
  tokens = r.tokens;
  tool_calls = tool_calls_to_proto r.tool_calls;
  finish_reason = r.finish_reason;
  prompt_tokens = r.prompt_tokens;
  completion_tokens = r.completion_tokens;
})

unfoldable pub job_result_from_proto : Option JobResultMessage → JobResult
job_result_from_proto none = record {
  job_id = "";
  output = "";
  error = none;
  tokens = 0;
  tool_calls = [];
  finish_reason = "";
  prompt_tokens = 0;
  completion_tokens = 0;
}
job_result_from_proto (some p) = record {
  job_id = p.job_id;
  output = p.output;
  error = job_error_from_proto p.error;
  tokens = p.tokens;
  tool_calls = tool_calls_from_proto p.tool_calls;
  finish_reason = p.finish_reason;
  prompt_tokens = p.prompt_tokens;
  completion_tokens = p.completion_tokens;
}

unfoldable pub job_chunk_proto : JobChunk → Option JobChunkMessage
job_chunk_proto c = some (record {
  job_id = c.job_id;
  delta = c.delta;
  is_done = c.is_done;
  error = job_error_proto c.error;
  tokens = c.tokens;
  tool_calls = tool_calls_to_proto c.tool_calls;
  finish_reason = c.finish_reason;
  prompt_tokens = c.prompt_tokens;
  completion_tokens = c.completion_tokens;
})

unfoldable pub job_chunk_from_proto : Option JobChunkMessage → JobChunk
job_chunk_from_proto none = record {
  job_id = "";
  delta = "";
  is_done = false;
  error = none;
  tokens = 0;
  tool_calls = [];
  finish_reason = "";
  prompt_tokens = 0;
  completion_tokens = 0;
}
job_chunk_from_proto (some p) = record {
  job_id = p.job_id;
  delta = p.delta;
  is_done = p.is_done;
  error = job_error_from_proto p.error;
  tokens = p.tokens;
  tool_calls = tool_calls_from_proto p.tool_calls;
  finish_reason = p.finish_reason;
  prompt_tokens = p.prompt_tokens;
  completion_tokens = p.completion_tokens;
}

unfoldable pub heartbeat_proto : Heartbeat → Option HeartbeatMessage
heartbeat_proto h = some (record {
  worker_id = h.worker_id;
  active_jobs = h.active_jobs;
  total_vram_bytes = h.total_vram;
  free_vram_bytes = h.free_vram;
  load = h.load;
  gpu_type = h.gpu_type;
  available_models = models_to_proto h.available_models;
})

unfoldable pub heartbeat_from_proto : Option HeartbeatMessage → Heartbeat
heartbeat_from_proto none = record {
  worker_id = "";
  active_jobs = 0;
  total_vram = 0;
  free_vram = 0;
  load = 0;
  gpu_type = "";
  available_models = [];
}
heartbeat_from_proto (some p) = record {
  worker_id = p.worker_id;
  active_jobs = p.active_jobs;
  total_vram = p.total_vram_bytes;
  free_vram = p.free_vram_bytes;
  load = p.load;
  gpu_type = p.gpu_type;
  available_models = models_from_proto p.available_models;
}
