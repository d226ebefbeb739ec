-- ===== src/Server/Live/Examples.antt =====
-- A stream from the fleet of two workers.
use agent_gpu.Server.Fleet.Examples.{two-IsRegistry}
use agent_gpu.Server.Affinity.Examples.{chat}
use agent_gpu.Server.Submit.Examples.{server, key}
use agent_gpu.Server.Live.{submit_authorized_job_stream}
use agent_gpu.Server.Live.Opened.{Opened, submit_authorized_job_stream-Opened}

submit_authorized_job_stream-Opened_example :
    Opened key chat 100 7 8 server (submit_authorized_job_stream key chat 100 7 8 server)
submit_authorized_job_stream-Opened_example =
    submit_authorized_job_stream-Opened key chat 100 7 8 server two-IsRegistry
