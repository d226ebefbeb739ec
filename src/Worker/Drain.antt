-- ===== src/Worker/Drain.antt =====
-- A connection can always finish what it has received.
use agent_gpu.Prelude.{
  ◌+◌, ◌-◌, ◌%◌, ◌^◌, ◌≡◌, refl, sym, ap, ◌∙◌, Option, none, some, List, [], ◌∷◌, ◌++◌, append_nil,
  true,
}
use agent_gpu.Types.{Job, JobChunk}
use agent_gpu.Worker.{
  Executor, chunks_of, Sent, chunk, looping, Serving, take_job, emit, forward, send,
}
use agent_gpu.Worker.Steps.{
  Event, takes_job, emits, forwards, enabled, step, and_then, run, received, plan, sent_chunks,
  left_of, unsent, while_looping, accounted,
}
use agent_gpu.Worker.Pipeline.{run-Accounts, Accounts-some}

module _ (execute : Executor) where
  -- There are steps that receive nothing and leave nothing on its way.
  record Drains (w : Serving) : Type 0 where
    events : List Event
    after : Serving
    runs : run execute events w ≡ some after
    receives_none : received events ≡ []
    no_job : after.jobs ≡ []
    no_chunk : after.chunks ≡ []
    idle : after.running ≡ none
    looped : after.loop ≡ looping

  before_lem :
      (e : Event) (w w' : Serving)
      → w.loop ≡ looping
      → enabled execute e w ≡ some w'
      → ((events : List Event) → received (e ∷ events) ≡ received events)
      → Drains w'
      → Drains w
  before_lem e w w' alive can own d = record {
    events = e ∷ d.events;
    after = d.after;
    runs =
        unfold run in
        unfold step in
        ap (λ l. and_then (while_looping l (enabled execute e w)) (run execute d.events)) alive
        ∙ ap (λ o. and_then o (run execute d.events)) can
        ∙ d.runs;
    receives_none = own d.events ∙ d.receives_none;
    no_job = d.no_job;
    no_chunk = d.no_chunk;
    idle = d.idle;
    looped = d.looped;
  }

  -- First the chunks in the channel.
  chunks-Drains :
      (cs : List JobChunk) (w : Serving)
      → w.loop ≡ looping
      → ((sent : List Sent) → Drains (record w { chunks = []; sent = sent }))
      → Drains (record w { chunks = cs })
  chunks-Drains [] w alive k = k w.sent
  chunks-Drains (c ∷ cs) w alive k =
      before_lem (forwards true) (record w { chunks = c ∷ cs })
        (record w { chunks = cs; sent = w.sent ++ chunk c ∷ [] }) alive
        (unfold enabled in unfold forward in unfold send in refl) (λ events. refl)
        (chunks-Drains cs (record w { sent = w.sent ++ chunk c ∷ [] }) alive k)

  -- Then those of the job at hand, one after the other.
  running-Drains :
      (left : List JobChunk) (w : Serving)
      → w.loop ≡ looping
      → ((sent : List Sent)
          → Drains (record w {
            chunks = [];
            running = none;
            active_jobs = w.active_jobs - 1;
            sent = sent;
          }))
      → Drains (record w { chunks = []; running = some left })
  running-Drains [] w alive k =
      before_lem emits (record w { chunks = []; running = some [] })
        (record w { chunks = []; running = none; active_jobs = w.active_jobs - 1 }) alive
        (unfold enabled in unfold emit in refl) (λ events. refl) (k w.sent)
  running-Drains (c ∷ left) w alive k =
      before_lem emits (record w { chunks = []; running = some (c ∷ left) })
        (record w { chunks = c ∷ []; running = some left }) alive
        (unfold enabled in unfold emit in refl) (λ events. refl)
        (chunks-Drains (c ∷ []) (record w { running = some left }) alive
          (λ sent. running-Drains left (record w { sent = sent }) alive k))

  -- Then the jobs that wait.
  jobs-Drains :
      (jobs : List Job) (w : Serving)
      → w.loop ≡ looping
      → Drains (record w { chunks = []; running = none; jobs = jobs })
  jobs-Drains [] w alive = record {
    events = [];
    after = record w { chunks = []; running = none; jobs = [] };
    runs = unfold run in refl;
    receives_none = refl;
    no_job = refl;
    no_chunk = refl;
    idle = refl;
    looped = alive;
  }
  jobs-Drains (job ∷ jobs) w alive =
      let active = (w.active_jobs + 1) % 2 ^ 32 in
      let left = chunks_of execute job in
      let next = record w { chunks = []; running = some left; jobs = jobs; active_jobs = active } in
      before_lem takes_job (record w { chunks = []; running = none; jobs = job ∷ jobs }) next alive
        (unfold enabled in unfold take_job in refl) (λ events. refl)
        (running-Drains left next alive
          (λ sent. jobs-Drains jobs (record w { active_jobs = active - 1; sent = sent }) alive))

  serving-Drains :
      (running : Option (List JobChunk)) (w : Serving)
      → w.loop ≡ looping
      → Drains (record w { running = running })
  serving-Drains none w alive =
      chunks-Drains w.chunks (record w { running = none }) alive
        (λ sent. jobs-Drains w.jobs (record w { sent = sent }) alive)
  serving-Drains (some left) w alive =
      chunks-Drains w.chunks (record w { running = some left }) alive
        (λ sent.
          running-Drains left (record w { sent = sent }) alive
            (λ more.
              jobs-Drains w.jobs (record w { active_jobs = w.active_jobs - 1; sent = more }) alive))

  settled :
      (w : Serving)
      → w.loop ≡ looping
      → w.jobs ≡ []
      → w.chunks ≡ []
      → w.running ≡ none
      → accounted execute w ≡ sent_chunks w.sent
  settled w alive jobs chunks running =
      ap
        (λ l.
          sent_chunks w.sent
          ++ (unsent l ++ (w.chunks ++ (left_of w.running ++ plan execute w.jobs))))
        alive
      ∙ ap (λ r. sent_chunks w.sent ++ (w.chunks ++ (left_of w.running ++ plan execute r))) jobs
      ∙ ap (λ r. sent_chunks w.sent ++ (w.chunks ++ (left_of r ++ []))) running
      ∙ ap (λ r. sent_chunks w.sent ++ (r ++ [])) chunks
      ∙ append_nil (sent_chunks w.sent)

  -- From every state of a connection whose loop goes on there is a sequence of the worker's own
  -- steps, without a message from the server and without a send that fails, after which no job waits
  -- and none is at hand, the loop still goes on, and all chunks that were on the way have been sent, in
  -- their order: the goroutines cannot block one another.
  pub drain-sent :
      (w : Serving)
      → w.loop ≡ looping
      → (events : List Event) × (w' : Serving) × (received events ≡ [])
        × (run execute events w ≡ some w')
        × (w'.jobs ≡ [])
        × (w'.running ≡ none)
        × (w'.loop ≡ looping)
        × (sent_chunks w'.sent ≡ accounted execute w)
  drain-sent w alive =
      let d = serving-Drains w.running w alive in
      let kept : accounted execute d.after
          ≡ accounted execute w ++ plan execute (received d.events) =
        Accounts-some execute (run execute d.events w) d.after _ d.runs
          (run-Accounts execute d.events w) in
      (
        d.events,
        d.after,
        d.receives_none,
        d.runs,
        d.no_job,
        d.idle,
        d.looped,
        sym (settled d.after d.looped d.no_job d.no_chunk d.idle)
            ∙ kept
            ∙ ap (λ r. accounted execute w ++ plan execute r) d.receives_none
            ∙ append_nil (accounted execute w),
      )
