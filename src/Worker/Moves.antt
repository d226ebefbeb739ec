-- ===== src/Worker/Moves.antt =====
-- What each step does to the chunks on their way.
use agent_gpu.Prelude.{
  append_assoc, append_nil, ◌≡◌, refl, sym, ap, ◌∙◌, subst, ltb, String, Bool, true, false, Option,
  none, some, List, [], ◌∷◌, ◌++◌, length, Bool-cases, inl, inr,
}
use agent_gpu.Types.{Job, JobChunk, Model}
use agent_gpu.Worker.{
  Capacity, Executor, chunks_of, ServerMessage, dispatches, pull_model, unload_model, other, Sent,
  heartbeat, chunk, deregister, looping, returned, Serving, receive, refresh_models,
  detect_capacity, send, heartbeat_of, send_heartbeat, take_job, emit, forward, pull, unload, stop,
  drop_stream,
}
use agent_gpu.Worker.Steps.{
  Event, receives, beats, takes_job, emits, forwards, unloads, pulls, stops, drops, enabled,
  received, plan, sent_chunks, left_of, unsent, accounted,
}

sent_chunks-append : (xs ys : List Sent) → sent_chunks (xs ++ ys) ≡ sent_chunks xs ++ sent_chunks ys
sent_chunks-append [] ys = refl
sent_chunks-append (chunk c ∷ xs) ys = ap (λ r. c ∷ r) (sent_chunks-append xs ys)
sent_chunks-append (heartbeat h ∷ xs) ys = sent_chunks-append xs ys
sent_chunks-append (deregister i ∷ xs) ys = sent_chunks-append xs ys

plan-append :
    (execute : Executor) (xs ys : List Job)
    → plan execute (xs ++ ys) ≡ plan execute xs ++ plan execute ys
plan-append execute [] ys = refl
plan-append execute (x ∷ xs) ys =
    ap (λ r. chunks_of execute x ++ r) (plan-append execute xs ys)
    ∙ sym (append_assoc (chunks_of execute x) (plan execute xs) (plan execute ys))

-- What a step that is enabled leaves on its way.
abbrev pub Accounts : Executor → Option Serving → List JobChunk → Type 0
Accounts execute none expected = Unit {0}
Accounts execute (some w) expected = accounted execute w ≡ expected

module _ (execute : Executor) where
  -- A message that is not a chunk adds nothing.
  send_other :
      (m : Sent) (w : Serving)
      → sent_chunks (m ∷ []) ≡ []
      → accounted execute (send m w) ≡ accounted execute w
  unfolding send
  send_other m w e =
      ap (λ s. s ++ (unsent w.loop ++ (w.chunks ++ (left_of w.running ++ plan execute w.jobs))))
        (sent_chunks-append w.sent (m ∷ [])
          ∙ ap (λ r. sent_chunks w.sent ++ r) e
          ∙ append_nil (sent_chunks w.sent))

  -- A return of the loop that takes no chunk with it.
  returned_lem :
      (w : Serving)
      → w.loop ≡ looping
      → accounted execute (record w { loop = returned none }) ≡ accounted execute w
  returned_lem w alive =
      ap
        (λ l.
          sent_chunks w.sent
          ++ (unsent l ++ (w.chunks ++ (left_of w.running ++ plan execute w.jobs))))
        (sym alive)

  forward-Accounts :
      (delivered : Bool) (cs : List JobChunk) (w : Serving)
      → let before = record w { chunks = cs; loop = looping } in
        Accounts execute (forward delivered before) (accounted execute before)
  unfolding forward send
  forward-Accounts delivered [] w = tt
  forward-Accounts false (c ∷ cs) w = refl
  forward-Accounts true (c ∷ cs) w =
      let behind = cs ++ (left_of w.running ++ plan execute w.jobs) in
      ap (λ s. s ++ behind) (sent_chunks-append w.sent (chunk c ∷ []))
      ∙ append_assoc (sent_chunks w.sent) (c ∷ []) behind

  emit-Accounts :
      (running : Option (List JobChunk)) (w : Serving)
      → let before = record w { running = running } in
        Accounts execute (emit before) (accounted execute before)
  unfolding emit
  emit-Accounts none w = tt
  emit-Accounts (some []) w = refl
  emit-Accounts (some (c ∷ left)) w = elim (Bool-cases (ltb (length w.chunks) 64)) [
    | inl e ↦ rw e (
        ap (λ r. sent_chunks w.sent ++ (unsent w.loop ++ r))
          (append_assoc w.chunks (c ∷ []) (left ++ plan execute w.jobs)))
    | inr e ↦ rw e tt
  ]

  take_job-Accounts :
      (running : Option (List JobChunk)) (jobs : List Job) (w : Serving)
      → let before = record w { running = running; jobs = jobs } in
        Accounts execute (take_job execute before) (accounted execute before)
  unfolding take_job
  take_job-Accounts (some left) jobs w = tt
  take_job-Accounts none [] w = tt
  take_job-Accounts none (job ∷ jobs) w = refl

  pub nothing_new : (w : Serving) → accounted execute w ≡ accounted execute w ++ plan execute []
  nothing_new w = sym (append_nil (accounted execute w))

  receive-Accounts :
      (m : ServerMessage) (w : Serving)
      → Accounts execute
          (receive m w)
          (accounted execute w ++ plan execute (received (receives m ∷ [])))
  unfolding receive
  receive-Accounts other w = nothing_new w
  receive-Accounts (pull_model m) w = elim (Bool-cases (ltb (length w.pulls) 8)) [
    | inl e ↦ rw e (nothing_new w)
    | inr e ↦ rw e tt
  ]
  receive-Accounts (unload_model m) w = elim (Bool-cases (ltb (length w.unloads) 8)) [
    | inl e ↦ rw e (nothing_new w)
    | inr e ↦ rw e tt
  ]
  receive-Accounts (dispatches job) w =
      let left = left_of w.running in
      let new = plan execute (job ∷ []) in
      elim (Bool-cases (ltb (length w.jobs) 8)) [
        | inl e ↦ rw e (
            ap (λ r. sent_chunks w.sent ++ (unsent w.loop ++ (w.chunks ++ (left ++ r))))
              (plan-append execute w.jobs (job ∷ []))
            ∙ ap (λ r. sent_chunks w.sent ++ (unsent w.loop ++ (w.chunks ++ r)))
                (sym (append_assoc left (plan execute w.jobs) new))
            ∙ ap (λ r. sent_chunks w.sent ++ (unsent w.loop ++ r))
                (sym (append_assoc w.chunks (left ++ plan execute w.jobs) new))
            ∙ ap (λ r. sent_chunks w.sent ++ r)
                (sym (append_assoc (unsent w.loop) (w.chunks ++ (left ++ plan execute w.jobs)) new))
            ∙ sym (
                append_assoc (sent_chunks w.sent)
                  (unsent w.loop ++ (w.chunks ++ (left ++ plan execute w.jobs))) new))
        | inr e ↦ rw e tt
      ]

  -- A step that receives nothing.
  adds_nothing :
      (o : Option Serving) (w : Serving)
      → Accounts execute o (accounted execute w)
      → Accounts execute o (accounted execute w ++ plan execute [])
  adds_nothing none w h = tt
  adds_nothing (some w') w h = h ∙ nothing_new w

  refreshed_lem :
      (listed : Option (List Model)) (w : Serving)
      → accounted execute (refresh_models listed w) ≡ accounted execute w
  unfolding refresh_models
  refreshed_lem none w = refl
  refreshed_lem (some models) w = refl

  detected_lem :
      (detected : Option Capacity) (w : Serving)
      → accounted execute (detect_capacity detected false w) ≡ accounted execute w
  unfolding detect_capacity
  detected_lem none w = refl
  detected_lem (some cap) w = refl

  refreshed_loop :
      (listed : Option (List Model)) (w : Serving) → (refresh_models listed w).loop ≡ w.loop
  unfolding refresh_models
  refreshed_loop none w = refl
  refreshed_loop (some models) w = refl

  detected_loop :
      (detected : Option Capacity) (w : Serving) → (detect_capacity detected false w).loop ≡ w.loop
  unfolding detect_capacity
  detected_loop none w = refl
  detected_loop (some cap) w = refl

  send_heartbeat-accounted :
      (delivered : Bool) (listed : Option (List Model)) (detected : Option Capacity) (w : Serving)
      → w.loop ≡ looping
      → accounted execute (send_heartbeat delivered listed detected w) ≡ accounted execute w
  unfolding send_heartbeat
  send_heartbeat-accounted true listed detected w alive =
      let ready = detect_capacity detected false (refresh_models listed w) in
      send_other (heartbeat (heartbeat_of ready)) ready refl
      ∙ detected_lem detected (refresh_models listed w)
      ∙ refreshed_lem listed w
  send_heartbeat-accounted false listed detected w alive =
      returned_lem (detect_capacity detected false (refresh_models listed w))
        (detected_loop detected (refresh_models listed w) ∙ refreshed_loop listed w ∙ alive)
      ∙ detected_lem detected (refresh_models listed w)
      ∙ refreshed_lem listed w

  unload-Accounts :
      (names : List String) (w : Serving)
      → let before = record w { unloads = names } in
        Accounts execute (unload before) (accounted execute before)
  unfolding unload
  unload-Accounts [] w = tt
  unload-Accounts (m ∷ names) w = refl

  pull-Accounts :
      (pulled : Bool) (listed : Option (List Model)) (names : List String) (w : Serving)
      → let before = record w { pulls = names } in
        Accounts execute (pull pulled listed before) (accounted execute before)
  unfolding pull
  pull-Accounts pulled listed [] w = tt
  pull-Accounts true listed (m ∷ names) w = refreshed_lem listed (record w { pulls = names })
  pull-Accounts false listed (m ∷ names) w = refl

  stop-accounted :
      (delivered : Bool) (w : Serving)
      → w.loop ≡ looping
      → accounted execute (stop delivered w) ≡ accounted execute w
  unfolding stop send
  stop-accounted true w alive =
      returned_lem (send (deregister w.worker_id) w) alive
      ∙ send_other (deregister w.worker_id) w refl
  stop-accounted false w alive = returned_lem w alive

  pub enabled-Accounts :
      (e : Event) (w : Serving)
      → w.loop ≡ looping
      → Accounts execute
          (enabled execute e w)
          (accounted execute w ++ plan execute (received (e ∷ [])))
  unfolding enabled
  enabled-Accounts (receives m) w alive = receive-Accounts m w
  enabled-Accounts (beats delivered listed detected) w alive =
      send_heartbeat-accounted delivered listed detected w alive ∙ nothing_new w
  enabled-Accounts takes_job w alive = adds_nothing _ w (take_job-Accounts w.running w.jobs w)
  enabled-Accounts emits w alive = adds_nothing _ w (emit-Accounts w.running w)
  enabled-Accounts (forwards delivered) w alive = adds_nothing _ w (
      subst
        (λ l.
          let before = record w { loop = l } in
          Accounts execute (forward delivered before) (accounted execute before))
        (sym alive) (forward-Accounts delivered w.chunks w))
  enabled-Accounts unloads w alive = adds_nothing _ w (unload-Accounts w.unloads w)
  enabled-Accounts (pulls pulled listed) w alive =
      adds_nothing _ w (pull-Accounts pulled listed w.pulls w)
  enabled-Accounts (stops delivered) w alive = stop-accounted delivered w alive ∙ nothing_new w
  enabled-Accounts drops w alive = unfold drop_stream in returned_lem w alive ∙ nothing_new w
