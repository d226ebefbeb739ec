-- ===== src/Worker/Pipeline.antt =====
-- The jobs of a connection on their way through its channels.
use agent_gpu.Prelude.{
  append_assoc, append_nil, ◌≡◌, refl, sym, ap, ◌∙◌, subst, String, Option, none, some, List, [],
  ◌∷◌, ◌++◌,
}
use agent_gpu.Types.{JobChunk, Model}
use agent_gpu.Worker.{
  Capacity, Executor, chunks_of, dispatches, pull_model, unload_model, other, Loop, looping,
  returned, Serving, serve,
}
use agent_gpu.Worker.Steps.{
  Event, receives, beats, takes_job, emits, forwards, unloads, pulls, stops, drops, enabled, step,
  and_then, run, received, plan, sent_chunks, left_of, unsent, accounted, while_looping,
}
use agent_gpu.Worker.Moves.{Accounts, nothing_new, enabled-Accounts}

module _ (execute : Executor) where
  received-cons :
      (e : Event) (events : List Event)
      → plan execute (received (e ∷ events))
        ≡ plan execute (received (e ∷ [])) ++ plan execute (received events)
  received-cons (receives (dispatches job)) events =
      ap (λ r. r ++ plan execute (received events)) (sym (append_nil (chunks_of execute job)))
  received-cons (receives (pull_model m)) events = refl
  received-cons (receives (unload_model m)) events = refl
  received-cons (receives other) events = refl
  received-cons (beats delivered listed detected) events = refl
  received-cons takes_job events = refl
  received-cons emits events = refl
  received-cons (forwards delivered) events = refl
  received-cons unloads events = refl
  received-cons (pulls pulled listed) events = refl
  received-cons (stops delivered) events = refl
  received-cons drops events = refl

  while_looping-Accounts :
      (l : Loop) (o : Option Serving) (expected : List JobChunk)
      → (l ≡ looping → Accounts execute o expected)
      → Accounts execute (while_looping l o) expected
  while_looping-Accounts looping o expected h = h refl
  while_looping-Accounts (returned c) o expected h = tt

  step-Accounts :
      (e : Event) (w : Serving)
      → Accounts execute
          (step execute e w)
          (accounted execute w ++ plan execute (received (e ∷ [])))
  unfolding step
  step-Accounts e w =
      while_looping-Accounts w.loop (enabled execute e w) _ (enabled-Accounts execute e w)

  then-Accounts :
      (e : Event) (events : List Event) (w : Serving) (o : Option Serving)
      → ((w' : Serving)
          → Accounts execute
              (run execute events w')
              (accounted execute w' ++ plan execute (received events)))
      → Accounts execute o (accounted execute w ++ plan execute (received (e ∷ [])))
      → Accounts execute
          (and_then o (run execute events))
          (accounted execute w ++ plan execute (received (e ∷ events)))
  then-Accounts e events w none f h = tt
  then-Accounts e events w (some w') f h =
      subst (Accounts execute (run execute events w'))
        (ap (λ r. r ++ plan execute (received events)) h
          ∙ append_assoc (accounted execute w) (plan execute (received (e ∷ [])))
              (plan execute (received events))
          ∙ ap (λ r. accounted execute w ++ r) (sym (received-cons e events)))
        (f w')

  pub run-Accounts :
      (events : List Event) (w : Serving)
      → Accounts execute
          (run execute events w)
          (accounted execute w ++ plan execute (received events))
  unfolding run
  run-Accounts [] w = nothing_new execute w
  run-Accounts (e ∷ events) w =
      then-Accounts e events w (step execute e w) (run-Accounts events) (step-Accounts e w)

  -- What holds of a state that the run reaches.
  pub Accounts-some :
      (o : Option Serving) (w : Serving) (expected : List JobChunk)
      → o ≡ some w
      → Accounts execute o expected
      → accounted execute w ≡ expected
  Accounts-some o w expected e h = subst (λ r. Accounts execute r expected) e h

  -- Whatever the goroutines of a connection do and in whatever order, up to the return of its loop:
  -- the chunks that were sent, then the one whose send failed, if the loop returned on that, then
  -- those in the channel, those that the job at hand has still to emit, and those of the jobs that
  -- wait are together the chunks of the jobs that were received, one job after the other in the order
  -- in which they came, each with its terminal chunk. None is doubled or reordered, and none is lost
  -- but the one on whose failed send the loop returned.
  pub run-accounted :
      (id : String) (models : List Model) (capacity : Capacity) (events : List Event) (w : Serving)
      → run execute events (serve id models capacity) ≡ some w
      → sent_chunks w.sent
          ++ (unsent w.loop ++ (w.chunks ++ (left_of w.running ++ plan execute w.jobs)))
        ≡ plan execute (received events)
  unfolding serve
  run-accounted id models capacity events w e =
      Accounts-some (run execute events (serve id models capacity)) w
        (plan execute (received events)) e (run-Accounts events (serve id models capacity))
