-- ===== src/Cwmp/Dispatch/First.antt =====
-- The task that is sent is the first that can be.
use helix_acs.Prelude.{
  ℕ, ◌≡◌, refl, inl, inr, Bool, true, false, ◌&&◌, ◌||◌, List, [], ◌∷◌, ◌++◌, Option, none, some,
  if◌then◌else◌, Bool-cases,
}
use helix_acs.Task.Model.{Task}
use helix_acs.Cwmp.Dispatch.{
  Execution, error_after, responded, envelope, sent, no_content, Dispatched, state_done,
  is_synthetic, started, failed_task, unless_synthetic, after_updates, after_execution,
  dispatch_next_or_close,
}

abbrev pub succeeds : Execution → Bool
succeeds (error_after owned e) = false
succeeds responded = true
succeeds envelope = true

module _ (execute : Task → Execution) (stored : Task → Bool) (now : ℕ) where
  -- The task can be marked as executing, and has an envelope.
  unfoldable pub is_dispatchable : Task → Bool
  unfolding started
  is_dispatchable t =
      (is_synthetic t || stored (started now t)) && succeeds (execute (started now t))

  -- The first dispatchable task and those behind it.
  unfoldable pub first_dispatchable : List Task → Option (Task × List Task)
  unfolding is_dispatchable
  first_dispatchable [] = none
  first_dispatchable (t ∷ tasks) =
      if is_dispatchable t then some (t, tasks) else first_dispatchable tasks

  -- The queue, the answer and, where a task is sent, the current task.
  abbrev pub Agrees : Option (Task × List Task) → Dispatched → Type 0
  Agrees none r = (r.pending_tasks ≡ []) × ((r.answer ≡ no_content) × (r.state ≡ some state_done))
  Agrees (some (t, tasks)) r =
      (r.pending_tasks ≡ tasks)
      × ((r.answer ≡ sent (started now t)) × (r.current_task ≡ some (started now t)))

  Agrees-after_updates :
      (o : Option (Task × List Task)) (us : List Task) (r : Dispatched)
      → Agrees o r
      → Agrees o (after_updates us r)
  Agrees-after_updates none us r h = h
  Agrees-after_updates (some (t, tasks)) us r h = h

  after_execution-first :
      (t : Task) (tasks : List Task) (current : Option Task) (o : Option (Task × List Task))
      (rest : Option Task → Dispatched)
      → ((c : Option Task) → Agrees o (rest c))
      → (x : Execution)
      → Agrees
          (if succeeds x then some (t, tasks) else o)
          (after_execution now t tasks current rest x)
  unfolding after_execution
  after_execution-first t tasks current o rest h (error_after owned e) =
      let t' = started now t in
      Agrees-after_updates o (unless_synthetic t t' ++ unless_synthetic t (failed_task now e t'))
        (rest (if owned then some t' else current)) (h (if owned then some t' else current))
  after_execution-first t tasks current o rest h responded = (refl, (refl, refl))
  after_execution-first t tasks current o rest h envelope = (refl, (refl, refl))

  -- After an answer of the device, the first pending task that can be marked as executing and has
  -- an envelope is sent, it becomes the current one, and the tasks behind it stay pending. When
  -- there is none, the session is closed, done, with no pending task.
  pub dispatch_next_or_close-first :
      (tasks : List Task) (current : Option Task)
      → Agrees (first_dispatchable tasks) (dispatch_next_or_close execute stored now tasks current)
  unfolding dispatch_next_or_close first_dispatchable is_dispatchable
  dispatch_next_or_close-first [] current = (refl, (refl, refl))
  dispatch_next_or_close-first (t ∷ tasks) current =
      elim (Bool-cases (is_synthetic t || stored (started now t))) [
        | inr refused ↦ rw refused (
            Agrees-after_updates (first_dispatchable tasks) (unless_synthetic t (started now t))
              (dispatch_next_or_close execute stored now tasks current)
              (dispatch_next_or_close-first tasks current))
        | inl marked ↦ rw marked (
            after_execution-first t tasks current (first_dispatchable tasks)
              (λ c. dispatch_next_or_close execute stored now tasks c)
              (λ c. dispatch_next_or_close-first tasks c) (execute (started now t)))
      ]
