-- ===== src/Cwmp/Dispatch.antt =====
-- `dispatchTask` and `dispatchNextOrClose` of internal/cwmp/session.go: the tasks of a session, one
-- after another. What `executeTask` makes of a task, and whether the queue stores an update of a
-- task, are arguments: nothing is assumed of them.
pub mod First
mod Tests
use helix_acs.Prelude.{
  ℕ, suc, String, Bool, true, false, List, [], ◌∷◌, ◌++◌, Option, none, some, if◌then◌else◌, ◌||◌,
}
use helix_acs.Task.Model.{
  Task, TaskType, type_get_diag_result, Status, status_executing, status_failed, status_done,
}

pub data SessionState : Type 0 where
  state_new state_inform state_processing state_done : SessionState

-- The outcome of `executeTask`: an error, and whether the task had become the session's current one
-- before it; a response that it has written itself, to the task as current one; an envelope.
pub data Execution : Type 0 where
  error_after : Bool → String → Execution
  responded envelope : Execution

pub data Answer : Type 0 where
  -- An envelope for a task goes to the device.
  sent : Task → Answer
  -- 204: the session is closed.
  no_content : Answer

pub record Dispatched : Type 0 where
  pub pending_tasks : List Task
  pub current_task : Option Task
  -- `none` where the state is left as it was.
  pub state : Option SessionState
  -- The calls of `UpdateStatus`, in their order.
  pub updates : List Task
  pub answer : Answer

abbrev pub is_synthetic : Task → Bool
is_synthetic t = elim t.task_type [ type_get_diag_result ↦ true | _ ↦ false ]

-- The task as it is dispatched at a time.
unfoldable pub started : ℕ → Task → Task
started now t =
    if is_synthetic t
    then t
    else record t { status = status_executing; executed_at = some now; attempts = suc t.attempts }

unfoldable pub failed_task : ℕ → String → Task → Task
failed_task now e t = record t { status = status_failed; completed_at = some now; error = e }

abbrev pub unless_synthetic : Task → Task → List Task
unless_synthetic t update = if is_synthetic t then [] else update ∷ []

abbrev pub after_updates : List Task → Dispatched → Dispatched
after_updates us r = record r { updates = us ++ r.updates }

abbrev pub sent_with : Task → List Task → List Task → Dispatched
sent_with t tasks us = record {
  pending_tasks = tasks;
  current_task = some t;
  state = none;
  updates = us;
  answer = sent t;
}

-- The end of `dispatchTask`, with the rounds that may follow.
unfoldable pub after_execution :
    ℕ → Task → List Task → Option Task → (Option Task → Dispatched) → Execution → Dispatched
unfolding started failed_task
after_execution now t tasks current rest (error_after owned e) =
    let t' = started now t in
    after_updates (unless_synthetic t t' ++ unless_synthetic t (failed_task now e t'))
      (rest (if owned then some t' else current))
after_execution now t tasks current rest responded =
    sent_with (started now t) tasks (unless_synthetic t (started now t))
after_execution now t tasks current rest envelope =
    sent_with (started now t) tasks (unless_synthetic t (started now t))

module _ (execute : Task → Execution) (stored : Task → Bool) (now : ℕ) where
  -- `dispatchNextOrClose` on the pending tasks, with the current one; each round takes one off.
  unfoldable pub dispatch_next_or_close : List Task → Option Task → Dispatched
  unfolding started after_execution
  dispatch_next_or_close [] current = record {
    pending_tasks = [];
    current_task = current;
    state = some state_done;
    updates = [];
    answer = no_content;
  }
  dispatch_next_or_close (t ∷ tasks) current =
      if is_synthetic t || stored (started now t)
      then after_execution now t tasks current (λ c. dispatch_next_or_close tasks c)
          (execute (started now t))
      else after_updates (unless_synthetic t (started now t)) (dispatch_next_or_close tasks current)

  -- `dispatchTask` is such a round for a task that has already been taken off.
  unfoldable pub dispatch_task : Task → List Task → Option Task → Dispatched
  unfolding dispatch_next_or_close
  dispatch_task t tasks current = dispatch_next_or_close (t ∷ tasks) current
