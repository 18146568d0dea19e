-- ===== src/Task/Queue.antt =====
-- `RedisQueue` of internal/task/queue.go. The Redis client and the JSON codec are the interface
-- Backend; what the code relies on are its laws. Timeouts show as failed calls, and expiry is not
-- modelled.
pub mod Laws
mod Tests
use helix_acs.Prelude.{
  ℕ, ◌==◌, ◌≡◌, ◌⊎◌, String, Bool, true, false, not, ◌&&◌, ◌||◌, List, [], ◌∷◌, ◌++◌, Option, none,
  some, if◌then◌else◌, str_eq, select,
}
use helix_acs.Text.{◌+++◌}
use helix_acs.Task.Model.{
  Task, TaskType, Status, status_unset, status_pending, status_executing, status_done,
  status_failed, status_cancelled, is_diagnostic_async,
}

pub data QueueError : Type 0 where
  marshal_failed call_failed not_found unmarshal_failed terminal_state : QueueError

pub data Result (A : Type 0) : Type 0 where
  err : QueueError → Result A
  ok : A → Result A

-- The commands of a pipeline.
pub data Command (Data : Type 0) : Type 0 where
  rpush : String → String → Command Data
  set_data : String → Data → Command Data
  zadd : String → ℕ → String → Command Data

pub record Backend : Type 1 where
  -- The bytes that the codec writes.
  pub Data : Type 0
  pub Store : Type 0
  -- The contents: the bytes under a key, and the list under a key.
  pub value : String → Store → Option Data
  pub list : String → Store → List String
  -- GET and LRANGE 0 -1; the outer `none` is a failed call.
  pub get : String → Store → Option (Option Data)
  pub lrange : String → Store → Option (List String)
  -- SET, LREM 0 and a pipeline; whether the call succeeded.
  pub set : String → Data → Store → Store × Bool
  pub lrem : String → String → Store → Store × Bool
  pub exec : List (Command Data) → Store → Store × Bool
  pub marshal : Task → Option Data
  pub unmarshal : Data → Option Task

unfoldable pub queue_key : String → String
queue_key serial = "task:queue:" +++ serial

unfoldable pub data_key : String → String
data_key task_id = "task:data:" +++ task_id

unfoldable pub index_key : String → String
index_key serial = "task:index:" +++ serial

unfoldable pub is_terminal : Status → Bool
is_terminal s = elim s [
  | status_done ↦ true
  | status_failed ↦ true
  | status_cancelled ↦ true
  | _ ↦ false
]

abbrev pub is_pending : Task → Bool
is_pending t = elim t.status [ status_pending ↦ true | _ ↦ false ]

abbrev pub is_executing_diagnostic : Task → Bool
is_executing_diagnostic t = elim t.status [
  | status_executing ↦ is_diagnostic_async t.task_type
  | _ ↦ false
]

abbrev pub status_or_pending : Status → Status
status_or_pending s = elim s [
  | status_unset ↦ status_pending
  | status_pending ↦ status_pending
  | status_executing ↦ status_executing
  | status_done ↦ status_done
  | status_failed ↦ status_failed
  | status_cancelled ↦ status_cancelled
]

-- The defaults that `Enqueue` sets.
unfoldable pub with_defaults : ℕ → Task → Task
with_defaults max_attempts t = record t {
  max_attempts = if t.max_attempts == 0 then max_attempts else t.max_attempts;
  status = status_or_pending t.status;
}

module _ (b : Backend) where
  unfoldable pub enqueue : ℕ → Task → b.Store → b.Store × Result Unit
  unfolding with_defaults
  enqueue max_attempts task s =
      let t = with_defaults max_attempts task in
      elim (b.marshal t) [
        | none ↦ (s, err marshal_failed)
        | some text ↦
            let done =
              b.exec
                (rpush (queue_key t.serial) t.id
                  ∷ set_data (data_key t.id) text
                  ∷ zadd (index_key t.serial) t.created_at t.id
                  ∷ [])
                s in
            (done.0, if done.1 then ok tt else err call_failed)
      ]

  abbrev decode : Option Task → Result Task
  decode none = err unmarshal_failed
  decode (some t) = ok t

  abbrev fetched : Option (Option b.Data) → Result Task
  fetched none = err call_failed
  fetched (some none) = err not_found
  fetched (some (some text)) = decode (b.unmarshal text)

  unfoldable pub fetch_task : String → b.Store → Result Task
  fetch_task task_id s = fetched (b.get (data_key task_id) s)

  abbrev cons_ok : Result Task → List Task → List Task
  cons_ok (err e) ts = ts
  cons_ok (ok t) ts = t ∷ ts

  -- The tasks of the identifiers; one that cannot be fetched is passed over.
  unfoldable pub fetch_all : List String → b.Store → List Task
  unfolding fetch_task
  fetch_all [] s = []
  fetch_all (i ∷ ids) s = cons_ok (fetch_task i s) (fetch_all ids s)

  abbrev listed : (Task → Bool) → Option (List String) → b.Store → Result (List Task)
  listed keep none s = err call_failed
  listed keep (some ids) s = ok (select keep (fetch_all ids s))

  unfoldable pub dequeue_pending : String → b.Store → Result (List Task)
  unfolding fetch_all
  dequeue_pending serial s = listed is_pending (b.lrange (queue_key serial) s) s

  unfoldable pub find_executing_diagnostics : String → b.Store → Result (List Task)
  unfolding fetch_all
  find_executing_diagnostics serial s =
      listed is_executing_diagnostic (b.lrange (queue_key serial) s) s

  -- The result of LREM is not looked at.
  abbrev removed : Task → b.Store → b.Store
  removed t s = if is_terminal t.status then (b.lrem (queue_key t.serial) t.id s).0 else s

  abbrev stored : Task → b.Store × Bool → b.Store × Result Unit
  stored t (s, false) = (s, err call_failed)
  stored t (s, true) = (removed t s, ok tt)

  unfoldable pub update_status : Task → b.Store → b.Store × Result Unit
  unfolding is_terminal
  update_status t s = elim (b.marshal t) [
    | none ↦ (s, err marshal_failed)
    | some text ↦ stored t (b.set (data_key t.id) text s)
  ]

  abbrev pub cancelled : ℕ → Task → Task
  cancelled now t = record t { status = status_cancelled; completed_at = some now }

  abbrev cancel_fetched : ℕ → Result Task → b.Store → b.Store × Result Unit
  cancel_fetched now (err e) s = (s, err e)
  cancel_fetched now (ok t) s =
      if is_terminal t.status then (s, err terminal_state) else update_status (cancelled now t) s

  -- `Cancel` at a time; the serial that it is given is not used.
  unfoldable pub cancel : ℕ → String → b.Store → b.Store × Result Unit
  unfolding fetch_task update_status
  cancel now task_id s = cancel_fetched now (fetch_task task_id s) s
