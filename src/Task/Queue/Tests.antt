-- ===== src/Task/Queue/Tests.antt =====
-- A store in memory for Redis, the identity for the codec, and the queue's theorems at them.
use helix_acs.Prelude.{
  ◌≡◌, refl, sym, String, true, false, not, List, [], ◌∷◌, ◌++◌, Option, none, some, arith,
  if◌then◌else◌, str_eq, eq_iff, select,
}
use helix_acs.Task.Model.{Task, type_reboot, Status, status_unset, status_pending}
use helix_acs.Task.Queue.{
  err, ok, terminal_state, Backend, queue_key, data_key, is_terminal, with_defaults, enqueue,
  fetch_task, dequeue_pending, update_status, cancelled, cancel,
}
use helix_acs.Task.Queue.Laws.{
  value_after, list_after, IsRedis, IsReadable, dequeue_pending-enqueue, cancel-cancel,
}

abbrev Memory : Type 0
Memory = (String → Option Task) × (String → List String)

-- A pipeline at one key: the state under each key follows from the state before.
abbrev memory : Backend
memory = record {
  Data = Task;
  Store = Memory;
  value = λ k s. s.0 k;
  list = λ k s. s.1 k;
  get = λ k s. some (s.0 k);
  lrange = λ k s. some (s.1 k);
  set = λ k x s. (((λ j. if str_eq k j then some x else s.0 j), s.1), true);
  lrem = λ k i s.
      ((s.0, (λ j. if str_eq k j then select (λ e. not (str_eq e i)) (s.1 j) else s.1 j)), true);
  exec = λ cs s. (((λ j. value_after cs j (s.0 j)), (λ j. list_after cs j (s.1 j))), true);
  marshal = λ t. some t;
  unmarshal = λ t. some t;
}

memory-IsRedis : IsRedis memory
memory-IsRedis = record {
  set-value = λ k x j s h. refl;
  lrem-value = λ k i j s. refl;
  exec-value = λ cs j s h. refl;
  exec-list = λ cs j s h. refl;
  unmarshal-marshal = λ t x h. sym h;
}

memory-IsReadable : (s : Memory) → IsReadable memory s
memory-IsReadable s = record { get-value = λ k. refl; lrange-list = λ k. refl }

abbrev task : String → Status → Task
task id status = record {
  id = id;
  serial = "S1";
  task_type = type_reboot;
  payload = "";
  status = status;
  created_at = 1;
  executed_at = none;
  completed_at = none;
  result = none;
  error = "";
  attempts = 0;
  max_attempts = 0;
}

abbrev store : Memory
store = (
  (λ j. if str_eq j "task:data:t1" then some (task "t1" status_pending) else none),
  (λ j. if str_eq j "task:queue:S1" then "t1" ∷ [] else []),
)

dequeue_pending-enqueue_example :
    (before : List Task) × ((dequeue_pending memory "S1" store ≡ ok before)
      × (dequeue_pending memory "S1" ((enqueue memory 3 (task "t2" status_unset) store).0)
          ≡ ok (before ++ with_defaults 3 (task "t2" status_unset) ∷ [])))
unfolding queue_key with_defaults enqueue
dequeue_pending-enqueue_example =
    dequeue_pending-enqueue memory memory-IsRedis 3 (task "t2" status_unset) store
      (memory-IsReadable store)
      (memory-IsReadable ((enqueue memory 3 (task "t2" status_unset) store).0))
      (ground (arith, eq_iff "t1" "t2")) refl refl

cancel-cancel_example :
    (is_terminal status_pending ≡ false)
    × ((fetch_task memory "t1" ((cancel memory 5 "t1" store).0)
          ≡ ok (cancelled memory 5 (task "t1" status_pending)))
        × (cancel memory 6 "t1" ((cancel memory 5 "t1" store).0)
            ≡ ((cancel memory 5 "t1" store).0, err terminal_state)))
unfolding fetch_task data_key cancel is_terminal update_status
cancel-cancel_example =
    cancel-cancel memory memory-IsRedis 5 6 (task "t1" status_pending) store
      (memory-IsReadable ((cancel memory 5 "t1" store).0)) refl refl
