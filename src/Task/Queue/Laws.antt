-- ===== src/Task/Queue/Laws.antt =====
-- What the queue's operations do together, by the documented behaviour of Redis and of the codec.
use mathlib.Core.Path.{subst}
use helix_acs.Prelude.{
  ℕ, ◌≡◌, ◌≢◌, refl, sym, ap, ◌∙◌, inl, inr, String, Bool, true, false, List, [], ◌∷◌, ◌++◌, Option,
  some, if◌then◌else◌, str_eq, eq_iff, eq_refl, select, All, Bool-cases, Option-cases,
}
use helix_acs.Text.{drop_chars}
use helix_acs.Text.Prefixes.{drop_chars-append}
use helix_acs.Task.Model.{Task}
use helix_acs.Task.Queue.{
  terminal_state, Result, err, ok, Command, rpush, set_data, zadd, Backend, queue_key, data_key,
  index_key, is_terminal, is_pending, with_defaults, enqueue, fetched, fetch_task, cons_ok,
  fetch_all, dequeue_pending, removed, stored, update_status, cancelled, cancel,
}

-- What a pipeline makes of the bytes, and of the list, under a key.
abbrev pub value_after : {Data : Type 0} → List (Command Data) → String → Option Data → Option Data
value_after [] j v = v
value_after (rpush k i ∷ cs) j v = value_after cs j v
value_after (set_data k x ∷ cs) j v = value_after cs j (if str_eq k j then some x else v)
value_after (zadd k score i ∷ cs) j v = value_after cs j v

abbrev pub list_after : {Data : Type 0} → List (Command Data) → String → List String → List String
list_after [] j is = is
list_after (rpush k i ∷ cs) j is = list_after cs j (if str_eq k j then is ++ i ∷ [] else is)
list_after (set_data k x ∷ cs) j is = list_after cs j is
list_after (zadd k score i ∷ cs) j is = list_after cs j is

-- A call that succeeds reads or changes the contents as Redis documents it, and what the
-- codec has written is read back.
pub record IsRedis (b : Backend) : Type 0 where
  pub set-value :
      (k : String) (x : b.Data) (j : String) (s : b.Store)
      → (b.set k x s).1 ≡ true
      → b.value j ((b.set k x s).0) ≡ (if str_eq k j then some x else b.value j s)
  pub lrem-value : (k i j : String) (s : b.Store) → b.value j ((b.lrem k i s).0) ≡ b.value j s
  pub exec-value :
      (cs : List (Command b.Data)) (j : String) (s : b.Store)
      → (b.exec cs s).1 ≡ true
      → b.value j ((b.exec cs s).0) ≡ value_after cs j (b.value j s)
  pub exec-list :
      (cs : List (Command b.Data)) (j : String) (s : b.Store)
      → (b.exec cs s).1 ≡ true
      → b.list j ((b.exec cs s).0) ≡ list_after cs j (b.list j s)
  pub unmarshal-marshal : (t : Task) (x : b.Data) → b.marshal t ≡ some x → b.unmarshal x ≡ some t

-- No read of the store fails.
pub record IsReadable (b : Backend) (s : b.Store) : Type 0 where
  pub get-value : (k : String) → b.get k s ≡ some (b.value k s)
  pub lrange-list : (k : String) → b.lrange k s ≡ some (b.list k s)

data_key-injective : (i j : String) → data_key i ≡ data_key j → i ≡ j
unfolding data_key
data_key-injective i j h =
    sym (drop_chars-append "task:data:" i)
    ∙ ap (λ t. drop_chars 10 t) h
    ∙ drop_chars-append "task:data:" j

data_key-other : (i j : String) → i ≢ j → str_eq (data_key i) (data_key j) ≡ false
data_key-other i j h = elim (Bool-cases (str_eq (data_key i) (data_key j))) [
  | inr other ↦ other
  | inl same ↦ absurd (h (data_key-injective i j ((eq_iff (data_key i) (data_key j)).0 same)))
]

module _ (b : Backend) (laws : IsRedis b) where
  -- Writing a task that is then read.
  fetched-marshal :
      (t : Task) (x : b.Data) → b.marshal t ≡ some x → fetched b (some (some x)) ≡ ok t
  fetched-marshal t x h = rw (laws.unmarshal-marshal t x h)

  fetch_all-same :
      (ids : List String) (s s' : b.Store)
      → All (λ i. fetch_task b i s' ≡ fetch_task b i s) ids
      → fetch_all b ids s' ≡ fetch_all b ids s
  unfolding fetch_all
  fetch_all-same [] s s' _ = refl
  fetch_all-same (i ∷ ids) s s' (e, h) = rw (e, fetch_all-same ids s s' h)

  cons_ok-append :
      (r : Result Task) (ts us : List Task) → cons_ok b r (ts ++ us) ≡ cons_ok b r ts ++ us
  cons_ok-append (err e) ts us = refl
  cons_ok-append (ok t) ts us = refl

  fetch_all-append :
      (is js : List String) (s : b.Store)
      → fetch_all b (is ++ js) s ≡ fetch_all b is s ++ fetch_all b js s
  unfolding fetch_all
  fetch_all-append [] js s = refl
  fetch_all-append (i ∷ is) js s =
      ap (λ ts. cons_ok b (fetch_task b i s) ts) (fetch_all-append is js s)
      ∙ cons_ok-append (fetch_task b i s) (fetch_all b is s) (fetch_all b js s)

  dequeue_pending-IsReadable :
      (serial : String) (s : b.Store)
      → IsReadable b s
      → dequeue_pending b serial s
        ≡ ok (select is_pending (fetch_all b (b.list (queue_key serial) s) s))
  unfolding dequeue_pending
  dequeue_pending-IsReadable serial s readable = rw (readable.lrange-list (queue_key serial))

  -- What a pipeline of `Enqueue` leaves.
  abbrev commands : Task → b.Data → List (Command b.Data)
  commands t x =
      rpush (queue_key t.serial) t.id
      ∷ set_data (data_key t.id) x
      ∷ zadd (index_key t.serial) t.created_at t.id
      ∷ []

  enqueue-ok :
      (max_attempts : ℕ) (task : Task) (s : b.Store)
      → (enqueue b max_attempts task s).1 ≡ ok tt
      → let t = with_defaults max_attempts task in
        (x : b.Data) × ((b.marshal t ≡ some x)
          × (((b.exec (commands t x) s).1 ≡ true)
              × ((enqueue b max_attempts task s).0 ≡ (b.exec (commands t x) s).0)))
  unfolding enqueue
  enqueue-ok max_attempts task s h =
      elim (Option-cases (b.marshal (with_defaults max_attempts task))) [
        | inl none_written ↦ absurd (let e = rw (none_written, enqueue) at h in cc)
        | inr (x, written) ↦
            let t = with_defaults max_attempts task in
            let e = rw (written, enqueue) at h in
            (
              x,
              (
                written,
                (
                  (elim (Bool-cases ((b.exec (commands t x) s).1)) [
                    | inl done ↦ done
                    | inr fails ↦ absurd (let f = rw fails at e in cc)
                  ]),
                  rw (written, enqueue),
                ),
              ),
            )
      ]

  -- After an enqueuing, the reads of other tasks are as before, and the task itself is read.
  fetch_task-enqueued :
      (t : Task) (x : b.Data) (i : String) (s : b.Store)
      → b.marshal t ≡ some x
      → (b.exec (commands t x) s).1 ≡ true
      → IsReadable b s
      → IsReadable b ((b.exec (commands t x) s).0)
      → fetch_task b i ((b.exec (commands t x) s).0)
        ≡ (if str_eq (data_key t.id) (data_key i) then ok t else fetch_task b i s)
  unfolding fetch_task
  fetch_task-enqueued t x i s written done before after =
      let cs = commands t x in
      ap (λ o. fetched b o)
        (after.get-value (data_key i) ∙ ap some (laws.exec-value cs (data_key i) s done))
      ∙ elim (Bool-cases (str_eq (data_key t.id) (data_key i))) [
        | inl same ↦ rw same (fetched-marshal t x written)
        | inr other ↦ rw other (ap (λ o. fetched b o) (sym (before.get-value (data_key i))))
      ]

  others-enqueued :
      (t : Task) (x : b.Data) (ids : List String) (s : b.Store)
      → b.marshal t ≡ some x
      → (b.exec (commands t x) s).1 ≡ true
      → IsReadable b s
      → IsReadable b ((b.exec (commands t x) s).0)
      → All (λ i. i ≢ t.id) ids
      → All (λ i. fetch_task b i ((b.exec (commands t x) s).0) ≡ fetch_task b i s) ids
  others-enqueued t x [] s written done before after _ = tt
  others-enqueued t x (i ∷ ids) s written done before after (fresh, h) = (
    fetch_task-enqueued t x i s written done before after
        ∙ rw (data_key-other t.id i (λ e. fresh (sym e))) refl,
    others-enqueued t x ids s written done before after h,
  )

select-last :
    (p : Task → Bool) (ts : List Task) (t : Task)
    → p t ≡ true
    → select p (ts ++ t ∷ []) ≡ select p ts ++ t ∷ []
select-last p [] t h = rw h
select-last p (u ∷ ts) t h = elim (Bool-cases (p u)) [
  | inl kept ↦ rw kept (ap (λ us. u ∷ us) (select-last p ts t h))
  | inr dropped ↦ rw dropped (select-last p ts t h)
]

-- First in, first out: after a task with a new identifier has been enqueued with success, the pending
-- tasks of its device are those from before, in their order, and the task behind them, with its
-- defaults. The task is pending, and the reads before and after do not fail.
pub dequeue_pending-enqueue :
    (b : Backend) (laws : IsRedis b) (max_attempts : ℕ) (task : Task) (s : b.Store)
    → IsReadable b s
    → IsReadable b ((enqueue b max_attempts task s).0)
    → All (λ i. i ≢ task.id) (b.list (queue_key task.serial) s)
    → is_pending (with_defaults max_attempts task) ≡ true
    → (enqueue b max_attempts task s).1 ≡ ok tt
    → (before : List Task) × ((dequeue_pending b task.serial s ≡ ok before)
        × (dequeue_pending b task.serial ((enqueue b max_attempts task s).0)
            ≡ ok (before ++ with_defaults max_attempts task ∷ [])))
unfolding with_defaults
dequeue_pending-enqueue b laws max_attempts task s readable readable' fresh pending h =
    let t = with_defaults max_attempts task in
    let (x, (written, (done, same))) = enqueue-ok b laws max_attempts task s h in
    let s' = (b.exec (commands b laws t x) s).0 in
    let after : IsReadable b s' = subst (λ w. IsReadable b w) same readable' in
    let ids = b.list (queue_key task.serial) s in
    let pushed : b.list (queue_key task.serial) s' ≡ ids ++ t.id ∷ [] =
      laws.exec-list (commands b laws t x) (queue_key task.serial) s done
      ∙ rw (eq_refl (queue_key task.serial)) refl in
    let here : fetch_task b t.id s' ≡ ok t =
      fetch_task-enqueued b laws t x t.id s written done readable after
      ∙ rw (eq_refl (data_key t.id)) refl in
    let last : fetch_all b (t.id ∷ []) s' ≡ t ∷ [] = unfold fetch_all in rw here refl in
    let others : fetch_all b ids s' ≡ fetch_all b ids s =
      fetch_all-same b laws ids s s'
        (others-enqueued b laws t x ids s written done readable after fresh) in
    let queue_after : select is_pending (fetch_all b (b.list (queue_key task.serial) s') s')
        ≡ select is_pending (fetch_all b ids s) ++ t ∷ [] =
      ap (λ is. select is_pending (fetch_all b is s')) pushed
      ∙ ap (λ ts. select is_pending ts) (fetch_all-append b laws ids (t.id ∷ []) s')
      ∙ rw (others, last) (select-last is_pending (fetch_all b ids s) t pending) in
    (
      select is_pending (fetch_all b ids s),
      (
        dequeue_pending-IsReadable b laws task.serial s readable,
        ap (λ w. dequeue_pending b task.serial w) same
            ∙ dequeue_pending-IsReadable b laws task.serial s' after
            ∙ ap ok queue_after,
      ),
    )

module _ (b : Backend) (laws : IsRedis b) where
  removed-value : (t : Task) (j : String) (s : b.Store) → b.value j (removed b t s) ≡ b.value j s
  removed-value t j s = elim (Bool-cases (is_terminal t.status)) [
    | inl over ↦ rw over (laws.lrem-value (queue_key t.serial) t.id j s)
    | inr running ↦ rw running refl
  ]

  stored-ok :
      (t : Task) (r : b.Store × Bool)
      → (stored b t r).1 ≡ ok tt
      → (r.1 ≡ true) × ((stored b t r).0 ≡ removed b t r.0)
  stored-ok t (s, true) h = (refl, refl)
  stored-ok t (s, false) h = absurd (let e = h in cc)

  -- What a successful update leaves.
  update_status-ok :
      (t : Task) (j : String) (s : b.Store)
      → (update_status b t s).1 ≡ ok tt
      → (x : b.Data) × ((b.marshal t ≡ some x)
          × (b.value j ((update_status b t s).0)
              ≡ (if str_eq (data_key t.id) j then some x else b.value j s)))
  unfolding update_status
  update_status-ok t j s h = elim (Option-cases (b.marshal t)) [
    | inl none_written ↦ absurd (let e = rw (none_written, update_status) at h in cc)
    | inr (x, written) ↦
        let e = rw (written, update_status) at h in
        let (done, left) = stored-ok t (b.set (data_key t.id) x s) e in
        (
          x,
          (
            written,
            rw (written, update_status)
                (ap (λ w. b.value j w) left
                  ∙ removed-value t j ((b.set (data_key t.id) x s).0)
                  ∙ laws.set-value (data_key t.id) x j s done),
          ),
        )
  ]

-- A cancellation that succeeds has met a task that was not yet done, failed or cancelled; the task is
-- then read as cancelled at that time, and a second cancellation is refused and changes nothing. The
-- stored task carries its own identifier, and the reads after the first cancellation do not fail.
pub cancel-cancel :
    (b : Backend) (laws : IsRedis b) (now later : ℕ) (t : Task) (s : b.Store)
    → IsReadable b ((cancel b now t.id s).0)
    → fetch_task b t.id s ≡ ok t
    → (cancel b now t.id s).1 ≡ ok tt
    → (is_terminal t.status ≡ false)
      × ((fetch_task b t.id ((cancel b now t.id s).0) ≡ ok (cancelled b now t))
          × (cancel b later t.id ((cancel b now t.id s).0)
              ≡ ((cancel b now t.id s).0, err terminal_state)))
unfolding cancel is_terminal
cancel-cancel b laws now later t s readable found h = elim (Bool-cases (is_terminal t.status)) [
  | inl over ↦ absurd (let e = rw (found, over) at h in cc)
  | inr running ↦
      let updated = rw (found, running) at h in
      let same : (cancel b now t.id s).0 ≡ (update_status b (cancelled b now t) s).0 =
        rw (found, running) refl in
      let (x, (written, value)) =
        update_status-ok b laws (cancelled b now t) (data_key t.id) s updated in
      let s' = (cancel b now t.id s).0 in
      let content : b.value (data_key t.id) s' ≡ some x =
        ap (λ w. b.value (data_key t.id) w) same ∙ value ∙ rw (eq_refl (data_key t.id)) refl in
      let read : fetch_task b t.id s' ≡ ok (cancelled b now t) =
        unfold fetch_task in
        (ap (λ o. fetched b o) (readable.get-value (data_key t.id) ∙ ap some content)
          ∙ fetched-marshal b laws (cancelled b now t) x written) in
      (running, (read, rw read refl))
]
