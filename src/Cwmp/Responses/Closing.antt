-- ===== src/Cwmp/Responses/Closing.antt =====
-- A session with a device that answers every request with one of the responses comes to its end.
use helix_acs.Prelude.{
  ℕ, zero, suc, ◌<◌, ◌≡◌, ◌⊎◌, String, Bool, true, false, [], Option, none, some, if◌then◌else◌,
  length,
}
use helix_acs.Task.Model.{Task}
use helix_acs.Cwmp.Adoption.{Session}
use helix_acs.Cwmp.Dispatch.{Execution, state_done}
use helix_acs.Cwmp.Responses.{Work, Handled, Answer, no_content, Response, handle_response}
use helix_acs.Cwmp.Responses.Progress.{is_ongoing}

abbrev pub is_closing : Answer → Bool
is_closing no_content = true
is_closing _ = false

-- By the number of the request in the session: the time at which its response comes, and the
-- identifier of the request that may follow.
module _ (execute : Task → Execution) (prepare : Task → Session → Session) (stored : Task → Bool)
    (clock : ℕ → ℕ) (ids : ℕ → String) (has_serial : Bool) (device : Answer → Response) where
  unfoldable pub responded_at : ℕ → Response → Work → Handled
  unfolding handle_response
  responded_at k r w = handle_response execute prepare stored (clock k) (ids k) has_serial r w

  -- The handling that closes the session, within as many further requests as there is fuel.
  unfoldable pub conversation : ℕ → ℕ → Handled → Option Handled
  unfolding responded_at
  conversation k zero h = if is_closing h.answer then some h else none
  conversation k (suc fuel) h =
      let rest = conversation (suc k) fuel (responded_at k (device h.answer) h.work) in
      if is_closing h.answer then some h else rest

  -- What the server has answered with no content last.
  abbrev pub WaitsLast : Handled → Type 0
  WaitsLast end =
      (k : ℕ) × ((r : Response) × ((w : Work) × ((is_ongoing r ≡ true)
            × (end ≡ responded_at k r w))))

  abbrev pub Closes : ℕ → Handled → Type 0
  Closes k h =
      (fuel : ℕ) × ((end : Handled) × ((conversation k fuel h ≡ some end)
          × ((end.work.pending_tasks ≡ []) × ((end.state ≡ some state_done) ⊎ WaitsLast end))))

  -- All works with fewer pending tasks are closed.
  abbrev ClosedBelow : ℕ → Type 0
  ClosedBelow n =
      (k : ℕ) (r : Response) (w : Work)
      → length w.pending_tasks < n
      → Closes (suc k) (responded_at k r w)
