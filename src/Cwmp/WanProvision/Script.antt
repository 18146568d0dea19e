-- ===== src/Cwmp/WanProvision/Script.antt =====
-- What a provisioning flow means: the requests of its active steps, one after another, each with
-- the instance numbers that the CPE has answered before it. And the run of the state machine
-- against a CPE that answers each request with its own kind of response.
use helix_acs.Prelude.{ℕ, zero, suc, String, List, [], ◌∷◌}
use helix_acs.Text.{itoa}
use helix_acs.Dict.{Dict}
use helix_acs.Schema.Flow.{add_object, set, delete, ProvisionStep}
use helix_acs.Schema.Provision.{substitute, resolve_params, put_unless_empty}
use helix_acs.Cwmp.WanProvision.{
  Request, add_object_request, set_parameter_values_request, delete_object_request, Outcome, failed,
  complete, next, WanProvision, on_add_object, on_set_params, on_delete_object,
}

-- The number that the CPE gives the object of a request, and the identifier of the request, by the
-- request's place in the session.
module _ (answer : ℕ → ℕ) (id : ℕ → String) where
  abbrev pub request_for : ℕ → Dict String → ProvisionStep → Request
  request_for k vars s = elim s.kind [
    | add_object ↦ add_object_request (id k) (substitute vars s.object)
    | set ↦ set_parameter_values_request (id k) (resolve_params vars s.params)
    | delete ↦ delete_object_request (id k) (substitute vars s.object)
  ]

  abbrev pub vars_after : ℕ → Dict String → ProvisionStep → Dict String
  vars_after k vars s = elim s.kind [
    | add_object ↦ put_unless_empty s.as_var (itoa (answer k)) vars
    | set ↦ vars
    | delete ↦ vars
  ]

  unfoldable pub script : ℕ → Dict String → List ProvisionStep → List Request
  unfolding substitute resolve_params
  script k vars [] = []
  script k vars (s ∷ steps) = request_for k vars s ∷ script (suc k) (vars_after k vars s) steps

  -- The handler of the response to a request; the next request has the next identifier.
  unfoldable pub respond : ℕ → Request → WanProvision → WanProvision × Outcome
  unfolding on_add_object on_set_params on_delete_object
  respond k (add_object_request _ object) p = on_add_object (id (suc k)) (answer k) p
  respond k (delete_object_request _ object) p = on_delete_object (id (suc k)) p
  respond k (set_parameter_values_request _ params) p = on_set_params (id (suc k)) p

  -- The requests that are sent from an outcome on, and the last outcome. One unit of fuel is spent
  -- on each request.
  unfoldable pub run : ℕ → ℕ → WanProvision → Outcome → List Request × Outcome
  unfolding respond
  run zero k p o = ([], o)
  run (suc fuel) k p (failed e) = ([], failed e)
  run (suc fuel) k p complete = ([], complete)
  run (suc fuel) k p (next r) =
      let later = run fuel (suc k) ((respond k r p).0) ((respond k r p).1) in (r ∷ later.0, later.1)
