-- ===== src/Parameter/Storage/Tests.antt =====
-- Tests and examples of the stored parameters.
use helix_acs.Prelude.{
  ◌≡◌, refl, String, true, false, List, [], ◌∷◌, some, none, if◌then◌else◌, arith,
}
use helix_acs.Dict.{Dict, find}
use helix_acs.Text.{has_prefix}
use helix_acs.Parameter.Like.{like, prefix_pattern}
use helix_acs.Parameter.Storage.{
  Storage, executed, refused, get_all_parameters, get_parameters_by_prefix,
}
use helix_acs.Parameter.Storage.Contents.{stored}
use helix_acs.Parameter.Storage.Coherent.{IsCoherent}
use helix_acs.Parameter.Storage.Sequence.{
  Call, update, read_all, run, effects, get_all_parameters-run,
}
use helix_acs.Parameter.Storage.ByPrefix.{find-get_parameters_by_prefix}

abbrev empty : Storage
empty = record { rows = []; snapshots = []; samples = []; cache = [] }

empty-IsCoherent : IsCoherent empty
unfolding find
empty-IsCoherent = record { entry_is_stored = λ serial cached found name. cc }

abbrev calls : List Call
calls =
    update executed true "cpe" (("A.X", "1") ∷ ("A_Y", "2") ∷ [])
    ∷ read_all true true true "cpe"
    ∷ update refused false "cpe" (("A.X", "9") ∷ [])
    ∷ update executed true "cpe" (("A.X", "3") ∷ [])
    ∷ []

read_back :
    (get_all_parameters true true true "cpe" (run calls empty)).1
    ≡ some (("A.X", "3") ∷ ("A_Y", "2") ∷ [])
unfolding run get_all_parameters
read_back = refl

-- An update whose invalidation fails is not seen until the entry expires.
stale :
    (get_all_parameters true true true "cpe" (
      run
        (update executed true "cpe" (("K", "1") ∷ [])
          ∷ read_all true true true "cpe"
          ∷ update executed false "cpe" (("K", "2") ∷ [])
          ∷ [])
        empty)).1
    ≡ some (("K", "1") ∷ [])
unfolding run get_all_parameters
stale = refl

underscore_is_literal :
    (like (prefix_pattern "A_") "A_Y" ≡ true)
    × (like (prefix_pattern "A_") "A.X" ≡ false)
    × (like (prefix_pattern "A%Y") "A.XY" ≡ true)
unfolding like prefix_pattern
underscore_is_literal = (refl, refl, refl)

get_all_parameters-run_example :
    (params : Dict String) × ((get_all_parameters true true false "cpe" (run calls empty)).1
      ≡ some params)
    × ((name : String) → find name params ≡ effects calls (stored []) "cpe" name)
get_all_parameters-run_example =
    get_all_parameters-run calls empty true false "cpe" (refl, (tt, (tt, (refl, tt))))
      empty-IsCoherent

find-get_parameters_by_prefix_example :
    (params : Dict String) × (get_parameters_by_prefix true "cpe" "A_" (run calls empty)
      ≡ some params)
    × ((name : String)
        → find name params
          ≡ (if has_prefix name "A_" then stored (run calls empty).rows "cpe" name else none))
find-get_parameters_by_prefix_example =
    find-get_parameters_by_prefix "cpe" "A_" (run calls empty) (omega arith) (omega arith)
