-- ===== src/Cwmp/LegacyFlow/Typed.antt =====
-- The values of the fixed steps against the types that their names suggest.
use Prim.Native.String.{[], ◌∷◌}
use helix_acs.Prelude.{◌≡◌, refl, String, Bool, not, is_some, all, List}
use helix_acs.Schema.Flow.{ProvisionStep}
use helix_acs.Datamodel.Validator.{validate_type}
use helix_acs.Cwmp.Soap.{last_or_empty, infer_xsd_type}

last_or_empty-cons_empty :
    (parts : List String) → last_or_empty (List.◌∷◌ [] parts) ≡ last_or_empty parts
last_or_empty-cons_empty List.[] = refl
last_or_empty-cons_empty (List.◌∷◌ p ps) = refl

module _ (parses : String → String → Bool) where
  -- The values of the parameters of all steps have the types that their names suggest.
  abbrev pub is_typed : String × String → Bool
  is_typed (name, value) = not (is_some (validate_type parses (infer_xsd_type name) value))

  abbrev pub all_typed : List ProvisionStep → Bool
  all_typed steps = all (λ step. all is_typed step.params) steps
