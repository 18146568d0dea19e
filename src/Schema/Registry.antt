-- ===== src/Schema/Registry.antt =====
-- internal/schema/schema.go and registry.go: the loaded schemas and their flat parameter maps.
-- Reading the YAML files is not modelled; a registry is what `LoadDir` has built.
pub mod Laws
use helix_acs.Prelude.{String, Bool, not, List, [], ◌∷◌, Option, none, some, is_empty}
use helix_acs.Dict.{Dict, find, put}

pub record Parameter : Type 0 where
  pub name : String
  pub path : String
  pub xsd_type : String

pub record Schema : Type 0 where
  pub id : String
  pub model : String
  pub vendor : String
  pub description : String
  pub parameters : List Parameter

pub record Registry : Type 0 where
  pub schemas : Dict (List Schema)

unfoldable pub get_all : Registry → String → List Schema
unfolding find
get_all r schema_name = elim (find schema_name r.schemas) [ none ↦ [] | some ss ↦ ss ]

unfoldable pub has : Registry → String → Bool
unfolding get_all
has r schema_name = not (is_empty (get_all r schema_name))

-- The inner loop of `ParamMap`.
add_parameters : List Parameter → Dict String → Dict String
unfolding put
add_parameters [] out = out
add_parameters (p ∷ ps) out = add_parameters ps (put p.name p.path out)

-- The outer loop.
add_schemas : List Schema → Dict String → Dict String
unfolding add_parameters
add_schemas [] out = out
add_schemas (s ∷ ss) out = add_schemas ss (add_parameters s.parameters out)

unfoldable pub param_map : Registry → String → Dict String
unfolding get_all add_schemas
param_map r schema_name = add_schemas (get_all r schema_name) []
