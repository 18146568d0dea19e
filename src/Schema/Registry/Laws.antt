-- ===== src/Schema/Registry/Laws.antt =====
-- The parameter map gives each name the path of its last definition.
use helix_acs.Prelude.{
  String, ◌≡◌, refl, List, [], ◌∷◌, ◌++◌, Option, none, some, arith, if◌then◌else◌, str_eq, or_else,
  ◌∙◌,
}
use helix_acs.Dict.{Dict, find, put}
use helix_acs.Dict.Laws.{find-put}
use helix_acs.Schema.Registry.{
  Parameter, Schema, Registry, get_all, add_parameters, add_schemas, param_map,
}

-- The last definition of a name in a list of parameters.
unfoldable pub last_path : String → List Parameter → Option String
last_path name [] = none
last_path name (p ∷ ps) =
    or_else (last_path name ps) (if str_eq p.name name then some p.path else none)

-- All parameters of the schemas, in the order of the files.
unfoldable pub all_parameters : List Schema → List Parameter
all_parameters [] = []
all_parameters (s ∷ ss) = s.parameters ++ all_parameters ss

last_path-append :
    (name : String) (ps qs : List Parameter)
    → last_path name (ps ++ qs) ≡ or_else (last_path name qs) (last_path name ps)
unfolding last_path
last_path-append name [] qs = ground arith
last_path-append name (p ∷ ps) qs = ground (arith, last_path-append name ps qs)

find-add_parameters :
    (name : String) (ps : List Parameter) (out : Dict String)
    → find name (add_parameters ps out) ≡ or_else (last_path name ps) (find name out)
unfolding add_parameters last_path
find-add_parameters name [] out = refl
find-add_parameters name (p ∷ ps) out =
    ground
      (arith, find-add_parameters name ps (put p.name p.path out), find-put p.name name p.path out)

find-add_schemas :
    (name : String) (ss : List Schema) (out : Dict String)
    → find name (add_schemas ss out) ≡ or_else (last_path name (all_parameters ss)) (find name out)
unfolding add_schemas all_parameters
find-add_schemas name [] out = unfold last_path in refl
find-add_schemas name (s ∷ ss) out = ground (
  arith,
  find-add_schemas name ss (add_parameters s.parameters out),
  find-add_parameters name s.parameters out,
  last_path-append name s.parameters (all_parameters ss),
)

-- When a parameter is defined more than once under a schema name, the last definition, in the
-- order of the files and of the parameters in a file, is the one in the map; a name that is
-- defined nowhere is not in it.
pub find-param_map :
    (r : Registry) (schema_name name : String)
    → find name (param_map r schema_name) ≡ last_path name (all_parameters (get_all r schema_name))
unfolding param_map
find-param_map r schema_name name =
    find-add_schemas name (get_all r schema_name) [] ∙ unfold find in ground arith
