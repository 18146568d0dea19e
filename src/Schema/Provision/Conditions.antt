-- ===== src/Schema/Provision/Conditions.antt =====
-- The conditions of an executor's steps, and the parameters that its set steps send.
use helix_acs.Prelude.{
  String, ◌≡◌, ◌≢◌, refl, Bool, true, false, not, List, ◌∷◌, Option, arith, str_eq, eq_iff, All,
  or_else, Bool-cases, inl, inr,
}
use helix_acs.Text.{◌+++◌, is_space, trim_left, trim_right, trim_space, has_prefix}
use helix_acs.Text.Prefixes.{has_prefix-append}
use helix_acs.Dict.{Dict, find, put, copy_into, flag_of}
use helix_acs.Dict.Laws.{find-put, find-copy_into}
use helix_acs.Schema.Driver.{DeviceDriver}
use helix_acs.Schema.Provision.{
  driver_config, driver_features, initial_vars, initial_features, put_driver_features, put_has,
  is_gpon_given, eval_condition, substitute, resolve_onto, resolve_params,
}

-- The input variables come before the driver's configuration.
pub find-initial_vars :
    (driver : Option DeviceDriver) (input_vars : Dict String) (k : String)
    → find k (initial_vars driver input_vars)
      ≡ or_else (find k input_vars) (find k (driver_config driver))
unfolding initial_vars find
find-initial_vars driver input_vars k =
    let config = driver_config driver in
    ground (
      arith,
      find-copy_into input_vars (copy_into config List.[]) k,
      find-copy_into config List.[] k,
    )

has_-ne : (k j : String) → has_prefix j "has_" ≡ false → str_eq ("has_" +++ k) j ≡ false
has_-ne k j h = ground (arith, eq_iff ("has_" +++ k) j, has_prefix-append "has_" k)

find-put_has :
    (j : String) (vars : Dict String) (fs : Dict Bool)
    → has_prefix j "has_" ≡ false
    → find j (put_has vars fs) ≡ find j fs
unfolding put_has
find-put_has j List.[] fs h = refl
find-put_has j ((k, v) ∷ vars) fs h = ground (
  arith,
  has_-ne k j h,
  find-put_has j vars (put ("has_" +++ k) true fs) h,
  find-put_has j vars fs h,
  find-put ("has_" +++ k) j true fs,
)

eval_condition-reuse : (fs : Dict Bool) → eval_condition fs "gpon_reuse" ≡ flag_of "gpon_reuse" fs
unfolding eval_condition trim_space trim_left trim_right is_space has_prefix
eval_condition-reuse fs = refl

eval_condition-create :
    (fs : Dict Bool) → eval_condition fs "gpon_create" ≡ flag_of "gpon_create" fs
unfolding eval_condition trim_space trim_left trim_right is_space has_prefix
eval_condition-create fs = refl

-- Just one of the conditions gpon_reuse and gpon_create holds: the first when the variable
-- gpon_idx, from the input or else from the driver's configuration, is present and neither empty
-- nor 0.
pub eval_condition-gpon :
    (driver : Option DeviceDriver) (input_vars : Dict String)
    → let fs = initial_features driver (initial_vars driver input_vars) in
      let given =
        is_gpon_given
          (or_else (find "gpon_idx" input_vars) (find "gpon_idx" (driver_config driver))) in
      (eval_condition fs "gpon_reuse" ≡ given) × (eval_condition fs "gpon_create" ≡ not given)
unfolding initial_features flag_of has_prefix
eval_condition-gpon driver input_vars =
    let vars = initial_vars driver input_vars in
    let given = is_gpon_given (find "gpon_idx" vars) in
    let fs = put_driver_features (driver_features driver) List.[] in
    ground (
      arith,
      eval_condition-reuse (initial_features driver vars),
      eval_condition-create (initial_features driver vars),
      find-initial_vars driver input_vars "gpon_idx",
      find-put_has "gpon_reuse" vars (put "gpon_create" (not given) (put "gpon_reuse" given fs))
          refl,
      find-put_has "gpon_create" vars (put "gpon_create" (not given) (put "gpon_reuse" given fs))
          refl,
      find-put "gpon_create" "gpon_reuse" (not given) (put "gpon_reuse" given fs),
      find-put "gpon_create" "gpon_create" (not given) (put "gpon_reuse" given fs),
      find-put "gpon_reuse" "gpon_reuse" given fs,
    )

put-All :
    (P : String → Type 0) (k v : String) (d : Dict String)
    → P v
    → All (λ e. P e.1) d
    → All (λ e. P e.1) (put k v d)
unfolding put
put-All P k v List.[] p h = (p, tt)
put-All P k v ((j, w) ∷ d) p (q, h) = ground (arith, put-All P k v d p h)

resolve_onto-nonempty :
    (vars raw out : Dict String)
    → All (λ e. e.1 ≢ "") out
    → All (λ e. e.1 ≢ "") (resolve_onto vars raw out)
unfolding resolve_onto
resolve_onto-nonempty vars List.[] out h = h
resolve_onto-nonempty vars ((k, v) ∷ raw) out h =
    elim (Bool-cases (str_eq (substitute vars v) "")) [
      | inl e ↦ rw e (resolve_onto-nonempty vars raw out h)
      | inr e ↦ rw e (
          resolve_onto-nonempty vars raw (put (substitute vars k) (substitute vars v) out) (
            put-All (λ u. u ≢ "") (substitute vars k) (substitute vars v) out
              (ground (arith, eq_iff (substitute vars v) "")) h))
    ]

-- A set step never sends an empty value, so it does not clear a parameter whose variable is empty.
pub resolve_params-nonempty :
    (vars raw : Dict String) → All (λ e. e.1 ≢ "") (resolve_params vars raw)
unfolding resolve_params
resolve_params-nonempty vars raw = resolve_onto-nonempty vars raw List.[] tt
