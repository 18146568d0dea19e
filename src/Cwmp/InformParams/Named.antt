-- ===== src/Cwmp/InformParams/Named.antt =====
-- The model and the data model of a device by the names of its parameters.
use helix_acs.Prelude.{
  ◌≡◌, refl, sym, eq_iff, ap, ◌∙◌, String, Bool, false, ◌||◌, List, [], ◌∷◌, Option, if◌then◌else◌,
  str_eq, any, arith, Bool-cases, inl, inr,
}
use helix_acs.Text.{to_lower, has_prefix}
use helix_acs.Text.Numbers.{ℤ}
use helix_acs.Dict.{Dict, put}
use helix_acs.Cwmp.Soap.{has_suffix}
use helix_acs.Cwmp.InformParams.{
  DeviceId, UpsertRequest, new_request, with_model_name, set_named, read_params, data_model_of,
  extract_inform_params,
}

-- The value of the last parameter whose name in lower case has the suffix.
unfoldable pub last_with_suffix : String → String → List (String × String) → String
last_with_suffix suffix before [] = before
last_with_suffix suffix before ((name, val) ∷ params) =
    last_with_suffix suffix (if has_suffix (to_lower name) suffix then val else before) params

abbrev pub has_key_prefix : String → String × String → Bool
has_key_prefix p e = has_prefix e.0 p

or_false : (b : Bool) → b ≡ b || false
or_false b = ground arith

or_twice : (a b : Bool) → a || b ≡ (a || b) || a
or_twice a b = ground arith

or_assoc : (a b c : Bool) → a || (b || c) ≡ (a || b) || c
or_assoc a b c = ground arith

any-put :
    (p key val : String) (d : Dict String)
    → any (has_key_prefix p) (put key val d) ≡ (any (has_key_prefix p) d || has_prefix key p)
unfolding put
any-put p key val [] = ground arith
any-put p key val ((k, v) ∷ d) = elim (Bool-cases (str_eq k key)) [
  | inl same ↦
      let e : k ≡ key = (eq_iff k key).0 same in
      rw (same, put) (rw e (or_twice (has_prefix key p) (any (has_key_prefix p) d)))
  | inr other ↦ rw (other, put, any-put p key val d) (or_assoc (has_prefix k p) _ _)
]

model_name_of :
    (req : UpsertRequest)
    → (with_model_name req).model_name
      ≡ (if str_eq req.model_name "" then req.product_class else req.model_name)
model_name_of req = elim (Bool-cases (str_eq req.model_name "")) [
  | inr named ↦ rw named refl
  | inl unnamed ↦ elim (Bool-cases (str_eq req.product_class "")) [
    | inr given ↦ rw (unnamed, given) refl
    | inl missing ↦
        rw (unnamed, missing)
          ((eq_iff req.model_name "").0 unnamed ∙ sym ((eq_iff req.product_class "").0 missing))
  ]
]

data_model-with_model_name :
    (req : UpsertRequest) → (with_model_name req).data_model ≡ req.data_model
data_model-with_model_name req = ground arith

module _ (scan_int : String → Option ℤ) where
  KeepsRest : String → String → UpsertRequest → UpsertRequest → Type 0
  KeepsRest lower val req new =
      (new.model_name ≡ (if has_suffix lower "modelname" then val else req.model_name))
      × (new.parameters ≡ req.parameters)
      × (new.product_class ≡ req.product_class)

  set_named-KeepsRest :
      (lower val : String) (req : UpsertRequest)
      → KeepsRest lower val req (set_named scan_int lower val req)
  unfolding KeepsRest set_named
  set_named-KeepsRest lower val req = ground arith

  read_params-named :
      (params : List (String × String)) (req : UpsertRequest)
      → ((read_params scan_int params req).model_name
          ≡ last_with_suffix "modelname" req.model_name params)
        × ((read_params scan_int params req).product_class ≡ req.product_class)
        × ((p : String)
            → any (has_key_prefix p) (read_params scan_int params req).parameters
              ≡ any (has_key_prefix p) req.parameters || any (has_key_prefix p) params)
  unfolding read_params last_with_suffix KeepsRest
  read_params-named [] req = (refl, refl, λ p. or_false _)
  read_params-named ((name, val) ∷ params) req =
      let before = record req { parameters = put name val req.parameters } in
      let (m, ps, c) = set_named-KeepsRest (to_lower name) val before in
      let (later_m, later_c, later_ps) =
        read_params-named params (set_named scan_int (to_lower name) val before) in
      (
        later_m ∙ ap (λ b. last_with_suffix "modelname" b params) m,
        later_c ∙ c,
        λ p.
            later_ps p
            ∙ ap (λ d. any (has_key_prefix p) d || any (has_key_prefix p) params) ps
            ∙ ap (λ b. b || any (has_key_prefix p) params) (any-put p name val req.parameters)
            ∙ sym (
                or_assoc (any (has_key_prefix p) req.parameters) (has_prefix name p)
                  (any (has_key_prefix p) params)),
      )

  -- The model is the value of the last parameter whose name ends in "modelname" in any case, or the product class
  -- where this value is empty; and the data model is TR-098 with a parameter below InternetGatewayDevice, TR-181
  -- without one and with one below Device, and empty with neither.
  pub extract_inform_params-named :
      (d : DeviceId) (params : List (String × String))
      → ((extract_inform_params scan_int d params).model_name ≡ (
          if str_eq (last_with_suffix "modelname" "" params) ""
          then d.product_class
          else last_with_suffix "modelname" "" params))
        × ((extract_inform_params scan_int d params).data_model ≡ (
            if any (has_key_prefix "InternetGatewayDevice.") params
            then "tr098"
            else if any (has_key_prefix "Device.") params
            then "tr181"
            else ""))
  unfolding extract_inform_params
  extract_inform_params-named d params =
      let (m, c, ps) = read_params-named params (new_request d) in
      let req = read_params scan_int params (new_request d) in
      let data_model : String = data_model_of req.parameters in
      (
        model_name_of (record req { data_model = data_model })
            ∙ ap (λ c'. if str_eq req.model_name "" then c' else req.model_name) c
            ∙ ap (λ n. if str_eq n "" then d.product_class else n) m,
        data_model-with_model_name (record req { data_model = data_model })
            ∙ ap
                (λ b.
                  if b
                  then "tr098"
                  else if any (has_key_prefix "Device.") req.parameters
                  then "tr181"
                  else "")
                (ps "InternetGatewayDevice.")
            ∙ ap
                (λ b.
                  if any (has_key_prefix "InternetGatewayDevice.") params
                  then "tr098"
                  else if b
                  then "tr181"
                  else "")
                (ps "Device."),
      )
