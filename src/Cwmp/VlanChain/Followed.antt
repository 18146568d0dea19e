-- ===== src/Cwmp/VlanChain/Followed.antt =====
-- The chain of references, without the guard against loops.
use mathlib.Core.Path.{subst}
use helix_acs.Prelude.{
  ℕ, zero, suc, ◌≡◌, ◌⊎◌, inl, inr, refl, String, Bool, true, false, List, [], ◌∷◌, if◌then◌else◌,
  str_eq, eq_iff, any, arith, Bool-cases,
}
use helix_acs.Text.{trim_space}
use helix_acs.Dict.{Dict}
use helix_acs.Cwmp.VlanChain.{
  object_of, vlan_id_of, is_vlan_termination, lower_layers, next_reference, resolve_from,
  resolve_vlan_from_chain,
}

-- The VLAN of the first VLANTermination among a number of objects that refer to each other, from one on.
unfoldable pub first_vlan : Dict String → ℕ → String → ℕ
first_vlan snapshot zero current = 0
first_vlan snapshot (suc rounds) current =
    let object = object_of current in
    let lower = lower_layers snapshot object in
    let rest = first_vlan snapshot rounds (next_reference lower) in
    if str_eq current ""
    then 0
    else if is_vlan_termination object
    then vlan_id_of snapshot object
    else if str_eq lower ""
    then 0
    else rest

module _ (snapshot : Dict String) where
  abbrev among : String → List String → Bool
  among object visited = any (λ o. str_eq o object) visited

  abbrev next_object : String → String
  next_object object = object_of (next_reference (lower_layers snapshot object))

  -- An object that has been passed leads to no VLAN within the set.
  abbrev Leads : List String → String → Type 0
  Leads objects object =
      (is_vlan_termination object ≡ false)
      × ((str_eq (lower_layers snapshot object) "" ≡ true)
          ⊎ (among (next_object object) objects ≡ true))

  first_vlan-closed :
      (objects : List String)
      → ((object : String) → among object objects ≡ true → Leads objects object)
      → (rounds : ℕ) (current : String) → among (object_of current) objects ≡ true
      → first_vlan snapshot rounds current ≡ 0
  unfolding first_vlan
  first_vlan-closed objects closed zero current inside = refl
  first_vlan-closed objects closed (suc rounds) current inside =
      let (plain, next) = closed (object_of current) inside in
      elim next [
        | inl ends ↦ ground arith
        | inr again ↦ ground (
          arith,
          first_vlan-closed objects closed rounds
              (next_reference (lower_layers snapshot (object_of current))) again,
        )
      ]

  Leads-cons :
      (o object : String) (objects : List String)
      → Leads objects object
      → Leads (o ∷ objects) object
  Leads-cons o object objects (plain, inl ends) = (plain, inl ends)
  Leads-cons o object objects (plain, inr again) = (plain, inr (ground arith))

  Leads-passed :
      (object : String) (visited : List String)
      → ((o : String) → among o visited ≡ true → Leads (object ∷ visited) o)
      → Leads (object ∷ visited) object
      → (o : String) → among o (object ∷ visited) ≡ true
      → Leads (object ∷ visited) o
  Leads-passed object visited earlier here o inside = elim (Bool-cases (str_eq object o)) [
    | inl same ↦ subst (Leads (object ∷ visited)) ((eq_iff object o).0 same) here
    | inr other ↦ earlier o (ground arith)
  ]

  -- The set of what has been passed grows by the object of the next reference.
  Leads-passed_on :
      (object next : String) (visited : List String)
      → ((o : String) → among o visited ≡ true → Leads (object ∷ visited) o)
      → Leads (object_of next ∷ object ∷ visited) object
      → (o : String) → among o (object ∷ visited) ≡ true
      → Leads (object_of next ∷ object ∷ visited) o
  Leads-passed_on object next visited earlier here o inside = elim (Bool-cases (str_eq object o)) [
    | inl same ↦ subst (Leads (object_of next ∷ object ∷ visited)) ((eq_iff object o).0 same) here
    | inr other ↦ Leads-cons (object_of next) o (object ∷ visited) (earlier o (ground arith))
  ]

  resolve_from-first_vlan :
      (rounds : ℕ) (visited : List String) (current : String)
      → ((o : String) → among o visited ≡ true → Leads (object_of current ∷ visited) o)
      → resolve_from snapshot rounds visited current ≡ first_vlan snapshot rounds current
  unfolding resolve_from first_vlan
  resolve_from-first_vlan zero visited current earlier = refl
  resolve_from-first_vlan (suc rounds) visited current earlier =
      let object = object_of current in
      let next = next_reference (lower_layers snapshot object) in
      elim (Bool-cases (among object visited)) [
        | inl loop ↦
            let stops =
              first_vlan-closed (object ∷ visited)
                (Leads-passed object visited earlier (earlier object loop)) (suc rounds) current
                (ground (arith, (eq_iff object object).1 refl)) in
            ground arith
        | inr new ↦ elim (Bool-cases (is_vlan_termination object)) [
          | inl found ↦ ground arith
          | inr plain ↦
              let ih = resolve_from-first_vlan rounds (object ∷ visited) next (λ o inside.
                Leads-passed_on object next visited earlier
                  (plain, inr (ground (arith, (eq_iff (object_of next) (object_of next)).1 refl))) o
                  inside) in
              ground arith
        ]
      ]

-- The guard against loops changes nothing: the result is the VLAN of the first VLANTermination among the
-- first four objects that the references lead to, and 0 without one.
pub resolve_vlan_from_chain-first_vlan :
    (snapshot : Dict String) (lower : String)
    → resolve_vlan_from_chain snapshot lower ≡ first_vlan snapshot 4 (trim_space lower)
unfolding resolve_vlan_from_chain
resolve_vlan_from_chain-first_vlan snapshot lower =
    resolve_from-first_vlan snapshot 4 [] (trim_space lower) (λ o inside. cc)
