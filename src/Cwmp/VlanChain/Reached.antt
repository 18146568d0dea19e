-- ===== src/Cwmp/VlanChain/Reached.antt =====
-- The VLAN that is found is that of an object at the end of a chain of references, and the chain is followed.
use mathlib.Core.Bool.{true≢false}
use helix_acs.Prelude.{
  ℕ, zero, suc, ◌<◌, ◌≡◌, ◌⊎◌, ◌∙◌, sym, ap, inl, inr, refl, String, Bool, true, false, List, [],
  ◌∷◌, Option, none, some, str_eq, eq_iff, eq_refl, arith, Bool-cases, Option-cases,
}
use helix_acs.Text.{◌+++◌, trim_space, split, contains, to_lower, equal_fold}
use helix_acs.Text.Split.{split-nonempty}
use helix_acs.Text.Numbers.{Parsed, number, out_of_range, not_a_number, pos, negsuc, atoi}
use helix_acs.Dict.{Dict, find, value_of}
use helix_acs.Cwmp.VlanChain.{
  object_of, lower_layers, next_reference, first_part, trim_suffix, positive, positive_value,
  first_folded, vlan_id_of, is_vlan_termination, resolve_vlan_from_chain,
}
use helix_acs.Cwmp.VlanChain.Followed.{first_vlan, resolve_vlan_from_chain-first_vlan}

-- The first of the references in the LowerLayers of an object, without white space around it.
abbrev pub Refers : Dict String → String → String → Type 0
Refers snapshot object next =
    (lower : String) × (first : String) × (others : List String) × (find (object +++ ".LowerLayers")
        snapshot
      ≡ some lower)
    × (str_eq lower "" ≡ false)
    × (split b',' lower ≡ first ∷ others)
    × (trim_space first ≡ next)

abbrev pub names_vlan : String → Bool
names_vlan object = contains (to_lower object) "vlantermination"

-- A number of references lead from the first one to an object, by objects that are no VLANTermination.
unfoldable pub Reaches : Dict String → ℕ → String → String → Type 0
Reaches snapshot zero current object =
    (str_eq current "" ≡ false) × (trim_suffix current "." ≡ object)
Reaches snapshot (suc n) current object =
    (str_eq current "" ≡ false)
    × (names_vlan (trim_suffix current ".") ≡ false)
    × ((next : String) × (Refers snapshot (trim_suffix current ".") next
          × Reaches snapshot n next object))

abbrev pub HasEntry : String → String → Dict String → Type 0
HasEntry k v [] = ⊥
HasEntry k v ((j, w) ∷ d) = ((j ≡ k) × (w ≡ v)) ⊎ HasEntry k v d

-- A parameter of the snapshot that gives the VLANID of an object, up to case.
abbrev pub HasVlan : Dict String → String → ℕ → Type 0
HasVlan snapshot object vlan =
    (key : String) × (value : String) × HasEntry key value snapshot
    × (equal_fold key (object +++ ".VLANID") ≡ true)
    × (atoi value ≡ number (pos vlan))

positive-number : (x : Parsed) (n : ℕ) → positive x ≡ some n → x ≡ number (pos n)
positive-number (number (pos zero)) n h = cc
positive-number (number (pos (suc m))) n h = cc
positive-number (number (negsuc m)) n h = cc
positive-number (out_of_range z) n h = cc
positive-number not_a_number n h = cc

first_folded-HasVlan :
    (snapshot : Dict String) (object : String) (vlan : ℕ)
    → first_folded (object +++ ".VLANID") snapshot ≡ suc vlan
    → HasVlan snapshot object (suc vlan)
unfolding first_folded
first_folded-HasVlan [] object vlan h = absurd (omega (arith, h))
first_folded-HasVlan ((k, v) ∷ snapshot) object vlan h =
    let key = object +++ ".VLANID" in
    elim (Bool-cases (equal_fold k key)) [
      | inr other ↦
          let e : first_folded key ((k, v) ∷ snapshot) ≡ first_folded key snapshot =
            rw (other, first_folded) refl in
          let (k', v', here, folded, read) =
            first_folded-HasVlan snapshot object vlan (sym e ∙ h) in
          (k', v', inr here, folded, read)
      | inl folded ↦ elim (Option-cases (positive (atoi v))) [
        | inl nothing ↦
            let e : first_folded key ((k, v) ∷ snapshot) ≡ first_folded key snapshot =
              rw (folded, nothing, first_folded) refl in
            let (k', v', here, same, read) =
              first_folded-HasVlan snapshot object vlan (sym e ∙ h) in
            (k', v', inr here, same, read)
        | inr (n, found) ↦
            let e : first_folded key ((k, v) ∷ snapshot) ≡ n =
              rw (folded, found, first_folded) refl in
            (
              k,
              v,
              inl (refl, refl),
              folded,
              positive-number (atoi v) (suc vlan) (found ∙ ap (λ i. some i) (sym e ∙ h)),
            )
      ]
    ]

find-HasEntry : (k v : String) (d : Dict String) → find k d ≡ some v → HasEntry k v d
unfolding find
find-HasEntry k v [] h = cc
find-HasEntry k v ((j, w) ∷ d) h = elim (Bool-cases (str_eq j k)) [
  | inl same ↦
      let e : find k ((j, w) ∷ d) ≡ some w = rw (same, find) refl in inl ((eq_iff j k).0 same, cc)
  | inr other ↦
      let e : find k ((j, w) ∷ d) ≡ find k d = rw (other, find) refl in
      inr (find-HasEntry k v d (sym e ∙ h))
]

positive_value-given :
    (o : Option String) (n : ℕ)
    → positive_value o ≡ some n
    → (value : String) × (o ≡ some value) × (positive (atoi value) ≡ some n)
unfolding positive_value
positive_value-given none n h = cc
positive_value-given (some v) n h = (v, refl, h)

vlan_id_of-HasVlan :
    (snapshot : Dict String) (object : String) (vlan : ℕ)
    → vlan_id_of snapshot object ≡ suc vlan
    → HasVlan snapshot object (suc vlan)
unfolding vlan_id_of
vlan_id_of-HasVlan snapshot object vlan h =
    let key = object +++ ".VLANID" in
    elim (Option-cases (positive_value (find key snapshot))) [
      | inl nothing ↦
          let e : vlan_id_of snapshot object ≡ first_folded key snapshot =
            rw (nothing, vlan_id_of) refl in
          first_folded-HasVlan snapshot object vlan (sym e ∙ h)
      | inr (n, found) ↦
          let e : vlan_id_of snapshot object ≡ n = rw (found, vlan_id_of) refl in
          let (value, given, read) = positive_value-given (find key snapshot) n found in
          (
            key,
            value,
            find-HasEntry key value snapshot given,
            eq_refl (to_lower key),
            positive-number (atoi value) (suc vlan) (read ∙ ap (λ i. some i) (sym e ∙ h)),
          )
    ]

value_of-find :
    (k : String) (d : Dict String)
    → str_eq (value_of k d) "" ≡ false
    → find k d ≡ some (value_of k d)
unfolding value_of
value_of-find k d h = elim (Option-cases (find k d)) [
  | inl missing ↦
      let e : value_of k d ≡ "" = rw (missing, value_of) refl in
      absurd (true≢false (sym ((eq_iff (value_of k d) "").1 e) ∙ h))
  | inr (v, found) ↦
      let e : value_of k d ≡ v = rw (found, value_of) refl in found ∙ ap (λ i. some i) (sym e)
]

module _ (snapshot : Dict String) where
  -- The object is reached by fewer references than there are rounds, and has the VLAN.
  abbrev pub Found : ℕ → String → ℕ → Type 0
  Found rounds current vlan =
      (n : ℕ) × (object : String) × (n < rounds)
      × Reaches snapshot n current object
      × (names_vlan object ≡ true)
      × HasVlan snapshot object vlan

  first_vlan-Found :
      (rounds : ℕ) (current : String) (vlan : ℕ)
      → first_vlan snapshot rounds current ≡ suc vlan
      → Found rounds current (suc vlan)
  unfolding first_vlan Reaches is_vlan_termination object_of lower_layers next_reference vlan_id_of
  first_vlan-Found zero current vlan h = absurd (omega (arith, h))
  first_vlan-Found (suc rounds) current vlan h =
      let object = trim_suffix current "." in
      let lower = value_of (object +++ ".LowerLayers") snapshot in
      elim (Bool-cases (str_eq current "")) [
        | inl empty ↦
            let e : first_vlan snapshot (suc rounds) current ≡ 0 = rw (empty, first_vlan) refl in
            absurd (omega (arith, e, h))
        | inr given ↦ elim (Bool-cases (names_vlan object)) [
          | inl vlan_here ↦
              let e : first_vlan snapshot (suc rounds) current ≡ vlan_id_of snapshot object =
                rw (given, vlan_here, first_vlan) refl in
              (
                0,
                object,
                omega arith,
                (given, refl),
                vlan_here,
                vlan_id_of-HasVlan snapshot object vlan (sym e ∙ h),
              )
          | inr plain ↦ elim (Bool-cases (str_eq lower "")) [
            | inl ends ↦
                let e : first_vlan snapshot (suc rounds) current ≡ 0 =
                  rw (given, plain, ends, first_vlan) refl in
                absurd (omega (arith, e, h))
            | inr more ↦
                let (first, others, parts) = split-nonempty b',' lower in
                let e : first_vlan snapshot (suc rounds) current
                    ≡ first_vlan snapshot rounds (trim_space (first_part (split b',' lower))) =
                  rw (given, plain, more, first_vlan) refl in
                let next : first_vlan snapshot rounds (trim_space (first_part (split b',' lower)))
                    ≡ first_vlan snapshot rounds (trim_space first) =
                  ap (λ ps. first_vlan snapshot rounds (trim_space (first_part ps))) parts in
                let (n, found, less, reached, is, has) =
                  first_vlan-Found rounds (trim_space first) vlan (sym next ∙ sym e ∙ h) in
                (
                  suc n,
                  found,
                  omega arith,
                  (
                    given,
                    plain,
                    (
                      trim_space first,
                      (
                        (lower, first, others, value_of-find _ snapshot more, more, parts, refl),
                        reached,
                      ),
                    ),
                  ),
                  is,
                  has,
                )
          ]
        ]
      ]

  -- A VLAN that is found is positive, and is the VLANID of a VLANTermination in the snapshot, which at most three
  -- references lead to from the given one. Each of them is the first in the LowerLayers of an object that is no
  -- VLANTermination itself.
  pub resolve_vlan_from_chain-Found :
      (lower : String) (vlan : ℕ)
      → resolve_vlan_from_chain snapshot lower ≡ suc vlan
      → Found 4 (trim_space lower) (suc vlan)
  resolve_vlan_from_chain-Found lower vlan h =
      first_vlan-Found 4 (trim_space lower) vlan
        (sym (resolve_vlan_from_chain-first_vlan snapshot lower) ∙ h)

  vlan_id_of-given :
      (object value : String) (vlan : ℕ)
      → find (object +++ ".VLANID") snapshot ≡ some value
      → atoi value ≡ number (pos (suc vlan))
      → vlan_id_of snapshot object ≡ suc vlan
  unfolding vlan_id_of positive_value
  vlan_id_of-given object value vlan given read =
      let e : positive_value (find (object +++ ".VLANID") snapshot) ≡ some (suc vlan) =
        ap positive_value given ∙ ap positive read in
      rw (e, vlan_id_of) refl

  first_vlan-reached :
      (rounds n : ℕ) (current object value : String) (vlan : ℕ)
      → n < rounds
      → Reaches snapshot n current object
      → names_vlan object ≡ true
      → find (object +++ ".VLANID") snapshot ≡ some value
      → atoi value ≡ number (pos (suc vlan))
      → first_vlan snapshot rounds current ≡ suc vlan
  unfolding first_vlan Reaches is_vlan_termination object_of lower_layers next_reference vlan_id_of
  first_vlan-reached zero n current object value vlan less reached is given read =
      absurd (omega arith)
  first_vlan-reached (suc rounds) zero current object value vlan less (named, same) is given read =
      let here : names_vlan (trim_suffix current ".") ≡ true = rw same is in
      rw (named, here)
        (ap (vlan_id_of snapshot) same ∙ vlan_id_of-given object value vlan given read)
  first_vlan-reached (suc rounds) (suc n) current object value vlan less
        (named, plain, (next, ((lower, first, others, stored, more, parts, trimmed), reached))) is
        given read =
      let stays : value_of (trim_suffix current "." +++ ".LowerLayers") snapshot ≡ lower =
        rw (stored, value_of) refl in
      let goes_on : str_eq (value_of (trim_suffix current "." +++ ".LowerLayers") snapshot) ""
          ≡ false =
        rw stays more in
      rw (named, plain, goes_on)
        (ap (λ l. first_vlan snapshot rounds (trim_space (first_part (split b',' l)))) stays
          ∙ ap (λ ps. first_vlan snapshot rounds (trim_space (first_part ps))) parts
          ∙ ap (first_vlan snapshot rounds) trimmed
          ∙ first_vlan-reached rounds n next object value vlan (omega arith) reached is given read)

  -- The VLAN of a VLANTermination is found, when it has a positive VLANID in the snapshot and at most three references
  -- lead to it from the given one, each of them the first in the LowerLayers of an object that is no VLANTermination
  -- itself.
  pub resolve_vlan_from_chain-reached :
      (lower : String) (n : ℕ) (object value : String) (vlan : ℕ)
      → n < 4
      → Reaches snapshot n (trim_space lower) object
      → names_vlan object ≡ true
      → find (object +++ ".VLANID") snapshot ≡ some value
      → atoi value ≡ number (pos (suc vlan))
      → resolve_vlan_from_chain snapshot lower ≡ suc vlan
  resolve_vlan_from_chain-reached lower n object value vlan less reached is given read =
      resolve_vlan_from_chain-first_vlan snapshot lower
      ∙ first_vlan-reached 4 n (trim_space lower) object value vlan less reached is given read
