-- ===== src/Cwmp/Soap/Ranks.antt =====
-- The comparison is the one of a rank and, within a rank, of the names.
use helix_acs.Prelude.{
  ℕ, ◌≡◌, refl, sym, ◌∙◌, inl, inr, String, Bool, true, false, not, ◌&&◌, ◌||◌, if◌then◌else◌,
  str_eq, eq_iff, ltb, ◌==◌, Bool-cases,
}
use helix_acs.Text.{contains}
use helix_acs.Dict.{Dict, value_of}
use helix_acs.Text.Order.{text_lt}
use helix_acs.Cwmp.Soap.{
  leaf_of, is_disable, is_vlan, is_secure, is_enable, is_mode, comes_before, differ_bool,
}

-- What setting a parameter does, in the order in which it is wanted.
pub data Kind : Type 0 where
  disables sets_vlan sets_secret sets_other sets_mode enables : Kind

abbrev pub place : Kind → ℕ
place k = elim k [
  | disables ↦ 0
  | sets_vlan ↦ 1
  | sets_secret ↦ 2
  | sets_other ↦ 3
  | sets_mode ↦ 4
  | enables ↦ 5
]

-- By the last part of the path, the value, and whether the path goes through a VLAN termination.
unfoldable pub kind_of_leaf : String → String → Bool → Kind
kind_of_leaf leaf value in_vlan =
    if str_eq leaf "Enable"
    then if str_eq value "0" then disables else if str_eq value "1" then enables else sets_other
    else if str_eq leaf "VLANID"
    then if in_vlan then sets_vlan else sets_other
    else if str_eq leaf "Username"
        || str_eq leaf "Password"
        || str_eq leaf "KeyPassphrase"
        || str_eq leaf "PreSharedKey"
    then sets_secret
    else if str_eq leaf "ModeEnabled" || str_eq leaf "EncryptionMode"
    then sets_mode
    else sets_other

unfoldable pub kind_of : Dict String → String → Kind
unfolding kind_of_leaf
kind_of params name =
    kind_of_leaf (leaf_of name) (value_of name params) (contains name "VLANTermination")

abbrev is_kind : Kind → Kind → Bool
is_kind k l = place k == place l

-- The five flags of a parameter are those of its kind.
abbrev Flags : String → String → Bool → Kind → Type 0
Flags leaf value in_vlan k =
    ((str_eq leaf "Enable" && str_eq value "0") ≡ is_kind k disables)
    × (((in_vlan && str_eq leaf "VLANID") ≡ is_kind k sets_vlan)
        × (((str_eq leaf "Username"
                || str_eq leaf "Password"
                || str_eq leaf "KeyPassphrase"
                || str_eq leaf "PreSharedKey")
              ≡ is_kind k sets_secret)
            × (((str_eq leaf "Enable" && str_eq value "1") ≡ is_kind k enables)
                × ((str_eq leaf "ModeEnabled" || str_eq leaf "EncryptionMode")
                    ≡ is_kind k sets_mode))))

and_false : (b : Bool) → (b && false) ≡ false
and_false true = refl
and_false false = refl

and_true : (b : Bool) → (b && true) ≡ b
and_true true = refl
and_true false = refl

-- No mode among the secrets.
secret_not_mode :
    (leaf : String)
    → (str_eq leaf "Username"
        || str_eq leaf "Password"
        || str_eq leaf "KeyPassphrase"
        || str_eq leaf "PreSharedKey")
      ≡ true
    → (str_eq leaf "ModeEnabled" || str_eq leaf "EncryptionMode") ≡ false
secret_not_mode leaf h = elim (Bool-cases (str_eq leaf "Username")) [
  | inl u ↦ rw ((eq_iff leaf "Username").0 u) refl
  | inr not_u ↦ elim (Bool-cases (str_eq leaf "Password")) [
    | inl p ↦ rw ((eq_iff leaf "Password").0 p) refl
    | inr not_p ↦ elim (Bool-cases (str_eq leaf "KeyPassphrase")) [
      | inl k ↦ rw ((eq_iff leaf "KeyPassphrase").0 k) refl
      | inr not_k ↦
          let shared : str_eq leaf "PreSharedKey" ≡ true =
            (rw not_u (rw not_p (rw not_k refl))) ∙ h in
          rw ((eq_iff leaf "PreSharedKey").0 (sym (sym shared))) refl
    ]
  ]
]

kind_of_leaf-Flags :
    (leaf value : String) (in_vlan : Bool)
    → Flags leaf value in_vlan (kind_of_leaf leaf value in_vlan)
unfolding kind_of_leaf
kind_of_leaf-Flags leaf value in_vlan = elim (Bool-cases (str_eq leaf "Enable")) [
  | inl e ↦ rw ((eq_iff leaf "Enable").0 e) (elim (Bool-cases (str_eq value "0")) [
    | inl zero ↦ rw ((eq_iff value "0").0 zero) (refl, (and_false in_vlan, (refl, (refl, refl))))
    | inr nonzero ↦ rw nonzero (elim (Bool-cases (str_eq value "1")) [
      | inl one ↦ rw one (refl, (and_false in_vlan, (refl, (refl, refl))))
      | inr other ↦ rw other (refl, (and_false in_vlan, (refl, (refl, refl))))
    ])
  ])
  | inr not_enable ↦ rw not_enable (elim (Bool-cases (str_eq leaf "VLANID")) [
    | inl v ↦ rw ((eq_iff leaf "VLANID").0 v) (elim (Bool-cases in_vlan) [
      | inl inside ↦ rw inside (refl, (refl, (refl, (refl, refl))))
      | inr outside ↦ rw outside (refl, (refl, (refl, (refl, refl))))
    ])
    | inr not_vlan ↦
        rw not_vlan
          (elim (Bool-cases (
            str_eq leaf "Username"
            || str_eq leaf "Password"
            || str_eq leaf "KeyPassphrase"
            || str_eq leaf "PreSharedKey")) [
              | inl secret ↦
                  rw (secret, secret_not_mode leaf secret)
                    (refl, (and_false in_vlan, (refl, (refl, refl))))
              | inr not_secret ↦
                  rw not_secret
                    (elim (Bool-cases (str_eq leaf "ModeEnabled" || str_eq leaf "EncryptionMode")) [
                      | inl mode ↦ rw mode (refl, (and_false in_vlan, (refl, (refl, refl))))
                      | inr other ↦ rw other (refl, (and_false in_vlan, (refl, (refl, refl))))
                    ])
            ])
  ])
]

-- The comparison, on the kinds of the two names and on the order of the names.
abbrev compare : (b0 c0 b1 c1 b2 c2 b3 c3 b4 c4 less : Bool) → Bool
compare b0 c0 b1 c1 b2 c2 b3 c3 b4 c4 less =
    if differ_bool b0 c0
    then b0
    else if differ_bool b1 c1
    then b1
    else if differ_bool b2 c2
    then b2
    else if differ_bool b3 c3
    then not b3
    else if differ_bool b4 c4
    then not b4
    else less

abbrev pub ranked : Kind → Kind → Bool → Bool
ranked k l less = ltb (place k) (place l) || (place k == place l && less)

compare_kinds :
    (k l : Kind) (less : Bool)
    → compare
        (is_kind k disables)
        (is_kind l disables)
        (is_kind k sets_vlan)
        (is_kind l sets_vlan)
        (is_kind k sets_secret)
        (is_kind l sets_secret)
        (is_kind k enables)
        (is_kind l enables)
        (is_kind k sets_mode)
        (is_kind l sets_mode)
        less
      ≡ ranked k l less
compare_kinds disables disables less = refl
compare_kinds disables sets_vlan less = refl
compare_kinds disables sets_secret less = refl
compare_kinds disables sets_other less = refl
compare_kinds disables sets_mode less = refl
compare_kinds disables enables less = refl
compare_kinds sets_vlan disables less = refl
compare_kinds sets_vlan sets_vlan less = refl
compare_kinds sets_vlan sets_secret less = refl
compare_kinds sets_vlan sets_other less = refl
compare_kinds sets_vlan sets_mode less = refl
compare_kinds sets_vlan enables less = refl
compare_kinds sets_secret disables less = refl
compare_kinds sets_secret sets_vlan less = refl
compare_kinds sets_secret sets_secret less = refl
compare_kinds sets_secret sets_other less = refl
compare_kinds sets_secret sets_mode less = refl
compare_kinds sets_secret enables less = refl
compare_kinds sets_other disables less = refl
compare_kinds sets_other sets_vlan less = refl
compare_kinds sets_other sets_secret less = refl
compare_kinds sets_other sets_other less = refl
compare_kinds sets_other sets_mode less = refl
compare_kinds sets_other enables less = refl
compare_kinds sets_mode disables less = refl
compare_kinds sets_mode sets_vlan less = refl
compare_kinds sets_mode sets_secret less = refl
compare_kinds sets_mode sets_other less = refl
compare_kinds sets_mode sets_mode less = refl
compare_kinds sets_mode enables less = refl
compare_kinds enables disables less = refl
compare_kinds enables sets_vlan less = refl
compare_kinds enables sets_secret less = refl
compare_kinds enables sets_other less = refl
compare_kinds enables sets_mode less = refl
compare_kinds enables enables less = refl

-- On two names' flags, with the kinds that have those flags.
compare-Flags :
    (leaf value leaf' value' : String) (in_vlan in_vlan' : Bool) (k l : Kind) (less : Bool)
    → Flags leaf value in_vlan k
    → Flags leaf' value' in_vlan' l
    → compare
        (str_eq leaf "Enable" && str_eq value "0")
        (str_eq leaf' "Enable" && str_eq value' "0")
        (in_vlan && str_eq leaf "VLANID")
        (in_vlan' && str_eq leaf' "VLANID")
        (str_eq leaf "Username"
          || str_eq leaf "Password"
          || str_eq leaf "KeyPassphrase"
          || str_eq leaf "PreSharedKey")
        (str_eq leaf' "Username"
          || str_eq leaf' "Password"
          || str_eq leaf' "KeyPassphrase"
          || str_eq leaf' "PreSharedKey")
        (str_eq leaf "Enable" && str_eq value "1")
        (str_eq leaf' "Enable" && str_eq value' "1")
        (str_eq leaf "ModeEnabled" || str_eq leaf "EncryptionMode")
        (str_eq leaf' "ModeEnabled" || str_eq leaf' "EncryptionMode")
        less
      ≡ ranked k l less
compare-Flags leaf value leaf' value' in_vlan in_vlan' k l less (f0, (f1, (f2, (f3, f4))))
      (g0, (g1, (g2, (g3, g4)))) =
    rw (f0, g0, f1, g1, f2, g2, f3, g3, f4, g4) (compare_kinds k l less)

pub comes_before-kind_of :
    (params : Dict String) (i j : String)
    → comes_before params i j ≡ ranked (kind_of params i) (kind_of params j) (text_lt i j)
unfolding comes_before is_disable is_vlan is_secure is_enable is_mode kind_of
comes_before-kind_of params i j =
    compare-Flags (leaf_of i) (value_of i params) (leaf_of j) (value_of j params)
      (contains i "VLANTermination") (contains j "VLANTermination") (kind_of params i)
      (kind_of params j) (text_lt i j)
      (kind_of_leaf-Flags (leaf_of i) (value_of i params) (contains i "VLANTermination"))
      (kind_of_leaf-Flags (leaf_of j) (value_of j params) (contains j "VLANTermination"))
