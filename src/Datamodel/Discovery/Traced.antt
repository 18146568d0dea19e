-- ===== src/Datamodel/Discovery/Traced.antt =====
-- A chain of LowerLayers is followed to its end.
use Prim.Native.String.{[], ◌∷◌}
use text.Mathlib.TextLemmas.{nil-append, cons-append}
use helix_acs.Prelude.{
  ℕ, ◌≡◌, ◌≤◌, refl, ap, ◌∙◌, String, true, false, List, some, ◌==◌, str_eq, arith, ltb,
}
use helix_acs.Text.{◌+++◌, itoa}
use helix_acs.Text.Prefixes.{has_prefix-append, drop_chars-append, cons-eq-nil_test}
use helix_acs.Text.Numbers.{atoi_or_zero, max_int, AllDigits, IsNumeral, IsNumeral-itoa, atoi-itoa}
use helix_acs.Dict.{Dict, find}
use helix_acs.Datamodel.Model.{InstanceMap}
use helix_acs.Datamodel.Discovery.{
  natural, vlan_value, with_vlan, Piece, literal, digits, span_digits, match_here, match_within,
  matched_index, value_index, index_within, reference, discover_tr181_vlan, with_vlan_term,
  with_eth_link, with_gpon, with_vlan_id,
}

match_within-here :
    (ps : List Piece) (s : String) (m : String × String)
    → match_here ps s ≡ some m
    → match_within ps s ≡ some m
unfolding match_within
match_within-here ps [] m h = h
match_within-here ps (c ∷ s) m h = rw (h, match_within) refl

span_digits-append : (s : String) → AllDigits s → span_digits (s +++ ".") ≡ (s, ".")
unfolding span_digits
span_digits-append [] _ = ap span_digits (nil-append ".")
span_digits-append (c ∷ s) (h, hs) = rw (cons-append, h, span_digits-append s hs) refl

numeral-str_eq : (s : String) → IsNumeral s → str_eq s "" ≡ false
numeral-str_eq [] h = absurd h
numeral-str_eq (c ∷ s) h = cons-eq-nil_test c s

numeral-AllDigits : (s : String) → IsNumeral s → AllDigits s
numeral-AllDigits [] h = absurd h
numeral-AllDigits (c ∷ s) h = h

-- A reference to an instance is read back.
match_here-reference :
    (t s : String)
    → IsNumeral s
    → match_here
        (List.◌∷◌ (literal t) (List.◌∷◌ digits (List.◌∷◌ (literal ".") List.[])))
        (t +++ (s +++ "."))
      ≡ some (s, "")
unfolding match_here
match_here-reference t s h =
    rw
      (
        has_prefix-append t (s +++ "."),
        drop_chars-append t (s +++ "."),
        span_digits-append s (numeral-AllDigits s h),
        numeral-str_eq s h,
      )
      (ap (λ x. some (x.0, ""))
        (ap span_digits (drop_chars-append t (s +++ "."))
          ∙ span_digits-append s (numeral-AllDigits s h)))

index_within-reference :
    (t : String) (n : ℕ)
    → n ≤ max_int
    → index_within
        (List.◌∷◌ (literal t) (List.◌∷◌ digits (List.◌∷◌ (literal ".") List.[])))
        (t +++ (itoa n +++ "."))
      ≡ some n
unfolding index_within
index_within-reference t n h =
    ap matched_index (
      match_within-here (List.◌∷◌ (literal t) (List.◌∷◌ digits (List.◌∷◌ (literal ".") List.[]))) _
        _ (match_here-reference t (itoa n) (IsNumeral-itoa n)))
    ∙ ap (λ x. some (natural (atoi_or_zero x))) (atoi-itoa n h)

with_gpon-positive :
    (gpon : ℕ) (im : InstanceMap)
    → ltb 0 gpon ≡ true
    → with_gpon (some gpon) im ≡ record im { free_gpon_link_idx = gpon }
with_gpon-positive gpon im h = rw h refl

append_nonempty : (t u : String) → str_eq t "" ≡ false → str_eq (t +++ u) "" ≡ false
append_nonempty [] u h = ground arith
append_nonempty (c ∷ t) u h = rw cons-append (cons-eq-nil_test c (t +++ u))

module _ (params : Dict String) where
  reference-find :
      (t key : String) (n : ℕ)
      → n ≤ max_int
      → str_eq t "" ≡ false
      → find key params ≡ some (t +++ (itoa n +++ "."))
      → reference
          (List.◌∷◌ (literal t) (List.◌∷◌ digits (List.◌∷◌ (literal ".") List.[])))
          key
          params
        ≡ some n
  unfolding reference
  reference-find t key n h given e =
      ap (value_index (List.◌∷◌ (literal t) (List.◌∷◌ digits (List.◌∷◌ (literal ".") List.[])))) e
      ∙ rw (append_nonempty t _ given) (index_within-reference t n h)

  -- A PPP interface stands on a VLAN over Ethernet over GPON: when the LowerLayers of each object name the next,
  -- and the VLAN has a number, then the discovery finds just these instances and this number.
  pub discover_tr181_vlan-chain :
      (im : InstanceMap) (vlan_term vlan eth gpon : ℕ)
      → (im.ppp_iface_idx == 0) ≡ false
      → vlan_term ≤ max_int
      → vlan ≤ max_int
      → eth ≤ max_int
      → ltb 0 gpon ≡ true
      → gpon ≤ max_int
      → find ("Device.PPP.Interface." +++ itoa im.ppp_iface_idx +++ ".LowerLayers") params
        ≡ some ("Device.Ethernet.VLANTermination." +++ (itoa vlan_term +++ "."))
      → find ("Device.Ethernet.VLANTermination." +++ itoa vlan_term +++ ".VLANID") params
        ≡ some (itoa vlan)
      → find ("Device.Ethernet.VLANTermination." +++ itoa vlan_term +++ ".LowerLayers") params
        ≡ some ("Device.Ethernet.Link." +++ (itoa eth +++ "."))
      → find ("Device.Ethernet.Link." +++ itoa eth +++ ".LowerLayers") params
        ≡ some ("Device.X_TP_GPON.Link." +++ (itoa gpon +++ "."))
      → discover_tr181_vlan params im ≡ record im {
        wan_vlan_term_idx = vlan_term;
        wan_current_vlan = vlan;
        wan_eth_link_idx = eth;
        free_gpon_link_idx = gpon;
      }
  unfolding discover_tr181_vlan
  discover_tr181_vlan-chain im vlan_term vlan eth gpon given hv hn he positive hg ppp id lower
        link =
      let vlan_id : String = "Device.Ethernet.VLANTermination." +++ itoa vlan_term +++ ".VLANID" in
      let numbered = record im { wan_vlan_term_idx = vlan_term; wan_current_vlan = vlan } in
      let linked = record numbered { wan_eth_link_idx = eth } in
      rw given (
        ap (λ r. with_vlan_term params r im)
          (reference-find "Device.Ethernet.VLANTermination." _ vlan_term hv refl ppp)
        ∙ ap
            (λ r.
              with_eth_link params r
                (with_vlan_id (find vlan_id params) (record im { wan_vlan_term_idx = vlan_term })))
            (reference-find "Device.Ethernet.Link." _ eth he refl lower)
        ∙ ap
            (λ v.
              with_eth_link params (some eth)
                (with_vlan_id v (record im { wan_vlan_term_idx = vlan_term })))
            id
        ∙ ap
            (λ v.
              with_eth_link params (some eth)
                (with_vlan (vlan_value v) (record im { wan_vlan_term_idx = vlan_term })))
            (atoi-itoa vlan hn)
        ∙ ap (λ r. with_gpon r linked) (reference-find "Device.X_TP_GPON.Link." _ gpon hg refl link)
        ∙ with_gpon-positive gpon linked positive)
