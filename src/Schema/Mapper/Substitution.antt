-- ===== src/Schema/Mapper/Substitution.antt =====
-- What the placeholders of a template become.
use helix_acs.Prelude.{
  ℕ, true, zero, suc, ltb, refl, ap, ◌∙◌, List, [], ◌∷◌, String, ◌≡◌, All, arith,
}
use helix_acs.Text.{◌+++◌, itoa}
use helix_acs.Text.Replace.{Lacks, StartWith, replacer_absent}
use helix_acs.Text.Tokens.{differ, IsPrefixFree, replacer-tokens}
use helix_acs.Datamodel.Model.{InstanceMap, index_or, band_index_or}
use helix_acs.Schema.Mapper.{SchemaMapper, placeholders, substitute, safe_idx, safe_int}

placeholders-StartWith : (im : InstanceMap) → StartWith b'{' (placeholders im)
unfolding placeholders
placeholders-StartWith im = omega arith

placeholders-IsPrefixFree : (im : InstanceMap) → IsPrefixFree (placeholders im)
unfolding placeholders differ
placeholders-IsPrefixFree im = ground arith

-- A template without an opening brace is its own path.
pub substitute_plain : (m : SchemaMapper) (tpl : String) → Lacks b'{' tpl → substitute m tpl ≡ tpl
unfolding substitute
substitute_plain m tpl h =
    replacer_absent b'{' (placeholders m.instance_map) tpl (placeholders-StartWith m.instance_map) h

-- The objects that have an instance for each of two bands, and those that have one, with its default.
abbrev pub banded : InstanceMap → List (String × List ℕ)
banded im =
    ("ssid", im.wifi_ssid_indices)
    ∷ ("radio", im.wifi_radio_indices)
    ∷ ("ap", im.wifi_ap_indices)
    ∷ ("wlan", im.wlan_indices)
    ∷ []

abbrev pub single : InstanceMap → List (String × ℕ × ℕ)
single im =
    ("wan", im.wan_ip_iface_idx, 1)
    ∷ ("lan", im.lan_ip_iface_idx, 2)
    ∷ ("ppp", im.ppp_iface_idx, 1)
    ∷ ("wan_dev", im.wan_device_idx, 1)
    ∷ ("wan_conn", im.wan_conn_dev_idx, 1)
    ∷ ("wan_ip_conn", im.wan_ip_conn_idx, 1)
    ∷ ("wan_ppp_conn", im.wan_ppp_conn_idx, 1)
    ∷ ("lan_dev", im.lan_device_idx, 1)
    ∷ []

-- An instance that was not discovered is 0, or missing.
abbrev pub discovered_or : ℕ → ℕ → ℕ
discovered_or zero fallback = fallback
discovered_or (suc n) fallback = suc n

abbrev pub nth_or : List ℕ → ℕ → ℕ → ℕ
nth_or [] n fallback = fallback
nth_or (i ∷ is) zero fallback = discovered_or i fallback
nth_or (i ∷ is) (suc n) fallback = nth_or is n fallback

-- Behind text without braces the placeholder becomes the number, and the substitution goes on behind it.
abbrev pub Becomes : SchemaMapper → String → ℕ → Type 0
Becomes m token n =
    (a b : String)
    → Lacks b'{' a
    → substitute m (a +++ (token +++ b)) ≡ a +++ (itoa n +++ substitute m b)

index_or-discovered : (n fallback : ℕ) → index_or n fallback ≡ discovered_or n fallback
unfolding index_or
index_or-discovered zero fallback = refl
index_or-discovered (suc n) fallback =
    let h : ltb 0 (suc n) ≡ true = ground arith in rw (h, index_or) refl

band_index_or-nth :
    (is : List ℕ) (n fallback : ℕ) → band_index_or is n fallback ≡ nth_or is n fallback
unfolding band_index_or index_or
band_index_or-nth [] n fallback = refl
band_index_or-nth (i ∷ is) zero fallback = index_or-discovered i fallback
band_index_or-nth (i ∷ is) (suc n) fallback = band_index_or-nth is n fallback

safe_int-discovered : (n fallback : ℕ) → safe_int n fallback ≡ itoa (discovered_or n fallback)
unfolding safe_int
safe_int-discovered n fallback = ap itoa (index_or-discovered n fallback)

safe_idx-nth : (is : List ℕ) (n fallback : ℕ) → safe_idx is n fallback ≡ itoa (nth_or is n fallback)
unfolding safe_idx
safe_idx-nth is n fallback = ap itoa (band_index_or-nth is n fallback)

-- A row of the table.
abbrev Row : SchemaMapper → String → String → Type 0
Row m token s =
    (a b : String)
    → Lacks b'{' a
    → substitute m (a +++ (token +++ b)) ≡ a +++ (s +++ substitute m b)

Row-Becomes :
    (m : SchemaMapper) (token s : String) (n : ℕ) → s ≡ itoa n → Row m token s → Becomes m token n
Row-Becomes m token s n e h = λ a b l. h a b l ∙ ap (λ t. a +++ (t +++ substitute m b)) e

Row-nth_or :
    (m : SchemaMapper) (token : String) (is : List ℕ) (n fallback : ℕ)
    → Row m token (safe_idx is n fallback)
    → Becomes m token (nth_or is n fallback)
Row-nth_or m token is n fallback =
    Row-Becomes m token _ (nth_or is n fallback) (safe_idx-nth is n fallback)

Row-discovered_or :
    (m : SchemaMapper) (token : String) (n fallback : ℕ)
    → Row m token (safe_int n fallback)
    → Becomes m token (discovered_or n fallback)
Row-discovered_or m token n fallback =
    Row-Becomes m token _ (discovered_or n fallback) (safe_int-discovered n fallback)

-- The placeholders of the objects, such as {ssid_0} and {wan}, become the instances that were discovered, or their
-- defaults, which are 1 and 2 for the two bands. This holds at whatever place of a template they stand behind text
-- without braces; so no placeholder is taken for another, as {wan} for {wan_dev}.
pub substitute-placeholders :
    (m : SchemaMapper)
    → All
        (λ e.
          Becomes m ("{" +++ (e.0 +++ "_0}")) (nth_or e.1 0 1)
          × Becomes m ("{" +++ (e.0 +++ "_1}")) (nth_or e.1 1 2))
        (banded m.instance_map)
      × All (λ e. Becomes m ("{" +++ (e.0 +++ "}")) (discovered_or e.1 e.2)) (single m.instance_map)
unfolding substitute placeholders
substitute-placeholders m =
    let im = m.instance_map in
    let (
      s0,
      (
        s1,
        (
          r0,
          (
            r1,
            (
              a0,
              (
                a1,
                (wan, (lan, (ppp, (dev, (conn, (ip_conn, (ppp_conn, (lan_dev, (w0, (w1, _)))))))))),
              ),
            ),
          ),
        ),
      ),
    ) =
      replacer-tokens b'{' (placeholders im) (placeholders-StartWith im)
        (placeholders-IsPrefixFree im) in
    (
      (
        (Row-nth_or m _ im.wifi_ssid_indices 0 1 s0, Row-nth_or m _ im.wifi_ssid_indices 1 2 s1),
        (
          (
            Row-nth_or m _ im.wifi_radio_indices 0 1 r0,
            Row-nth_or m _ im.wifi_radio_indices 1 2 r1,
          ),
          (
            (Row-nth_or m _ im.wifi_ap_indices 0 1 a0, Row-nth_or m _ im.wifi_ap_indices 1 2 a1),
            ((Row-nth_or m _ im.wlan_indices 0 1 w0, Row-nth_or m _ im.wlan_indices 1 2 w1), tt),
          ),
        ),
      ),
      (
        Row-discovered_or m _ im.wan_ip_iface_idx 1 wan,
        (
          Row-discovered_or m _ im.lan_ip_iface_idx 2 lan,
          (
            Row-discovered_or m _ im.ppp_iface_idx 1 ppp,
            (
              Row-discovered_or m _ im.wan_device_idx 1 dev,
              (
                Row-discovered_or m _ im.wan_conn_dev_idx 1 conn,
                (
                  Row-discovered_or m _ im.wan_ip_conn_idx 1 ip_conn,
                  (
                    Row-discovered_or m _ im.wan_ppp_conn_idx 1 ppp_conn,
                    (Row-discovered_or m _ im.lan_device_idx 1 lan_dev, tt),
                  ),
                ),
              ),
            ),
          ),
        ),
      ),
    )
