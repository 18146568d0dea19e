-- ===== src/Datamodel/Addresses/Tests.antt =====
-- Tests and examples of the classification of addresses.
use helix_acs.Prelude.{
  ℕ, String, ◌≡◌, refl, ◌↔◌, true, false, Option, some, none, str_eq, if◌then◌else◌,
}
use helix_acs.Datamodel.Addresses.{address, is_private_ip, is_public_ip}
use helix_acs.Datamodel.Addresses.Routable.{IsRoutable, is_public_ip-IsRoutable}

abbrev parse_ip : String → Option (Option ℕ)
parse_ip s =
    if str_eq s "8.8.8.8"
    then some (some (address 8 8 8 8))
    else if str_eq s "100.70.1.2"
    then some (some (address 100 70 1 2))
    else if str_eq s "224.0.0.1"
    then some (some (address 224 0 0 1))
    else if str_eq s "::1"
    then some none
    else none

private_and_public :
    (is_private_ip parse_ip "100.70.1.2" ≡ true)
    × (is_public_ip parse_ip "100.70.1.2" ≡ false)
    × (is_private_ip parse_ip "8.8.8.8" ≡ false)
    × (is_public_ip parse_ip "8.8.8.8" ≡ true)
    × (is_public_ip parse_ip "::1" ≡ false)
    × (is_public_ip parse_ip "224.0.0.1" ≡ true)
unfolding is_private_ip is_public_ip
private_and_public = (refl, refl, refl, refl, refl, refl)

is_public_ip-IsRoutable_example :
    (is_public_ip parse_ip "8.8.8.8" ≡ true)
    ↔ ((ip : ℕ) × (parse_ip "8.8.8.8" ≡ some (some ip)) × IsRoutable ip)
is_public_ip-IsRoutable_example = is_public_ip-IsRoutable parse_ip "8.8.8.8"
