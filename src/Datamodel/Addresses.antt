-- ===== src/Datamodel/Addresses.antt =====
-- `isPrivateIP` and `isPublicIP` of internal/datamodel/instances.go.
pub mod Routable
mod Tests
use helix_acs.Prelude.{
  ℕ, ◌+◌, ◌-◌, ◌*◌, ◌/◌, String, Bool, true, false, not, ◌&&◌, ◌||◌, List, [], ◌∷◌, Option, none,
  some, ◌==◌, if◌then◌else◌,
}
use Prim.Native.Nat.{◌^◌}

-- An IPv4 address as a number of 32 bits.
abbrev pub address : ℕ → ℕ → ℕ → ℕ → ℕ
address a b c d = ((a * 256 + b) * 256 + c) * 256 + d

-- A network: an address and the length of its prefix.
abbrev pub contains : ℕ × ℕ → ℕ → Bool
contains (network, len) ip = let size = 2 ^ (32 - len) in ip / size == network / size

abbrev pub private_ranges : List (ℕ × ℕ)
private_ranges =
    (address 10 0 0 0, 8)
    ∷ (address 172 16 0 0, 12)
    ∷ (address 192 168 0 0, 16)
    ∷ (address 127 0 0 0, 8)
    ∷ (address 169 254 0 0, 16)
    ∷ (address 100 64 0 0, 10)
    ∷ []

abbrev pub contained : List (ℕ × ℕ) → ℕ → Bool
contained [] ip = false
contained (r ∷ ranges) ip = contains r ip || contained ranges ip

-- What net.ParseIP makes of a text: no address, one without an IPv4 form, or the IPv4 form.
abbrev pub private : Option (Option ℕ) → Bool
private none = false
private (some none) = false
private (some (some ip)) = contained private_ranges ip

unfoldable pub is_private_ip : (String → Option (Option ℕ)) → String → Bool
is_private_ip parse_ip s = private (parse_ip s)

abbrev pub is_loopback : ℕ → Bool
is_loopback ip = ip / 2 ^ 24 == 127

abbrev pub is_link_local_unicast : ℕ → Bool
is_link_local_unicast ip = ip / 2 ^ 16 == 169 * 256 + 254

abbrev pub public : Bool → Option (Option ℕ) → Bool
public is_private none = false
public is_private (some none) = false
public is_private (some (some ip)) =
    if is_loopback ip || is_link_local_unicast ip || ip == 0 then false else not is_private

unfoldable pub is_public_ip : (String → Option (Option ℕ)) → String → Bool
unfolding is_private_ip
is_public_ip parse_ip s = public (is_private_ip parse_ip s) (parse_ip s)
