-- ===== src/Datamodel/Addresses/Routable.antt =====
-- Which IPv4 addresses are public, as intervals of numbers of 32 bits.
use helix_acs.Prelude.{ℕ, ◌≤◌, ◌<◌, ◌≡◌, ◌↔◌, refl, String, true, Option, none, some, arith}
use helix_acs.Datamodel.Addresses.{
  address, contained, private_ranges, private, public, is_private_ip, is_public_ip,
}

-- An address of one interval is at least the first and below the second bound.
abbrev pub Within : ℕ → ℕ → ℕ → Type 0
Within low high ip = (low ≤ ip) × (ip < high)

-- Not the unspecified address, and outside of the private networks, the loopback, the link-local and the
-- carrier's addresses.
abbrev pub IsRoutable : ℕ → Type 0
IsRoutable ip =
    ¬ (ip ≡ 0)
    × ¬ Within (address 10 0 0 0) (address 11 0 0 0) ip
    × ¬ Within (address 172 16 0 0) (address 172 32 0 0) ip
    × ¬ Within (address 192 168 0 0) (address 192 169 0 0) ip
    × ¬ Within (address 127 0 0 0) (address 128 0 0 0) ip
    × ¬ Within (address 169 254 0 0) (address 169 255 0 0) ip
    × ¬ Within (address 100 64 0 0) (address 100 128 0 0) ip

public_iff :
    (ip : ℕ) → (public (contained private_ranges ip) (some (some ip)) ≡ true) ↔ IsRoutable ip
public_iff ip = ground arith

public_read :
    (read : Option (Option ℕ))
    → (public (private read) read ≡ true) ↔ ((ip : ℕ) × (read ≡ some (some ip)) × IsRoutable ip)
public_read none = ((λ h. absurd (cc)), (λ (ip, e, r). absurd (cc)))
public_read (some none) = ((λ h. absurd (cc)), (λ (ip, e, r). absurd (cc)))
public_read (some (some ip)) = (
  (λ h. (ip, refl, (public_iff ip).0 h)),
  (λ (other, e, r). let same : ip ≡ other = cc in (public_iff ip).1 (rw same r)),
)

-- A text is public exactly when it is read as an IPv4 address that is routable.
pub is_public_ip-IsRoutable :
    (parse_ip : String → Option (Option ℕ)) (s : String)
    → (is_public_ip parse_ip s ≡ true) ↔ ((ip : ℕ) × (parse_ip s ≡ some (some ip)) × IsRoutable ip)
unfolding is_public_ip is_private_ip
is_public_ip-IsRoutable parse_ip s = public_read (parse_ip s)
