-- ===== src/Base/Addresses.antt =====
-- IP addresses and networks as Python's `ipaddress` reads them from texts. IPv4 is written out; how
-- IPv6 is written is a parameter.
use Prim.Native.Nat.{ℕ, zero, suc, ◌+◌, ◌-◌, ◌*◌, ◌/◌, ◌^◌}
use mathlib.Core.Path.{◌≡◌, refl}
use mathlib.Core.Bool.{Bool, true, false, not, ◌&&◌}
use mathlib.Core.Option.{Option, none, some}
use mathlib.Core.List.{List, [], ◌∷◌}
use power_blockade.Base.Tests.{leb, ◌==◌, nat_eq, list_eq, if◌then◌else◌}
use power_blockade.Base.Lists.{length}
use power_blockade.Base.Options.{◌>>=◌}
use power_blockade.Base.Texts.{Text, codes, split_on}
use power_blockade.Base.Decimal.{value_from}

-- An address by its number.
pub data IpAddress : Type 0 where
  v4 v6 : ℕ → IpAddress

-- A network by the number of an address in it and the length of its prefix.
pub data IpNetwork : Type 0 where
  v4_network v6_network : ℕ → ℕ → IpNetwork

-- How IPv6 addresses and networks are read.
pub record Ipv6 : Type 0 where
  pub read_address : Text → Option ℕ
  pub read_network : Text → Option (ℕ × ℕ)

abbrev pub digits_only : Text → Bool
digits_only [] = true
digits_only (c ∷ s) = (leb b'0' c && leb c b'9') && digits_only s

abbrev pub leading_zero : Text → Bool
leading_zero [] = false
leading_zero (c ∷ []) = false
leading_zero (c ∷ d ∷ s) = c == b'0'

-- One octet: one to three digits, no leading zero, at most 255.
unfoldable pub octet : Text → Option ℕ
octet [] = none
octet (c ∷ s) =
    let n = value_from 0 (c ∷ s) in
    if digits_only (c ∷ s) && (leb (length s) 2 && (not (leading_zero (c ∷ s)) && leb n 255))
    then some n
    else none

abbrev pub four_octets : List Text → Option ℕ
unfolding octet
four_octets (a ∷ b ∷ c ∷ d ∷ []) = do
  a' ← octet a
  b' ← octet b
  c' ← octet c
  d' ← octet d
  some (((a' * 256 + b') * 256 + c') * 256 + d')
four_octets _ = none

unfoldable pub ipv4_address : Text → Option ℕ
unfolding split_on four_octets
ipv4_address s = four_octets (split_on b'.' s)

-- The prefix of at most `k` bits whose mask is the number.
unfoldable pub mask_prefix : ℕ → ℕ → Option ℕ
mask_prefix zero mask = if mask == 0 then some 0 else none
mask_prefix (suc k) mask =
    let shorter = mask_prefix k mask in
    if mask == 2 ^ 32 - 2 ^ (31 - k) then some (suc k) else shorter

abbrev pub or_hostmask : ℕ → Option ℕ → Option ℕ
unfolding mask_prefix
or_hostmask mask (some p) = some p
or_hostmask mask none = mask_prefix 32 (2 ^ 32 - 1 - mask)

-- A mask written as an address: a netmask, or else a hostmask.
unfoldable pub mask_of_address : Option ℕ → Option ℕ
unfolding mask_prefix or_hostmask
mask_of_address none = none
mask_of_address (some mask) = or_hostmask mask (mask_prefix 32 mask)

-- What stands behind the slash: a number of bits, or else a mask.
unfoldable pub netmask : Text → Option ℕ
unfolding mask_of_address ipv4_address
netmask [] = none
netmask (c ∷ s) =
    if digits_only (c ∷ s) && leb (value_from 0 (c ∷ s)) 32
    then some (value_from 0 (c ∷ s))
    else mask_of_address (ipv4_address (c ∷ s))

abbrev pub network_parts : List Text → Option (ℕ × ℕ)
unfolding ipv4_address netmask
network_parts (address ∷ []) = do base ← ipv4_address address; some (base, 32)
network_parts (address ∷ mask ∷ []) = do
  base ← ipv4_address address
  prefix ← netmask mask
  some (base, prefix)
network_parts _ = none

unfoldable pub ipv4_network : Text → Option (ℕ × ℕ)
unfolding split_on network_parts
ipv4_network s = network_parts (split_on b'/' s)

abbrev pub or_v6 : Option ℕ → Option ℕ → Option IpAddress
or_v6 (some n) second = some (v4 n)
or_v6 none none = none
or_v6 none (some n) = some (v6 n)

abbrev pub or_v6_network : Option (ℕ × ℕ) → Option (ℕ × ℕ) → Option IpNetwork
or_v6_network (some (base, prefix)) second = some (v4_network base prefix)
or_v6_network none none = none
or_v6_network none (some (base, prefix)) = some (v6_network base prefix)

-- `ipaddress.ip_address(s)`; `none` is its ValueError.
unfoldable pub ip_address : Ipv6 → Text → Option IpAddress
unfolding ipv4_address
ip_address ipv6 s = or_v6 (ipv4_address s) (ipv6.read_address s)

-- `ipaddress.ip_network(s, strict=False)`
unfoldable pub ip_network : Ipv6 → Text → Option IpNetwork
unfolding ipv4_network
ip_network ipv6 s = or_v6_network (ipv4_network s) (ipv6.read_network s)

-- `address in network`: of one version, and with the same bits in front.
unfoldable pub in_network : IpAddress → IpNetwork → Bool
in_network (v4 n) (v4_network base prefix) = n / 2 ^ (32 - prefix) == base / 2 ^ (32 - prefix)
in_network (v6 n) (v6_network base prefix) = n / 2 ^ (128 - prefix) == base / 2 ^ (128 - prefix)
in_network _ _ = false

abbrev only_v4 : Ipv6
only_v4 = record { read_address = λ s. none; read_network = λ s. none }

reads_network : ip_network only_v4 (codes "10.1.2.3/255.255.0.0") ≡ some (v4_network 167838211 16)
unfolding ip_network ipv4_network ipv4_address netmask mask_of_address mask_prefix octet split_on
reads_network = refl

refuses_octet : ip_address only_v4 (codes "10.1.2.03") ≡ none
unfolding ip_address ipv4_address octet split_on
refuses_octet = refl
