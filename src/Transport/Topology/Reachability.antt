-- ===== src/Transport/Topology/Reachability.antt =====
-- How the topology judges an address, core/transport/src/topology.rs: the part of an IP address in a
-- multiaddress, whose parser is the argument `parse`. An IPv4 address is its four bytes and an IPv6
-- address its eight segments of 16 bits.
use voidnet.Base.{
  ℕ, ◌/◌, Bool, true, false, ◌&&◌, ◌||◌, Option, none, some, List, [], ◌∷◌, ◌++◌, Text, leb, ◌==◌,
  if◌then◌else◌,
}
use voidnet.Transport.Topology.Kinds.{NetworkReachability}
use voidnet.Transport.Topology.Kinds.NetworkReachability.{unknown, private, public}

pub record Ipv4Addr : Type 0 where
  pub a : ℕ
  pub b : ℕ
  pub c : ℕ
  pub d : ℕ

-- The first segment and the seven others.
pub record Ipv6Addr : Type 0 where
  pub first : ℕ
  pub rest : List ℕ

pub data IpAddr : Type 0 where
  v4 : Ipv4Addr → IpAddr
  v6 : Ipv6Addr → IpAddr

-- The parts of a multiaddress.
pub data Protocol : Type 0 where
  ip4 : Ipv4Addr → Protocol
  ip6 : Ipv6Addr → Protocol
  other : Text → Protocol

abbrev pub is_unspecified_v4 : Ipv4Addr → Bool
is_unspecified_v4 ip = ip.a == 0 && ip.b == 0 && ip.c == 0 && ip.d == 0

abbrev pub is_loopback_v4 : Ipv4Addr → Bool
is_loopback_v4 ip = ip.a == 127

abbrev pub is_link_local : Ipv4Addr → Bool
is_link_local ip = ip.a == 169 && ip.b == 254

abbrev pub is_broadcast : Ipv4Addr → Bool
is_broadcast ip = ip.a == 255 && ip.b == 255 && ip.c == 255 && ip.d == 255

abbrev pub is_private : Ipv4Addr → Bool
is_private ip =
    ip.a == 10 || (ip.a == 172 && leb 16 ip.b && leb ip.b 31) || (ip.a == 192 && ip.b == 168)

unfoldable pub is_private_v4 : Ipv4Addr → Bool
is_private_v4 ip = is_private ip || is_link_local ip || is_broadcast ip

abbrev pub are_zero : List ℕ → Bool
are_zero [] = true
are_zero (x ∷ xs) = x == 0 && are_zero xs

abbrev pub end_in_one : List ℕ → Bool
end_in_one [] = false
end_in_one (x ∷ []) = x == 1
end_in_one (x ∷ xs) = x == 0 && end_in_one xs

abbrev pub is_unspecified_v6 : Ipv6Addr → Bool
is_unspecified_v6 ip = ip.first == 0 && are_zero ip.rest

abbrev pub is_loopback_v6 : Ipv6Addr → Bool
is_loopback_v6 ip = ip.first == 0 && end_in_one ip.rest

-- fc00::/7
abbrev pub is_unique_local : Ipv6Addr → Bool
is_unique_local ip = ip.first / 512 == 126

-- fe80::/10
abbrev pub is_unicast_link_local : Ipv6Addr → Bool
is_unicast_link_local ip = ip.first / 64 == 1018

unfoldable pub is_private_v6 : Ipv6Addr → Bool
is_private_v6 ip = is_unique_local ip || is_unicast_link_local ip

unfoldable pub classify_ip : IpAddr → Option NetworkReachability
unfolding is_private_v4 is_private_v6
classify_ip (v4 ip) =
    if is_unspecified_v4 ip || is_loopback_v4 ip || is_link_local ip
    then some unknown
    else if is_private_v4 ip
    then some private
    else some public
classify_ip (v6 ip) =
    if is_unspecified_v6 ip || is_loopback_v6 ip
    then some unknown
    else if is_private_v6 ip
    then some private
    else some public

abbrev pub classify : Protocol → Option NetworkReachability
classify (ip4 ip) = classify_ip (v4 ip)
classify (ip6 ip) = classify_ip (v6 ip)
classify (other _) = none

unfoldable pub find_map : List Protocol → Option NetworkReachability
unfolding classify_ip
find_map [] = none
find_map (p ∷ ps) = elim (classify p) [ none ↦ find_map ps | some r ↦ some r ]

abbrev pub rank : NetworkReachability → ℕ
rank unknown = 0
rank private = 1
rank public = 2

-- `max_by_key`: of two equal ones the later
unfoldable pub max_by_rank : List NetworkReachability → Option NetworkReachability
max_by_rank [] = none
max_by_rank (r ∷ rs) = elim (max_by_rank rs) [
  | none ↦ some r
  | some later ↦ if leb (rank r) (rank later) then some later else some r
]

module _ (parse : Text → Option (List Protocol)) where
  unfoldable pub parse_address_reachability : Text → Option NetworkReachability
  unfolding find_map
  parse_address_reachability address = elim (parse address) [ none ↦ none | some ps ↦ find_map ps ]

  -- `filter_map(parse_address_reachability)`
  unfoldable pub parsed : List Text → List NetworkReachability
  parsed [] = []
  parsed (address ∷ addresses) = elim (parse_address_reachability address) [
    | none ↦ parsed addresses
    | some r ↦ r ∷ parsed addresses
  ]

  abbrev pub or_unknown : Option NetworkReachability → NetworkReachability
  or_unknown none = unknown
  or_unknown (some r) = r

  unfoldable pub infer_reachability : List Text → List Text → NetworkReachability
  infer_reachability listen_addresses observed_addresses =
      or_unknown (max_by_rank (parsed (observed_addresses ++ listen_addresses)))
