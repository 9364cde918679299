-- ===== src/Host/Interfaces.antt =====
-- src/utils/utils.c, hostIPaddr against the list of the addresses that it is asked for.
use service_mesh_agent.Base.{
  ◌≡◌, refl, List, [], ◌∷◌, ◌++◌, Bytes, done, exit, if◌then◌else◌, ◌&&◌, eq_bytes, Option, none,
  some, Bool, true, false, Bool-cases, inl, inr,
}
use service_mesh_agent.Host.{Family, inet, inet6, other, Interface, look_up, walk, host_ip_addr}

-- The address of an interface, if it is one of IPv4 and the name is the one asked for.
unfoldable pub address_of : Bytes → Bytes → Option Family → Option Bytes → List Bytes
address_of eth_name ifa_name none host = []
address_of eth_name ifa_name (some other) host = []
address_of eth_name ifa_name (some inet6) host = []
address_of eth_name ifa_name (some inet) none = []
address_of eth_name ifa_name (some inet) (some host) =
    if eq_bytes eth_name ifa_name then host ∷ [] else []

unfoldable pub addresses_of : Bytes → List Interface → List Bytes
unfolding address_of
addresses_of eth_name [] = []
addresses_of eth_name (ifa ∷ ifas) =
    address_of eth_name ifa.ifa_name ifa.family ifa.host ++ addresses_of eth_name ifas

-- Does getnameinfo say something of every address of IPv4 or IPv6?
unfoldable pub is_known : Option Family → Option Bytes → Bool
is_known none host = true
is_known (some other) host = true
is_known (some inet) none = false
is_known (some inet) (some host) = true
is_known (some inet6) none = false
is_known (some inet6) (some host) = true

unfoldable pub are_known : List Interface → Bool
unfolding is_known
are_known [] = true
are_known (ifa ∷ ifas) = is_known ifa.family ifa.host && are_known ifas

unfoldable pub last_or : Bytes → List Bytes → Bytes
last_or res [] = res
last_or res (host ∷ hosts) = last_or host hosts

abbrev Walks : Bytes → List Interface → Bytes → Type 0
Walks eth_name ifas res =
    walk eth_name ifas res
    ≡ (if are_known ifas then done (last_or res (addresses_of eth_name ifas)) else exit)

walk_on :
    (eth_name ifa_name : Bytes) (family : Option Family) (host : Option Bytes)
    (ifas : List Interface) (res : Bytes)
    → ((res : Bytes) → Walks eth_name ifas res)
    → Walks eth_name (record { ifa_name = ifa_name; family = family; host = host } ∷ ifas) res
unfolding walk look_up are_known addresses_of last_or
walk_on eth_name ifa_name none host ifas res h = h res
walk_on eth_name ifa_name (some other) host ifas res h = h res
walk_on eth_name ifa_name (some inet) none ifas res h = refl
walk_on eth_name ifa_name (some inet) (some host) ifas res h =
    elim (Bool-cases (eq_bytes eth_name ifa_name)) [ inl e ↦ rw e (h host) | inr e ↦ rw e (h res) ]
walk_on eth_name ifa_name (some inet6) none ifas res h = refl
walk_on eth_name ifa_name (some inet6) (some host) ifas res h = h res

walk_lem : (eth_name : Bytes) (ifas : List Interface) (res : Bytes) → Walks eth_name ifas res
unfolding walk are_known addresses_of last_or
walk_lem eth_name [] res = refl
walk_lem eth_name (ifa ∷ ifas) res =
    walk_on eth_name ifa.ifa_name ifa.family ifa.host ifas res (walk_lem eth_name ifas)

-- The result is the last address of IPv4 of an interface of that name, and empty if there is none; if
-- an address of IPv4 or IPv6 of any interface cannot be looked up, the program exits.
pub host_ip_addr_lem :
    (eth_name : Bytes) (ifas : List Interface)
    → host_ip_addr (some ifas) eth_name
      ≡ (if are_known ifas then done (last_or [] (addresses_of eth_name ifas)) else exit)
unfolding host_ip_addr
host_ip_addr_lem eth_name ifas = walk_lem eth_name ifas []
