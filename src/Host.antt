-- ===== src/Host.antt =====
-- src/utils/utils.c, what is asked of the host: the addresses of its interfaces, of other hosts, the
-- time, a garbage collection of a Java process, floats as they lie in memory.
--   Interfaces  the address of an interface by its name
pub mod Interfaces
mod Tests
use service_mesh_agent.Base.{
  ℕ, ◌+◌, ◌*◌, List, [], ◌∷◌, Bytes, Exec, done, exit, ◌>>=◌, require, slice, write, ltb, length,
  if◌then◌else◌, eq_bytes, Option, none, some, Bool, true, false, ◌&&◌, codes,
}
use service_mesh_agent.Base.Int.{ℤ, pos, ltb_ℤ}

-- sa_family: AF_INET, AF_INET6 or another.
pub data Family : Type 0 where
  inet inet6 other : Family

-- An entry of getifaddrs, with what getnameinfo says of its address, none if that fails.
pub record Interface : Type 0 where
  pub ifa_name : Bytes
  pub family : Option Family
  pub host : Option Bytes

-- An address of IPv4 or IPv6 is looked up, one of IPv4 is kept if the name is the one asked for.
unfoldable pub look_up : Bytes → Interface → Family → Bytes → Exec Bytes
look_up eth_name ifa other res = done res
look_up eth_name ifa inet res = elim ifa.host [
  | none ↦ exit
  | some host ↦ done (if eq_bytes eth_name ifa.ifa_name then host else res)
]
look_up eth_name ifa inet6 res = elim ifa.host [ none ↦ exit | some host ↦ done res ]

unfoldable pub walk : Bytes → List Interface → Bytes → Exec Bytes
walk eth_name [] res = done res
walk eth_name (ifa ∷ ifaddr) res = elim ifa.family [
  | none ↦ walk eth_name ifaddr res
  | some family ↦ look_up eth_name ifa family res >>= walk eth_name ifaddr
]

-- none is a failure of getifaddrs.
unfoldable pub host_ip_addr : Option (List Interface) → Bytes → Exec Bytes
unfolding walk
host_ip_addr none eth_name = exit
host_ip_addr (some ifaddr) eth_name = walk eth_name ifaddr []

-- What inet_ntoa says of the first address of gethostbyname, none if there is no such host; the result
-- has room for fifteen chars and a 0.
unfoldable pub resolve_to_ip4_str : Option Bytes → Exec (Option Bytes)
resolve_to_ip4_str none = done none
resolve_to_ip4_str (some address) = require (ltb (length address) 16) >>= λ _. done (some address)

-- gettimeofday: seconds and microseconds, none if it fails.
unfoldable pub get_wall_time : Option (ℕ × ℕ) → ℕ
get_wall_time none = 0
get_wall_time (some (tv_sec, tv_usec)) = tv_sec * 1000000 + tv_usec

-- `nspid` is static, -1 at first. Attaching to the process and the command to it are parameters. The
-- result with what is kept.
unfoldable pub manual_jvm_gc : (ℤ → ℤ) → (ℤ → List Bytes → ℤ) → ℤ → ℤ → ℤ × ℤ
manual_jvm_gc init_jvm_comm_socket jvm_run_cmd nspid java_pid =
    let nspid = if ltb_ℤ nspid (pos 0) then init_jvm_comm_socket java_pid else nspid in
    (jvm_run_cmd nspid (codes "jcmd" ∷ codes "GC.run" ∷ []), nspid)
