-- ===== src/Host/Tests.antt =====
-- src/utils/utils.c on concrete interfaces.
use service_mesh_agent.Base.{◌≡◌, List, [], ◌∷◌, done, some, none, codes}
use service_mesh_agent.Host.{Interface, inet, inet6, host_ip_addr}
use service_mesh_agent.Host.Interfaces.{addresses_of, are_known, last_or, host_ip_addr_lem}

abbrev interfaces : List Interface
interfaces =
    record { ifa_name = codes "lo"; family = some inet; host = some (codes "127.0.0.1") }
    ∷ record { ifa_name = codes "eth0"; family = none; host = none }
    ∷ record { ifa_name = codes "eth0"; family = some inet; host = some (codes "10.0.0.7") }
    ∷ record { ifa_name = codes "eth0"; family = some inet6; host = some (codes "fe80") }
    ∷ []

host_ip_addr_lem_example : host_ip_addr (some interfaces) (codes "eth0") ≡ done (codes "10.0.0.7")
unfolding are_known addresses_of last_or
host_ip_addr_lem_example = host_ip_addr_lem (codes "eth0") interfaces
