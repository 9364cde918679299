-- ===== src/Provider/Register.antt =====
-- src/provider_agent.c, the scale of the provider in init_provider, and the key that on_resolved puts to
-- etcd for it.
use service_mesh_agent.Base.{ℕ, ◌∷◌, ◌++◌, if◌then◌else◌, Bytes, Exec, done, exit, codes, eq_bytes}
use service_mesh_agent.Text.{decimal}

unfoldable pub init_provider : Bytes → Exec ℕ
init_provider provider_type =
    if eq_bytes provider_type (codes "provider-small")
    then done b'0'
    else (if eq_bytes provider_type (codes "provider-medium")
        then done b'1'
        else (if eq_bytes provider_type (codes "provider-large") then done b'2' else exit))

abbrev pub service_key : Bytes
service_key = codes "/dubbomesh/com.alibaba.dubbo.performance.demo.provider.IHelloService/"

-- sprintf (buff, ".../%c:%s:%d", provider_scale, addr, server_port): an int has at most ten digits.
unfoldable pub registered_key : ℕ → Bytes → ℕ → Bytes
registered_key provider_scale addr server_port =
    service_key ++ (provider_scale ∷ b':' ∷ (addr ++ b':' ∷ decimal 10 server_port))
