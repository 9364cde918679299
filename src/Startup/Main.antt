-- ===== src/Startup/Main.antt =====
-- src/main.c.
use service_mesh_agent.Base.{
  List, [], ltb, if◌then◌else◌, Bytes, Exec, done, ◌>>=◌, must, get_elem?, length, take, codes,
  eq_bytes, Bool, true, false,
}
use service_mesh_agent.Text.{atoi}
use service_mesh_agent.Startup.Outside.{Outside, Action}
use service_mesh_agent.Startup.Provider.{provider}
use service_mesh_agent.Startup.Consumer.{consumer}

-- true for the result 0. strcmp compares whole strings, strncmp the first eight bytes.
unfoldable pub main : Outside → List Bytes → Exec (Bool × List Action)
main o argv =
    if ltb (length argv) 6
    then done (false, [])
    else (must (get_elem? argv 1) >>= λ agent_type. must (get_elem? argv 2) >>= λ port.
        must (get_elem? argv 4) >>= λ etcd_url.
        if eq_bytes agent_type (codes "consumer")
        then (consumer o etcd_url >>= λ actions. done (true, actions))
        else (if eq_bytes (take 8 agent_type) (codes "provider")
            then (provider o agent_type (atoi port) etcd_url >>= λ actions. done (true, actions))
            else done (true, [])))
