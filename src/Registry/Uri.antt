-- ===== src/Registry/Uri.antt =====
-- src/utils/utils.c, str_to_server_uri, and src/consumer_agent.c, init_consumer: the endpoints that the
-- consumer's side knows.
use service_mesh_agent.Base.{
  ℕ, List, [], ◌∷◌, ltb, ◌==◌, if◌then◌else◌, Bytes, Exec, done, exit, ◌>>=◌, must, require,
  get_elem?, length, drop, Option, none, some, Bool, true, false, not,
}
use service_mesh_agent.LoadBalancer.{LoadBalancer, init_load_balancer}
use service_mesh_agent.Text.{tokens, atoi}

pub record Endpoint : Type 0 where
  pub scale : ℕ
  pub addr : Bytes
  pub port : ℕ

-- The last token, and NULL of a string without one.
unfoldable pub last_token : List Bytes → Option Bytes
last_token [] = none
last_token (t ∷ ts) = elim (last_token ts) [ none ↦ some t | some u ↦ some u ]

unfoldable pub scale_of : ℕ → Exec ℕ
scale_of c =
    if c == b'0'
    then done 0
    else (if c == b'1' then done 1 else (if c == b'2' then done 2 else exit))

-- The address is copied to 256 bytes, its final 0 included.
unfoldable pub str_to_server_uri : Bytes → Exec Endpoint
unfolding last_token scale_of
str_to_server_uri str = do
  server_uri ← must (last_token (tokens b'/' (drop 1 str)))
  let parts = tokens b':' server_uri
  pch ← must (get_elem? parts 0)
  first ← must (get_elem? pch 0)
  scale ← scale_of first
  addr ← must (get_elem? parts 1)
  _ ← require (ltb (length addr) 256)
  port ← must (get_elem? parts 2)
  done (record { scale = scale; addr = addr; port = atoi port })

unfoldable pub read_endpoints : List Bytes → Exec (List Endpoint)
unfolding str_to_server_uri
read_endpoints [] = done []
read_endpoints (s ∷ ss) = do e ← str_to_server_uri s; es ← read_endpoints ss; done (e ∷ es)

abbrev pub exit_unless : Bool → Exec (Unit {0})
exit_unless true = done tt
exit_unless false = exit

-- `result` is what etcd_get returns.
unfoldable pub init_consumer : Exec (Bool × List Bytes) → Exec (List Endpoint × LoadBalancer)
unfolding read_endpoints
init_consumer result = do
  r ← result
  _ ← exit_unless r.0
  let num_endpoint_servers = length r.1
  _ ← exit_unless (not (num_endpoint_servers == 0))
  endpoints ← read_endpoints r.1
  lb ← init_load_balancer num_endpoint_servers
  done (endpoints, lb)
