-- ===== src/Startup/Tests.antt =====
-- src/main.c on concrete arguments.
use service_mesh_agent.Base.{◌+◌, [], ◌∷◌, Bytes, some, true, false, codes}
use service_mesh_agent.Text.{atoi}
use service_mesh_agent.Registry.Etcd.{Token, Response}
use service_mesh_agent.Provider.Register.{registered_key}
use service_mesh_agent.Startup.Outside.{Outside}

abbrev outer : Token
outer = record { is_string = false; start = 0; end = 10 }

abbrev id_token : Token
id_token = record { is_string = true; start = 2; end = 4 }

abbrev lease_token : Token
lease_token = record { is_string = true; start = 7; end = 8 }

abbrev answered : Bytes → Bytes → Response
answered url fields = record { ok = true; pieces = codes "{\"ID\"" ∷ codes ":\"7\"}" ∷ [] }

abbrev outside : Outside
outside = record {
  perform = answered;
  jsmn_parse = λ json. outer ∷ id_token ∷ lease_token ∷ [];
  b64_encode = λ s. s;
  b64_decode = λ s. s;
  resolves = true;
  address = some (codes "10.0.0.7");
  refusals = 2;
  listens = λ tid. true;
  heap = record { next = 5; live = 3 ∷ [] };
  raw = [];
}

abbrev key : Bytes
key = registered_key (1 + b'0') (codes "10.0.0.7") (atoi (codes "30000"))
