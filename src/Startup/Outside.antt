-- ===== src/Startup/Outside.antt =====
-- What the starting agents ask of etcd, libuv and the resolver, and how these answer. The answers are
-- parameters, in one record.
use service_mesh_agent.Base.{ℕ, List, Bytes, Bool, Option}
use service_mesh_agent.Uv.{Request, Heap}
use service_mesh_agent.Registry.Etcd.{Token, Response}

-- `address` is what on_resolved is told, none if status is not 0; `refusals` says how many attempts of
-- the probe fail; `listens` says in which loops uv_listen returns 0; `raw` is the memory of a buffer.
pub record Outside : Type 0 where
  pub perform : Bytes → Bytes → Response
  pub jsmn_parse : Bytes → List Token
  pub b64_encode : Bytes → Bytes
  pub b64_decode : Bytes → Bytes
  pub resolves : Bool
  pub address : Option Bytes
  pub refusals : ℕ
  pub listens : ℕ → Bool
  pub heap : Heap
  pub raw : Bytes

-- A key is put to etcd under a lease, with the result that curl gives; the thread that keeps the lease
-- is started; libuv is asked, by the main loop or by a loop of its own thread.
pub data Action : Type 0 where
  put : Bytes → Bytes → Bool → Action
  keep_alive : Bytes → Action
  asks : List Request → Action
  runs : ℕ → List Request → Action
