-- ===== src/Registry.antt =====
-- src/utils/etcd.c and str_to_server_uri of src/utils/utils.c: providers announce themselves under a
-- key of etcd, the consumer reads the keys.
--   Etcd       the requests to etcd, and what is taken from its answers
--   Uri        scale, address and port in a key
--   RoundTrip  a key that a provider announces is read back as it was meant
--   Endpoints  the keys in an answer of etcd
--   Discovered the endpoints that the consumer knows from such keys
pub mod Etcd
pub mod Uri
pub mod RoundTrip
pub mod Endpoints
pub mod Discovered
mod Tests
