-- ===== src/Provider.antt =====
-- src/provider_agent.c: the agent beside a provider. Each consumer agent that connects gets a relay:
-- connection 1 to the consumer agent, connection 2 to the dubbo server, a buffer for either, and the
-- translation of requests and of responses between them.
--   Relay      what is read from either connection, and what is written for it
--   Requests   a whole connection of requests from a consumer agent
--   Results    the answers of a connection of the dubbo server, as HTTP answers
--   Answers    the read callback of connection 2 over such a connection
--   Life       how a relay comes to be, connects, reconnects, closes and is freed
--   Ownership  the blocks of a relay, from its start to its end
--   Probe      the attempts to reach the dubbo server before the agent listens
--   Register   what is announced to etcd
pub mod Relay
pub mod Requests
pub mod Results
pub mod Answers
pub mod Life
pub mod Ownership
pub mod Probe
pub mod Register
mod Tests
