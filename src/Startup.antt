-- ===== src/Startup.antt =====
-- src/main.c and the starts of both agents: what happens from the call of the program until the event
-- loops run.
--   Outside    what the outside answers, and what the program does, as values
--   Provider   init_provider, on_resolved, provider and p_start_listen of src/provider_agent.c
--   Consumer   consumer of src/consumer_agent.c
--   Main       the dispatch on the arguments
--   Announced  a provider that is started announces itself under a key that a consumer reads
pub mod Outside
pub mod Provider
pub mod Consumer
pub mod Main
pub mod Announced
mod Tests
