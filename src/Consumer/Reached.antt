-- ===== src/Consumer/Reached.antt =====
-- src/consumer_agent.c: an event loop from its start, while connections are made, lost and made again.
use service_mesh_agent.Base.{ℕ, ◌<◌, List, [], ◌∷◌}
use service_mesh_agent.LoadBalancer.{LoadBalancer}
use service_mesh_agent.Consumer.Listening.{LinkEvent, attempted, ended, closed}

-- The endpoint of each event is one of the `n`.
unfoldable pub AreOf : ℕ → List LinkEvent → Type 0
AreOf n [] = Unit
AreOf n (attempted which ok ∷ events) = (which < n) × AreOf n events
AreOf n (ended which ∷ events) = (which < n) × AreOf n events
AreOf n (closed which ∷ events) = (which < n) × AreOf n events
