-- ===== src/Consumer.antt =====
-- src/consumer_agent.c: the agent beside the consumer. It takes HTTP requests, chooses a provider
-- agent for each, sends the body there under a new request id, and passes the answer back.
--   State      the state of one event loop: connections, requests under way, endpoints
--   Serve      from an HTTP request to the provider agent
--   Sending    what is sent for a whole request
--   Forward    a request in one or in several reads
--   Answer     from a provider agent back to the client
--   Reply      one answer, to the client and to the load balancer
--   Deliver, Delivered, Replies
--              a whole connection of answers
--   Sent       a request that has been sent is under way
--   Connect    accepting clients, connecting to the provider agents
--   Links      every block that is freed is there, and every callback returns
--   Reached    a loop from its start: it returns from every callback, and listens once
--   Clients    how many clients are served at a time
--   Blocks     the blocks that the endpoints hold
--   Listening  when the loop listens for clients
--   Events     the callbacks of an event loop in any order
--   Slots, Kept
--              what they do to the dictionary of requests
pub mod State
pub mod Serve
pub mod Sending
pub mod Forward
pub mod Events
pub mod Slots
pub mod Kept
pub mod Answer
pub mod Reply
pub mod Deliver
pub mod Delivered
pub mod Sent
pub mod Replies
pub mod Connect
pub mod Blocks
pub mod Listening
pub mod Links
pub mod Reached
pub mod Clients
mod Tests
mod LinkTests
