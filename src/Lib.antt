-- ===== src/Lib.antt =====
-- service-mesh-agent: two agents between a consumer and its providers.
--
-- The consumer agent (src/consumer_agent.c) takes HTTP POST requests, chooses a provider agent by the
-- recent response times (src/utils/loadBalancer.c) and sends it the body behind twelve bytes: length
-- and request id. The provider agent (src/provider_agent.c) makes a dubbo request of the body
-- (src/utils/tokenizer.c), sends it to the dubbo server, and turns the answer into an HTTP response
-- under the same id, which the consumer agent passes to the client. Providers register with etcd
-- (src/utils/etcd.c). Two queues (src/utils/blockQueue.c, src/utils/http_req_queue.c) stand beside.
--
-- Base          tests on numbers, C arrays as lists, the results of C code, memory, words
-- Uv            what is asked of libuv, what a read callback is told, blocks of the heap
-- Text          strtok, atoi and %d
-- Codec         src/utils/utils.c: lengths, ids, floats and small numbers as bytes
-- Host          src/utils/utils.c: addresses of interfaces and hosts, the time
-- Framing       the receive loop of the three read callbacks, and a whole connection through it
-- Tokenizer     src/utils/tokenizer.c and tokenizer_fast_req.c
-- Provider      src/provider_agent.c: Relay (what is read and written), Requests, Results and
--               Answers (whole connections), Life, Ownership and Probe (blocks and handles), Register
-- Consumer      src/consumer_agent.c: State; Serve, Sending, Forward and Sent (requests); Answer,
--               Reply, Deliver, Delivered and Replies (answers); Connect, Clients, Listening,
--               Blocks, Links and Reached (connections); Events, Slots and Kept (any order of
--               callbacks)
-- Mesh          both agents together, from the request of a client to its answer
-- Startup       src/main.c, provider() and consumer(): from the call to the running event loops
-- LoadBalancer  src/utils/loadBalancer.c
-- BlockQueue    src/utils/blockQueue.c
-- RequestQueue  src/utils/http_req_queue.c
-- AtomicInteger src/utils/atomic_integer.h
-- Registry      src/utils/etcd.c, str_to_server_uri of src/utils/utils.c, init_consumer
--
-- A function of C code is a function into Exec (Base/Runs): done, exit, fault for undefined behaviour,
-- no_fuel. State is passed and returned; what is asked of libuv is a list of requests in order. A
-- buffer is a list of bytes; int, short and int64_t values are their bit patterns, except in the load
-- balancer, where they are integers without a bound (LoadBalancer/Bounds has the runs in which none
-- leaves its C type). A short of the tokenizer that leaves its range is a fault. Memory from malloc has
-- any content, given as a parameter.
--
-- Loops that search memory run on the length of the memory plus one as fuel, the receive loop on the
-- number of received bytes plus one: each round advances, and the theorems on forms and on connections
-- show that the result is reached. Numbers printed with %d have ten digits at most.
--
-- Parameters: phr_parse_request, jsmn_parse, base64, what curl, the host and libuv return, the time.
-- Not modelled: the scheduling of the threads, the options of the sockets, the callbacks of uv_write, which
-- free what has been written, logging (a copy of rxi/log.c), attaching to a JVM (a copy of jattach), the
-- tests. A message whose length is negative as a short is counted as a fault in generate_res_in_place;
-- the code writes in front of the string then.
pub mod AtomicInteger
pub mod Base
pub mod BlockQueue
pub mod Codec
pub mod Consumer
pub mod Framing
pub mod Host
pub mod LoadBalancer
pub mod Mesh
pub mod Provider
pub mod Registry
pub mod RequestQueue
pub mod Startup
pub mod Text
pub mod Tokenizer
pub mod Uv
