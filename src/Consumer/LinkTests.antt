-- ===== src/Consumer/LinkTests.antt =====
-- src/consumer_agent.c: a loop with two provider agents, of which one is lost and connected again, and
-- a loop to which clients connect.
use service_mesh_agent.Base.{◌≡◌, refl, List, [], ◌∷◌, Exec, done, true, false, arith}
use service_mesh_agent.LoadBalancer.{LoadBalancer}
use service_mesh_agent.Base.Int.{pos, ◌+ℤ◌, ◌-ℤ◌, ◌≤ℤ◌}
use service_mesh_agent.Uv.{Heap, eof}
use service_mesh_agent.Consumer.State.{TcpServer, init_tcp_server_t, init_http_req_t, deref}
use service_mesh_agent.Consumer.Serve.{negative, c_read_connection_data, close_client}
use service_mesh_agent.Consumer.Events.{client_read, step}
use service_mesh_agent.Consumer.Clients.{
  Arrival, arrives, callback, other_loop, arrival_step, arrival_run, IsTimely, most_clients,
  clients_bounded,
}
use service_mesh_agent.Consumer.Connect.{on_new_connection, conn_limit}
use service_mesh_agent.Consumer.Listening.{LinkEvent, attempted, ended, closed}

abbrev two_ends : LoadBalancer
two_ends = record { num_of_ends = 2; history_diff_time_lst = [] }

abbrev heap : Heap
heap = record { next = 1; live = [] }

abbrev first_lost : List LinkEvent
first_lost = attempted 0 false ∷ attempted 0 true ∷ ended 0 ∷ closed 0 ∷ attempted 0 true ∷ []

abbrev empty_server : TcpServer
empty_server = init_tcp_server_t 0 [] 0 two_ends

abbrev arrivals : List Arrival
arrivals =
    arrives [] [] (pos 5) (pos 0) heap true true
    ∷ other_loop (pos 256)
    ∷ arrives [] [] (pos 6) (pos 0) heap true true
    ∷ callback (client_read 0 eof (pos 7))
    ∷ []

abbrev server : Exec TcpServer → TcpServer
server (done s) = s
server m = empty_server

abbrev served : TcpServer
served = server (arrival_run (λ text. negative) arrivals empty_server)

serves : arrival_run (λ text. negative) arrivals empty_server ≡ done served
unfolding arrival_run arrival_step on_new_connection conn_limit init_tcp_server_t step deref
    c_read_connection_data close_client init_http_req_t ◌+ℤ◌ ◌-ℤ◌
serves = refl

timely : IsTimely true arrivals
unfolding IsTimely most_clients ◌-ℤ◌
timely = (omega arith, (omega arith, (omega arith, tt)))

clients_bounded_example : served.global_conn_remain_count ≤ℤ pos 256
unfolding most_clients init_tcp_server_t
clients_bounded_example =
    clients_bounded (λ text. negative) true arrivals empty_server served serves timely (omega arith)
