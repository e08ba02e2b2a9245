-- ===== src/Tests/TcpRuns.antt =====
-- Runs of the TCP server, and the theorems about it at them.
use amp_host_go.Base.{◌*◌, ◌^◌, ◌≡◌, refl, true, false, List, [], ◌∷◌}
use amp_host_go.Base.Assoc.{lookup, insert, delete}
use amp_host_go.Host.Tcp.{
  TcpServer, new_tcp_server, start_service, run_server, serve_step, Event, accepts, starts_session,
  closes_session, stops, sweeps,
}
use amp_host_go.Host.Tcp.Delays.{failures, capped, failures_delay}
use amp_host_go.Host.Tcp.Tracking.{IsTracked}
use amp_host_go.Host.Tcp.Runs.{run_server-IsTracked}
use amp_host_go.Host.Tcp.Stuck.{IsStuck, refused-IsStuck}

abbrev started : TcpServer
started = (start_service true true new_tcp_server).0

abbrev three_clients : List Event
three_clients =
    accepts
    ∷ starts_session true
    ∷ accepts
    ∷ starts_session false
    ∷ accepts
    ∷ starts_session true
    ∷ closes_session 2
    ∷ stops
    ∷ sweeps
    ∷ []

run_three_clients : (run_server three_clients started).closed ≡ 0 ∷ 2 ∷ 1 ∷ []
unfolding run_server serve_step start_service lookup insert delete
run_three_clients = refl

run_server-IsTracked_example :
    IsTracked 1 (run_server three_clients (start_service true true new_tcp_server).0)
run_server-IsTracked_example = run_server-IsTracked three_clients 1

failures_delay_example : (run_server (failures 9) started).err_delay ≡ capped (5 * 2 ^ 8)
unfolding start_service
failures_delay_example = failures_delay 8 started refl refl refl

-- One client is served when Stop begins.
abbrev stopping : TcpServer
stopping = run_server (accepts ∷ starts_session true ∷ stops ∷ []) started

refused-IsStuck_example :
    IsStuck
      (record stopping { closed = stopping.next_conn ∷ stopping.closed })
      (run_server (sweeps ∷ closes_session 0 ∷ []) (serve_step accepts stopping).0)
unfolding run_server serve_step start_service
refused-IsStuck_example =
    refused-IsStuck (sweeps ∷ closes_session 0 ∷ []) stopping refl refl refl refl
