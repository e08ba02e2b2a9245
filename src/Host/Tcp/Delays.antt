-- ===== src/Host/Tcp/Delays.antt =====
-- The delay of Serve between two calls of Accept.
use amp_host_go.Base.{
  ℕ, zero, suc, ◌*◌, ◌^◌, ◌<◌, ◌≡◌, ap, ◌∙◌, true, false, List, [], ◌∷◌, none, ltb, if◌then◌else◌,
  arith,
}
use amp_host_go.Host.Tcp.{TcpServer, Event, accept_fails, serve_step, run_server}

abbrev pub failures : ℕ → List Event
failures zero = []
failures (suc n) = accept_fails false ∷ failures n

abbrev pub capped : ℕ → ℕ
capped d = if ltb 1000 d then 1000 else d

doubling :
    (n : ℕ) (srv : TcpServer) (d : ℕ)
    → srv.serving ≡ true
    → srv.starting ≡ none
    → 0 < d
    → srv.err_delay ≡ capped d
    → (run_server (failures n) srv).err_delay ≡ capped (d * 2 ^ n)
unfolding run_server serve_step
doubling zero srv d s t p e = let one : d ≡ d * 2 ^ 0 = omega arith in e ∙ ap capped one
doubling (suc n) srv d s t p e =
    let double : 2 ^ suc n ≡ 2 * 2 ^ n = omega arith in
    let same : d * 2 * 2 ^ n ≡ d * 2 ^ suc n = omega (arith, ap (λ (t : ℕ). d * t) double) in
    doubling n (serve_step (accept_fails false) srv).0 (d * 2) (ground arith) (ground arith)
      (omega arith) (ground arith)
    ∙ ap capped same

-- The delay before Accept is called again, after `n + 1` errors of Accept in a row that follow a
-- connection or the start, while Serve goes on: 5 ms doubled `n` times, and at most a second.
pub failures_delay :
    (n : ℕ) (srv : TcpServer)
    → srv.serving ≡ true
    → srv.starting ≡ none
    → srv.err_delay ≡ 0
    → (run_server (failures (suc n)) srv).err_delay ≡ capped (5 * 2 ^ n)
unfolding run_server serve_step
failures_delay n srv s t e =
    doubling n (serve_step (accept_fails false) srv).0 5 (ground arith) (ground arith) (omega arith)
      (ground arith)
