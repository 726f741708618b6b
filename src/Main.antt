-- ===== src/Main.antt =====
-- src/main.cpp: the port, the start, the loop over `Tick` until a signal has come, and the end with
-- `Stop` and the destructor.
pub mod Ends
pub mod Files
pub mod Restarts
use redis_like.Base.{
  ℕ, zero, suc, Bool, true, false, Option, none, some, List, [], ◌∷◌, ◌++◌, Bytes, ℤ, pos,
  if◌then◌else◌,
}
use redis_like.Ds.SkipList.{Rolls}
use redis_like.EventLoop.Sockets.{Network, create_listen_socket}
use redis_like.Server.{Clock}
use redis_like.Server.Host.{System, Host}
use redis_like.Server.Host.Program.{tick, init, stop}

-- `kDefaultPort`
abbrev pub default_port : ℤ
default_port = pos 6379

-- the port of the command line, by what `std::atoi` gives for a text
unfoldable pub port_of : (Bytes → ℤ) → List Bytes → ℤ
port_of atoi (program ∷ port ∷ _) = atoi port
port_of atoi _ = default_port

-- the rounds of `while (!g_stop.load())` before a signal is seen
unfoldable pub main_loop : System → ℕ → Host → Host
main_loop system zero h = h
main_loop system (suc n) h = main_loop system n (tick system h)

-- `~RedisServer`
abbrev pub destroy : Host → Host
destroy = stop

-- `main` behind `Init`
unfoldable pub run_server : System → ℕ → Bool × Host → ℕ × Host
unfolding main_loop stop
run_server system rounds (ready, h) =
    if ready then (0, destroy (stop (main_loop system rounds h))) else (1, destroy h)

-- `main`, with the server that the constructor gives: the code of the exit, and what is left. The
-- sockets that `CreateListenSocket` has closed count with the others; the backlog is 128.
unfoldable pub main :
    Network → (Bytes → ℤ) → System → Clock → (ℕ → ℕ → Rolls) → ℕ → List Bytes → Host → ℕ × Host
unfolding run_server init
main net atoi system clock rolls rounds args h =
    let (listening, closed) = create_listen_socket net (port_of atoi args) 128 in
    run_server system rounds (init clock rolls listening (record h { closed = closed ++ h.closed }))
