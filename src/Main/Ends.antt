-- ===== src/Main/Ends.antt =====
-- How src/main.cpp ends.
use mathlib.Core.Path.{subst}
use mathlib.Core.Logic.{◌⊎◌}
use redis_like.Base.{
  ℕ, zero, suc, ◌≡◌, refl, sym, ◌∙◌, ap, true, false, Option, none, some, List, [], ◌∷◌, ◌++◌,
  Bytes, ℤ, ◌==◌, length, arith, inl, inr, Bool-cases, Option-cases,
}
use redis_like.Ds.SkipList.{Rolls}
use redis_like.Rdb.{save}
use redis_like.Aof
use redis_like.Router.{CommandRouter}
use redis_like.EventLoop.{event_of}
use redis_like.EventLoop.Sockets.{Network, create_listen_socket, listen_on, port_bits}
use redis_like.Server.{RedisServer, Clock}
use redis_like.Server.Lifecycle
use redis_like.Server.Host.{System, Host, client_of}
use redis_like.Server.Host.Program.{tick, init, new_host, stop}
use redis_like.Server.Host.Sound.{event_due}
use redis_like.Server.Host.Keeps.{IsSoundHost}
use redis_like.Server.Host.Calls.{AcceptsOthers}
use redis_like.Server.Host.Reached.{
  Reach, here, next, ticks, stops, stop-IsSound, Reach-IsSound, no_events-IsTold, nobody,
}
use redis_like.Main.{port_of, main_loop, run_server, main}
use redis_like.Main.Files.{data_of-stop, saved_on, file-stop, file-stop_twice, file-main_loop}

pub Reach-main_loop :
    (system : System) (n : ℕ) (h u : Host)
    → Reach system h u
    → Reach system h (main_loop system n u)
unfolding main_loop
Reach-main_loop system zero h u path = path
Reach-main_loop system (suc n) h u path =
    Reach-main_loop system n h (tick system u) (next path (ticks u))

-- What is left after `Stop`: no event, no client, a closed log, and the snapshot of the keyspace if it
-- has keys.
pub record IsOver (h : Host) : Type 0 where
  pub no_event : (f : ℕ) → event_of f h.loop.events ≡ none
  pub no_client : h.clients ≡ []
  pub not_listening : h.listen_fd ≡ none
  pub not_running : h.running ≡ false
  pub log_closed : h.server.aof.is_open ≡ false
  pub saved : (length h.server.db == 0) ≡ false → h.file ≡ some (save h.server.db)

pub stopped_data :
    (server : RedisServer) (file : Option Bytes)
    → ((Lifecycle.stop server file).0.aof.is_open ≡ false)
      × ((length (Lifecycle.stop server file).0.db == 0) ≡ false
          → (Lifecycle.stop server file).1 ≡ some (save (Lifecycle.stop server file).0.db))
unfolding Lifecycle.stop Aof.close
stopped_data server file = (refl, λ e. rw e refl)

table_empty :
    (h : Host)
    → IsSoundHost h
    → h.listen_fd ≡ none
    → h.clients ≡ []
    → (f : ℕ) → event_of f h.loop.events ≡ none
unfolding client_of
table_empty h s l c f =
    s.table f
    ∙ ap (λ l. event_due l f (client_of f h.clients)) l
    ∙ ap (λ cs. event_due none f (client_of f cs)) c

clients-stop : (h : Host) → (stop h).clients ≡ []
unfolding stop
clients-stop h = refl

stop-IsOver : (h : Host) → IsSoundHost h → IsOver (stop h)
stop-IsOver h s =
    let (sound, closed) = stop-IsSound h s in
    let (server, file) = data_of-stop h in
    let (shut, kept) = stopped_data h.server h.file in
    record {
      no_event = table_empty (stop h) sound closed.0 (clients-stop h);
      no_client = clients-stop h;
      not_listening = closed.0;
      not_running = closed.1;
      log_closed = ap (λ server. server.aof.is_open) server ∙ shut;
      saved = λ e.
          file
          ∙ kept (ap (λ server. length server.db == 0) (sym server) ∙ e)
          ∙ ap (λ server. some (save server.db)) (sym server);
    }

pub new_host-IsSound :
    (now : ℤ) (router : CommandRouter) (file : Option Bytes) (log : Bytes) (closed : List ℕ)
    → IsSoundHost (record (new_host true now router file log) { closed = closed })
unfolding new_host client_of event_of
new_host-IsSound now router file log closed = record {
  known = no_events-IsTold;
  table = λ f. refl;
  rests = λ f c e. absurd (nobody f c e);
  apart = tt;
}

-- `CreateListenSocket` gives a socket and has closed none, or gives none
pub create_listen_socket-cases :
    (net : Network) (port : ℤ) (backlog : ℕ)
    → ((fd : ℕ) × (create_listen_socket net port backlog ≡ (some fd, [])))
      ⊎ ((closed : List ℕ) × (create_listen_socket net port backlog ≡ (none, closed)))
unfolding create_listen_socket listen_on
create_listen_socket-cases net port backlog = elim (Option-cases net.socket) [
  | inl e ↦ inr ([], rw (create_listen_socket, e) refl)
  | inr (fd, e) ↦ elim (Bool-cases (net.bind fd (port_bits port))) [
    | inr b ↦ inr (fd ∷ [], rw (create_listen_socket, e, b) refl)
    | inl b ↦ elim (Bool-cases (net.listen fd backlog)) [
      | inl l ↦ inl (fd, rw (create_listen_socket, e, b, l) refl)
      | inr l ↦ inr (fd ∷ [], rw (create_listen_socket, e, b, l) refl)
    ]
  ]
]

abbrev pub exit_code : Option ℕ → ℕ
exit_code none = 1
exit_code (some fd) = 0

-- what `main` gives, by what `CreateListenSocket` gave
abbrev pub main_with : System → Clock → (ℕ → ℕ → Rolls) → ℕ → Host → Option ℕ × List ℕ → ℕ × Host
main_with system clock rolls rounds h r =
    run_server system rounds (init clock rolls r.0 (record h { closed = r.1 ++ h.closed }))

module _ (system : System) (clock : Clock) (rolls : ℕ → ℕ → Rolls) (rounds : ℕ) (now : ℤ)
    (router : CommandRouter) (file : Option Bytes) (log : Bytes) where
  abbrev Ended : Option ℕ × List ℕ → Type 0
  Ended r =
      let end = main_with system clock rolls rounds (new_host true now router file log) r in
      (end.0 ≡ exit_code r.0)
      × IsOver end.1
      × (end.1.file ≡ saved_on file end.1.server.db)
      × (r.0 ≡ none → end.1.file ≡ file)

  served-Ended : (fd : ℕ) → AcceptsOthers system (some fd) → Ended (some fd, [])
  unfolding run_server init new_host
  served-Ended fd o =
      let h = (init clock rolls (some fd) (new_host true now router file log)).1 in
      let path = Reach-main_loop system rounds h h here in
      let sound =
        Reach-IsSound clock rolls fd now router file log system (stop (main_loop system rounds h)) o
          (next path (stops (main_loop system rounds h))) in
      let last = main_loop system rounds h in
      (
        refl,
        stop-IsOver (stop last) sound,
        file-stop_twice last
            ∙ ap (λ file. saved_on file (stop (stop last)).server.db)
                (file-main_loop system rounds h),
        λ e. absurd (ground arith),
      )

  refused-Ended : (closed : List ℕ) → Ended (none, closed)
  unfolding run_server init new_host Lifecycle.stop
  refused-Ended closed =
      let h = record (new_host true now router file log) { closed = closed ++ [] } in
      (
        refl,
        stop-IsOver h (new_host-IsSound now router file log (closed ++ [])),
        file-stop h,
        λ e. (data_of-stop h).1,
      )

-- `main` with an instance of epoll, on any arguments, snapshot and log, and for any number of rounds:
-- it gives 0 if `CreateListenSocket` gave a socket and 1 if not. After its end the event loop watches
-- nothing, no client is left and the log is closed. The snapshot holds the keyspace if that has keys; if
-- it has none, the snapshot is still the one from before the run, and so it is without a socket.
-- `accept` is assumed never to give the listening socket.
pub main-IsOver :
    (net : Network) (atoi : Bytes → ℤ) (system : System) (clock : Clock) (rolls : ℕ → ℕ → Rolls)
    (rounds : ℕ) (args : List Bytes) (now : ℤ) (router : CommandRouter) (file : Option Bytes)
    (log : Bytes)
    → AcceptsOthers system (create_listen_socket net (port_of atoi args) 128).0
    → let listening = (create_listen_socket net (port_of atoi args) 128).0 in
      let r = main net atoi system clock rolls rounds args (new_host true now router file log) in
      (r.0 ≡ exit_code listening)
      × IsOver r.1
      × (r.1.file ≡ saved_on file r.1.server.db)
      × (listening ≡ none → r.1.file ≡ file)
unfolding main
main-IsOver net atoi system clock rolls rounds args now router file log o =
    let listening = create_listen_socket net (port_of atoi args) 128 in
    let ended = Ended system clock rolls rounds now router file log in
    elim (create_listen_socket-cases net (port_of atoi args) 128) [
      | inl (fd, e) ↦ subst ended (sym e) (
          served-Ended system clock rolls rounds now router file log fd
            (subst (λ (r : Option ℕ × List ℕ). AcceptsOthers system r.0) e o))
      | inr (closed, e) ↦
          subst ended (sym e) (refused-Ended system clock rolls rounds now router file log closed)
    ]
