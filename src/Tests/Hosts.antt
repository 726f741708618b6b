-- ===== src/Tests/Hosts.antt =====
-- The server, its event loop and `main` at concrete inputs.
use redis_like.Base.{
  ℕ, ◌+◌, ◌≡◌, refl, true, false, none, some, [], ◌∷◌, ◌++◌, arith, codes, pos, find, if◌then◌else◌,
  has, put, All, sym, ap, length, ◌==◌,
}
use mathlib.Core.Path.{subst}
use redis_like.Object.{RedisObject, string}
use redis_like.Dict
use redis_like.Dict.{Dict}
use redis_like.Rdb.{save}
use redis_like.Rdb.Saved.{FitsEntry, restored_all, restored_object, load-save}
use redis_like.Rdb.RoundTrip.{restored, cut_ms}
use redis_like.Resp.{feed}
use redis_like.Aof.{open_log, replay, call_all}
use redis_like.Server.Lifecycle
use redis_like.Ds.SkipList.{Rolls}
use redis_like.Command.Sets.{Draws}
use redis_like.Command.SortedSets.{DoubleText}
use redis_like.Command.WellFormed.{IsWell, IsWell-but, set-IsWell}
use redis_like.Router.{server_commands}
use redis_like.EventLoop.{EventLoop, event_of, add_event}
use redis_like.EventLoop.Told.{IsTold, add_event-IsTold, event_of-add_event}
use redis_like.EventLoop.Sockets.{Network, create_listen_socket}
use redis_like.Server.{Client, Clock, load_persisted_data}
use redis_like.Server.Lifecycle.{load_snapshot}
use redis_like.Server.Host.{
  Callback, System, Host, serves, taken, client_of, put_client, flush_write_buf, mask_for,
}
use redis_like.Server.Host.Program.{tick, new_host, init, stop, remove_all, stop_listening}
use redis_like.Server.Host.Sound.{event_for}
use redis_like.Server.Host.Flush.{IsFlushed, sent_bytes, flush_write_buf_lem}
use redis_like.Server.Host.Keeps.{IsSoundHost}
use redis_like.Server.Host.Tables.{put_client-IsSound}
use redis_like.Server.Host.Reached.{
  here, next, ticks, stops, Reach-IsSound, no_events, no_events-IsTold,
}
use redis_like.Server.Host.Nearer.{emptied}
use redis_like.Server.Host.Drains.{run_events}
use redis_like.Server.Host.Delivered.{sent_to, run_events_lem}
use redis_like.Server.Host.Keyspace.{Reach-IsWell}
use redis_like.Main.{port_of, main_loop, run_server, main}
use redis_like.Main.Restarts.{empty-IsWell, init-main}
use redis_like.Main.Files.{saved_on}
use redis_like.Main.Ends.{IsOver, exit_code, new_host-IsSound, main-IsOver}

-- the listening socket 3 and a client on the socket 7, who sends PING; a byte is taken at each `send`
abbrev pub world : System
world = record {
  clock = λ n i. pos (1_000 + n + i);
  accept = λ n. 7 ∷ [];
  recv =
      λ n fd. some (codes "*1" ++ 13 ∷ 10 ∷ codes "$4" ++ 13 ∷ 10 ∷ codes "PING" ++ 13 ∷ 10 ∷ []);
  send = λ n fd buf. taken 1;
  epoll_wait = λ n.
      record { fd = 3; readable = true; hung_up = false; failed = false; writable = false }
      ∷ record { fd = 7; readable = true; hung_up = false; failed = false; writable = true }
      ∷ [];
  draw = λ n k. 0;
}

abbrev pub ticking : Clock
ticking i = pos i

abbrev pub no_coins : ℕ → ℕ → Rolls
no_coins i k n = 0

abbrev pub sevens : Draws
sevens n = 7

abbrev pub ones : DoubleText
ones = record { strtod = λ s. none; format = λ v. codes "1" }

abbrev pub coins : ℕ → Rolls
coins k n = 1

abbrev started : Host
started =
    (init ticking no_coins (some 3)
      (new_host true (pos 0) (server_commands sevens ones coins) none [])).1

Reach-IsSound_example : IsSoundHost (stop (tick world started))
Reach-IsSound_example =
    Reach-IsSound ticking no_coins 3 (pos 0) (server_commands sevens ones coins) none [] world
      (stop (tick world started)) (λ n. (refl, tt))
      (next (next here (ticks started)) (stops (tick world started)))

no_keys-IsWell : IsWell (load_snapshot no_coins none [])
unfolding load_snapshot find
no_keys-IsWell = record { distinct = tt; objects = λ k obj e. cc }

Reach-IsWell_example : IsWell (tick world started).server.db
Reach-IsWell_example =
    Reach-IsWell sevens ones coins true ticking no_coins 3 (pos 0) none [] world
      (tick world started) no_keys-IsWell (next here (ticks started))

-- a client that has quit and is sent the last two bytes
abbrev leaving : Client
leaving = record {
  read_buf = [];
  write_buf = codes "OK";
  close_after_write = true;
  writable_mask = true;
}

abbrev watching : EventLoop Callback
watching = add_event 7 (mask_for true) (serves 7) (no_events true)

abbrev blank : Host
blank = record (new_host true (pos 0) [] none []) { closed = [] }

abbrev with_client : Host
with_client = record blank { clients = put_client 7 leaving []; loop = watching }

watching-IsTold : IsTold watching
watching-IsTold = add_event-IsTold 7 (mask_for true) (serves 7) (no_events true) no_events-IsTold

with_client-IsSound : IsSoundHost with_client
unfolding new_host
with_client-IsSound =
    put_client-IsSound none 7 leaving [] (no_events true) watching
      (new_host-IsSound (pos 0) [] none [] []) tt (record { waiting = refl; unfinished = refl })
      watching-IsTold (event_of-add_event 7 (mask_for true) (serves 7) (no_events true))

leaving_there : client_of 7 with_client.clients ≡ some leaving
unfolding client_of put_client
leaving_there = refl

run_events_lem_example :
    (sent_to world 7 ((7, 2) ∷ (9, 1) ∷ (7, 2) ∷ []) with_client ≡ codes "OK")
    × (client_of 7 (run_events world ((7, 2) ∷ (9, 1) ∷ (7, 2) ∷ []) with_client).clients
        ≡ (if true then none else some (emptied leaving)))
run_events_lem_example =
    run_events_lem world 7 ((7, 2) ∷ (9, 1) ∷ (7, 2) ∷ []) leaving with_client
      (λ m buf e. (0, refl)) ((λ e. refl), ((λ e. cc), ((λ e. refl), tt))) with_client-IsSound
      leaving_there (omega arith)

watching-event : event_of 7 watching.events ≡ some (event_for 7 leaving)
watching-event = event_of-add_event 7 (mask_for true) (serves 7) (no_events true) 7

flush_write_buf_lem_example :
    IsFlushed 7 watching (flush_write_buf (λ buf. taken 1) 7 leaving watching)
    × (sent_bytes (taken 1) (codes "OK")
          ++ (flush_write_buf (λ buf. taken 1) 7 leaving watching).0.write_buf
        ≡ codes "OK")
flush_write_buf_lem_example =
    flush_write_buf_lem (λ buf. taken 1) 7 leaving watching watching-IsTold watching-event
      (λ e. refl)

-- a system where the socket 3 can be bound and listens
abbrev net : Network
net = record { socket = some 3; bind = λ fd port. true; listen = λ fd backlog. true }

net_listens : create_listen_socket net (port_of (λ s. pos 7000) []) 128 ≡ (some 3, [])
unfolding create_listen_socket
net_listens = refl

-- a run of two rounds without commands
abbrev two_rounds : ℕ × Host
two_rounds = main net (λ s. pos 7000) world ticking no_coins 2 [] (new_host true (pos 0) [] none [])

main-IsOver_example :
    (two_rounds.0 ≡ exit_code (create_listen_socket net (port_of (λ s. pos 7000) []) 128).0)
    × IsOver two_rounds.1
    × (two_rounds.1.file ≡ saved_on none two_rounds.1.server.db)
    × ((create_listen_socket net (port_of (λ s. pos 7000) []) 128).0 ≡ none
        → two_rounds.1.file ≡ none)
unfolding create_listen_socket
main-IsOver_example =
    main-IsOver net (λ s. pos 7000) world ticking no_coins 2 [] (pos 0) [] none [] (λ n. (refl, tt))

-- a snapshot with one key
abbrev held : RedisObject
held = record { value = string (codes "x"); expire_at = none }

abbrev one_key : Dict
one_key = (codes "s", held) ∷ []

one_key-Fits : All FitsEntry one_key
unfolding has
one_key-Fits = ((omega arith, refl, tt, omega arith), tt)

one_key_loaded : load_snapshot no_coins (some (save one_key)) [] ≡ one_key
unfolding load_snapshot restored_all restored_object restored cut_ms
one_key_loaded = ap (λ r. r.1) (load-save no_coins one_key (unfold has in (refl, tt)) one_key-Fits)

one_key-IsWell : IsWell one_key
unfolding Dict.set put
one_key-IsWell = set-IsWell [] (codes "s") held tt (IsWell-but (codes "s") [] empty-IsWell)

-- a run on that snapshot that is told to end before its first round
abbrev ended : ℕ × Host
ended =
    main net (λ s. pos 7000) world ticking no_coins 0 []
      (new_host true (pos 0) (server_commands sevens ones coins) (some (save one_key)) [])

ended_db : ended.1.server.db ≡ one_key
unfolding main run_server init main_loop new_host stop remove_all stop_listening
    create_listen_socket Lifecycle.stop load_persisted_data replay feed call_all open_log
    load_snapshot
ended_db = one_key_loaded

init-main_example :
    (init ticking no_coins (some 3) (
      new_host true
        (pos 0)
        (server_commands sevens ones coins)
        ended.1.file
        ended.1.server.aof.file)).1.server.db
    ≡ load_persisted_data ticking
        (server_commands sevens ones coins)
        (restored_all no_coins 0 ended.1.server.db)
        ended.1.server.aof.file
init-main_example =
    init-main sevens sevens ones ones coins coins net (λ s. pos 7000) world ticking ticking no_coins
      no_coins 0 [] (pos 0) (pos 0) (some (save one_key)) [] 3 ended.0 ended.1
      (subst IsWell (sym one_key_loaded) one_key-IsWell) refl
      (subst (λ db. All FitsEntry db) (sym ended_db) one_key-Fits)
      (ap (λ (db : Dict). length db == 0) ended_db)
