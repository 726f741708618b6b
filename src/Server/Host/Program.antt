-- ===== src/Server/Host/Program.antt =====
-- The constructor, `Init`, `Tick`, `PeriodicExpireCheck` and `Stop` of src/server.cpp.
use redis_like.Base.{
  ℕ, Bool, true, false, Option, none, some, List, [], ◌∷◌, Bytes, if◌then◌else◌, ℤ,
}
use redis_like.Ds.SkipList.{Rolls}
use redis_like.Expire.Periodic.{periodic_expire_check}
use redis_like.Router.{CommandRouter}
use redis_like.Aof.{open_log}
use redis_like.EventLoop.{EventLoop, add_event, remove_event, run_once}
use redis_like.Server.{Client, Clock, load_persisted_data}
use redis_like.Server.Lifecycle.{load_snapshot}
use redis_like.Server.Lifecycle
use redis_like.Server.Host.{Callback, System, Host, accepts, mask_for, call, count_callback}

abbrev pub loop_of : Host → EventLoop Callback
loop_of h = h.loop

-- `PeriodicExpireCheck`
unfoldable pub expire_check : System → Host → Host
expire_check system h =
    let now = system.clock h.moment 0 in
    let (last, db) =
      periodic_expire_check (system.draw h.moment) now h.last_expire_check h.server.db in
    count_callback (record h { server = record h.server { db = db }; last_expire_check = last })

-- `Tick`
unfoldable pub tick : System → Host → Host
unfolding call expire_check
tick system h =
    if h.running
    then expire_check system (run_once loop_of (call system) (system.epoll_wait h.moment) h)
    else h

-- The constructor, on the two files: `epoll` is whether there is an instance of epoll.
unfoldable pub new_host : Bool → ℤ → CommandRouter → Option Bytes → Bytes → Host
new_host epoll now router file log = record {
  server = record {
    db = [];
    router = router;
    aof = open_log (record { file = log; is_open = false });
  };
  clients = [];
  loop = record { events = []; epoll = epoll; looping = false; calls = [] };
  listen_fd = none;
  running = false;
  last_expire_check = now;
  file = file;
  closed = [];
  moment = 0;
}

-- `Init`, with what `CreateListenSocket` gives: whether it went well, and the host
unfoldable pub init : Clock → (ℕ → ℕ → Rolls) → Option ℕ → Host → Bool × Host
init clock rolls none h = (false, h)
init clock rolls (some fd) h =
    let loaded = load_snapshot rolls h.file h.server.db in
    let db = load_persisted_data clock h.server.router loaded h.server.aof.file in
    (
      true,
      record h {
        listen_fd = some fd;
        loop = add_event fd (mask_for false) accepts h.loop;
        server = record h.server { db = db };
        running = true;
      },
    )

-- the loop of `Stop` over the clients
unfoldable pub remove_all : List (ℕ × Client) → Host → Host
remove_all [] h = h
remove_all ((fd, c) ∷ cs) h =
    remove_all cs (record h { loop = remove_event fd h.loop; closed = fd ∷ h.closed })

-- the closing of the listening socket in `Stop`
unfoldable pub stop_listening : Option ℕ → Host → Host
stop_listening none h = h
stop_listening (some fd) h = record h {
  loop = remove_event fd h.loop;
  closed = fd ∷ h.closed;
  listen_fd = none;
}

-- `Stop`
unfoldable pub stop : Host → Host
unfolding remove_all stop_listening
stop h =
    let (server, file) = Lifecycle.stop h.server h.file in
    let h' =
      stop_listening h.listen_fd (record h { running = false; server = server; file = file }) in
    record (remove_all h'.clients h') { clients = [] }
