-- ===== src/Server/Host.antt =====
-- The class `RedisServer` of src/server.h and src/server.cpp with all its fields, on the event loop of
-- src/event_loop.cpp: `OnAccept`, `OnClientEvent`, `FlushWriteBuf` and `CloseClient`. Program has the
-- functions that src/main.cpp calls; the other child modules prove.
pub mod Program
pub mod Sound
pub mod Flush
pub mod Tables
pub mod Keeps
pub mod Calls
pub mod Reached
pub mod Nearer
pub mod Drains
pub mod Delivered
pub mod Data
pub mod Keyspace
pub mod Writes
pub mod Logged
use redis_like.Base.{
  ℕ, suc, ◌/◌, ◌%◌, Bool, true, false, not, ◌&&◌, ◌==◌, Option, none, some, List, [], ◌∷◌, Bytes,
  drop, is_empty, if◌then◌else◌, ℤ,
}
use redis_like.Ds.SkipList.{Rolls}
use redis_like.Expire.Periodic.{Draws, periodic_expire_check}
use redis_like.Router.{CommandRouter}
use redis_like.Aof.{open_log}
use redis_like.EventLoop.{EventLoop, Fired, add_event, remove_event, modify_mask, run_once}
use redis_like.Server.{Client, RedisServer, Clock, on_bytes, load_persisted_data}
use redis_like.Server.Lifecycle.{load_snapshot}
use redis_like.Server.Lifecycle

-- the two functions that the server registers with the loop: `OnAccept`, and `OnClientEvent` of a socket
pub data Callback : Type 0 where
  accepts : Callback
  serves : ℕ → Callback

-- what `send` gives: the number of bytes that the system took, or an error
pub data Sent : Type 0 where
  taken : ℕ → Sent
  failed : Sent

-- what `recv` gives: some bytes, or the end of the connection or an error
abbrev pub Received : Type 0
Received = Option Bytes

-- What the system gives at the n-th callback: the readings of the clock, the sockets of `accept` up to
-- the first that is not valid, what `recv` and `send` say of a socket, the events of `epoll_wait`, and
-- the draws of the random generator.
pub record System : Type 0 where
  pub clock : ℕ → Clock
  pub accept : ℕ → List ℕ
  pub recv : ℕ → ℕ → Received
  pub send : ℕ → ℕ → Bytes → Sent
  pub epoll_wait : ℕ → List Fired
  pub draw : ℕ → Draws

-- `server` is `db_`, `router_` and `aof_`; `file` is the snapshot on the disk, `closed` are the sockets
-- that were closed, the last one first, and `moment` counts the callbacks.
pub record Host : Type 0 where
  pub server : RedisServer
  pub clients : List (ℕ × Client)
  pub loop : EventLoop Callback
  pub listen_fd : Option ℕ
  pub running : Bool
  pub last_expire_check : ℤ
  pub file : Option Bytes
  pub closed : List ℕ
  pub moment : ℕ

-- `clients_.find(fd)`
unfoldable pub client_of : ℕ → List (ℕ × Client) → Option Client
client_of fd [] = none
client_of fd ((f, c) ∷ cs) = let further = client_of fd cs in if f == fd then some c else further

-- `clients_[fd] = client`
unfoldable pub put_client : ℕ → Client → List (ℕ × Client) → List (ℕ × Client)
put_client fd client [] = (fd, client) ∷ []
put_client fd client ((f, c) ∷ cs) =
    let rest = put_client fd client cs in if f == fd then (f, client) ∷ cs else (f, c) ∷ rest

-- `clients_.erase(fd)`
unfoldable pub erase_client : ℕ → List (ℕ × Client) → List (ℕ × Client)
erase_client fd [] = []
erase_client fd ((f, c) ∷ cs) =
    let rest = erase_client fd cs in if f == fd then rest else (f, c) ∷ rest

-- `kEventReadable | kEventWritable`, or `kEventReadable` alone
abbrev pub mask_for : Bool → ℕ
mask_for writable = if writable then 3 else 1

-- `EPOLLOUT` on or off, where the client does not have it so
unfoldable pub watch : Bool → ℕ → Client → EventLoop Callback → Client × EventLoop Callback
watch true fd client loop =
    if client.writable_mask
    then (client, loop)
    else (record client { writable_mask = true }, modify_mask fd (mask_for true) loop)
watch false fd client loop =
    if client.writable_mask
    then (record client { writable_mask = false }, modify_mask fd (mask_for false) loop)
    else (client, loop)

-- `FlushWriteBuf` behind `send`
unfoldable pub after_send : Sent → ℕ → Client → EventLoop Callback → Client × EventLoop Callback
unfolding watch
after_send failed fd client loop = watch true fd client loop
after_send (taken n) fd client loop =
    let left = drop n client.write_buf in
    watch (not (is_empty left)) fd (record client { write_buf = left }) loop

unfoldable pub flush_write_buf :
    (Bytes → Sent) → ℕ → Client → EventLoop Callback → Client × EventLoop Callback
unfolding after_send
flush_write_buf send fd client loop =
    if is_empty client.write_buf
    then (client, loop)
    else after_send (send client.write_buf) fd client loop

unfoldable pub close_client : ℕ → Host → Host
unfolding erase_client
close_client fd h = record h {
  loop = remove_event fd h.loop;
  closed = fd ∷ h.closed;
  clients = erase_client fd h.clients;
}

-- the client and the loop that `FlushWriteBuf` leaves, and the closing
unfoldable pub settle : ℕ → Client × EventLoop Callback → Host → Host
unfolding put_client close_client
settle fd (client, loop) h =
    let h' = record h { loop = loop; clients = put_client fd client h.clients } in
    if client.close_after_write && is_empty client.write_buf then close_client fd h' else h'

-- `OnClientEvent` behind the reading
unfoldable pub answer : System → ℕ → Client → Host → Host
unfolding flush_write_buf settle
answer system fd client h = settle fd (flush_write_buf (system.send h.moment fd) fd client h.loop) h

-- the reading
unfoldable pub on_readable : System → ℕ → Received → Client → Host → Host
unfolding answer close_client
on_readable system fd none client h = close_client fd h
on_readable system fd (some bytes) client h =
    let (server, client') = on_bytes (system.clock h.moment) 0 bytes h.server client in
    answer system fd client' (record h { server = server })

unfoldable pub on_client_event : System → ℕ → ℕ → Host → Host
unfolding client_of on_readable answer
on_client_event system fd mask h = elim (client_of fd h.clients) [
  | none ↦ h
  | some client ↦
      if mask % 2 == 1
      then on_readable system fd (system.recv h.moment fd) client h
      else answer system fd client h
]

abbrev pub new_client : Client
new_client = record {
  read_buf = [];
  write_buf = [];
  close_after_write = false;
  writable_mask = false;
}

-- a round of `OnAccept`
unfoldable pub accept_client : ℕ → Host → Host
unfolding put_client
accept_client fd h = record h {
  clients = put_client fd new_client h.clients;
  loop = add_event fd (mask_for false) (serves fd) h.loop;
}

unfoldable pub on_accept : List ℕ → Host → Host
unfolding accept_client
on_accept [] h = h
on_accept (fd ∷ fds) h = on_accept fds (accept_client fd h)

abbrev pub count_callback : Host → Host
count_callback h = record h { moment = suc h.moment }

-- what the loop calls
unfoldable pub call : System → Callback → ℕ → Host → Host
unfolding on_accept on_client_event
call system accepts mask h = count_callback (on_accept (system.accept h.moment) h)
call system (serves fd) mask h = count_callback (on_client_event system fd mask h)
