-- ===== src/Main/Restarts.antt =====
-- Two runs of src/main.cpp, one after the other.
use mathlib.Core.Path.{subst}
use redis_like.Base.{
  ℕ, ◌≡◌, sym, ◌∙◌, ap, true, false, Option, none, some, List, [], Bytes, ℤ, ◌==◌, length, All, inl,
  inr, ◌++◌, find,
}
use redis_like.Ds.SkipList.{Rolls}
use redis_like.Rdb.{save}
use redis_like.Rdb.Saved.{FitsEntry, restored_all, load-save}
use redis_like.Aof
use redis_like.Router.{server_commands}
use redis_like.Command.Sets.{Draws}
use redis_like.Command.SortedSets.{DoubleText}
use redis_like.Command.WellFormed.{IsWell}
use redis_like.EventLoop.Sockets.{Network, create_listen_socket}
use redis_like.Server.{Clock, load_persisted_data}
use redis_like.Server.Lifecycle.{load_snapshot}
use redis_like.Server.Host.{System, Host}
use redis_like.Server.Host.Program.{init, new_host, stop}
use redis_like.Server.Host.Reached.{here, next, stops}
use redis_like.Server.Host.Keyspace.{Reach-IsWell}
use redis_like.Main.{port_of, main_loop, run_server, main}
use redis_like.Main.Files.{data_of-stop, db-stop}
use redis_like.Main.Ends.{stopped_data, create_listen_socket-cases, Reach-main_loop, main_with}

-- what a run leaves: the snapshot of its keyspace, if that has keys, and distinct keys
record Leaves (h : Host) : Type 0 where
  well : IsWell h.server.db
  saved : (length h.server.db == 0) ≡ false → h.file ≡ some (save h.server.db)

saved-stop :
    (h : Host)
    → (length (stop h).server.db == 0) ≡ false
    → (stop h).file ≡ some (save (stop h).server.db)
saved-stop h e =
    let (server, file) = data_of-stop h in
    file
    ∙ (stopped_data h.server h.file).1 (ap (λ server. length server.db == 0) (sym server) ∙ e)
    ∙ ap (λ server. some (save server.db)) (sym server)

module _ (drawn : Draws) (text : DoubleText) (coins : ℕ → Rolls) (system : System) (clock : Clock)
    (rolls : ℕ → ℕ → Rolls) (rounds : ℕ) (now : ℤ) (file : Option Bytes) (log : Bytes)
    (w : IsWell (load_snapshot rolls file [])) where
  abbrev first : Option ℕ × List ℕ → Host
  first r =
      (main_with system clock rolls rounds
        (new_host true now (server_commands drawn text coins) file log) r).1

  served-Leaves : (fd : ℕ) → Leaves (first (some fd, []))
  unfolding run_server init new_host
  served-Leaves fd =
      let host = new_host true now (server_commands drawn text coins) file log in
      let h = (init clock rolls (some fd) host).1 in
      let last = stop (main_loop system rounds h) in
      let path = Reach-main_loop system rounds h h here in
      record {
        well =
            Reach-IsWell drawn text coins true clock rolls fd now file log system (stop last) w
              (next (next path (stops (main_loop system rounds h))) (stops last));
        saved = saved-stop last;
      }

  refused-Leaves : (closed : List ℕ) → IsWell [] → Leaves (first (none, closed))
  unfolding run_server init new_host
  refused-Leaves closed empty =
      let host = new_host true now (server_commands drawn text coins) file log in
      let h = record host { closed = closed ++ host.closed } in
      record { well = subst IsWell (sym (db-stop h)) empty; saved = saved-stop h }

pub empty-IsWell : IsWell []
unfolding find
empty-IsWell = record { distinct = tt; objects = λ k obj e. cc }

-- `main` on any arguments, log and snapshot whose keyspace is well-formed, for any number of rounds: if
-- the keyspace at its end has keys, all of which fit the snapshot, then the next run of the program,
-- on the two files that are left, has at its start the keyspace as it comes back from the snapshot
-- with the whole log on top of it.
pub init-main :
    (drawn drawn' : Draws) (text text' : DoubleText) (coins coins' : ℕ → Rolls) (net : Network)
    (atoi : Bytes → ℤ) (system : System) (clock clock' : Clock) (rolls rolls' : ℕ → ℕ → Rolls)
    (rounds : ℕ) (args : List Bytes) (now now' : ℤ) (file : Option Bytes) (log : Bytes) (fd : ℕ)
    (code : ℕ) (h : Host)
    → IsWell (load_snapshot rolls file [])
    → main net atoi system clock rolls rounds args
        (new_host true now (server_commands drawn text coins) file log)
      ≡ (code, h)
    → All FitsEntry h.server.db
    → (length h.server.db == 0) ≡ false
    → (init clock' rolls' (some fd) (
        new_host true now'
          (server_commands drawn' text' coins')
          h.file
          h.server.aof.file)).1.server.db
      ≡ load_persisted_data clock'
          (server_commands drawn' text' coins')
          (restored_all rolls' 0 h.server.db)
          h.server.aof.file
unfolding main init new_host Aof.open_log load_snapshot
init-main drawn drawn' text text' coins coins' net atoi system clock clock' rolls rolls' rounds args
      now now' file log fd code h w ran fits some_keys =
    let r = create_listen_socket net (port_of atoi args) 128 in
    let left : Leaves h =
      subst Leaves (ap (λ e. e.1) ran)
        (elim (create_listen_socket-cases net (port_of atoi args) 128) [
          | inl (fd', e) ↦
              subst
                (λ r. Leaves (first drawn text coins system clock rolls rounds now file log w r))
                (sym e)
                (served-Leaves drawn text coins system clock rolls rounds now file log w fd')
          | inr (closed, e) ↦
              subst
                (λ r. Leaves (first drawn text coins system clock rolls rounds now file log w r))
                (sym e)
                (refused-Leaves drawn text coins system clock rolls rounds now file log w closed
                  empty-IsWell)
        ]) in
    ap (λ db. load_persisted_data clock' (server_commands drawn' text' coins') db h.server.aof.file)
      (ap (λ file. load_snapshot rolls' file []) (left.saved some_keys)
        ∙ ap (λ r. r.1) (load-save rolls' h.server.db left.well.distinct fits))
