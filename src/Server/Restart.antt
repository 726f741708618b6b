-- ===== src/Server/Restart.antt =====
-- A stop with a snapshot and a restart: `Stop` saves the keyspace, `LoadPersistedData` loads it and
-- replays the whole log on top, which nothing has emptied.
use redis_like.Base.{
  ℕ, ◌≡◌, ◌≢◌, refl, sym, ◌∙◌, ap, true, none, some, List, [], ◌∷◌, ◌++◌, append-nil, arith, Bytes,
  codes, same, same_refl, if◌then◌else◌, ◌==◌, false, Option, All, IsDistinct, ℤ, Option-cases, inl,
  inr, upper, find, has-find, length,
}
use redis_like.Resp.{RespCommand, integer, array}
use redis_like.Object.{RedisObject, list, is_expired}
use redis_like.Dict
use redis_like.Dict.{Dict}
use redis_like.Expire.View.{live, view}
use redis_like.Command.Context.{integer_ℕ}
use redis_like.Command.Lists.{rpush_cmd}
use redis_like.Command.Lists.Laws.{after_push, push_reply, rpush_cmd_lem}
use redis_like.Router.{CommandRouter, knows, execute}
use redis_like.Ds.SkipList.{Rolls}
use redis_like.Rdb.{save}
use redis_like.Rdb.RoundTrip.{restored, cut_ms}
use redis_like.Rdb.Saved.{FitsEntry, restored_object}
use redis_like.Rdb.Loaded.{find-load}
use redis_like.Server.Lifecycle
use redis_like.Server.Lifecycle.{load_snapshot}
use redis_like.Aof
use redis_like.Aof.{AofLogger, open_log, serialize, is_write_command, contains}
use redis_like.Aof.Replay.{IsLoggable}
use redis_like.Server.{
  Client, RedisServer, Clock, respond, starts_with, is_logged, process_command, process_all,
  load_persisted_data,
}
use redis_like.Server.Recovery.{run_all, load-process_all}

abbrev pub lasting_list : List Bytes → RedisObject
lasting_list l = record { value = list l; expire_at = none }

abbrev pub rpush : Bytes → Bytes → List Bytes → RespCommand
rpush key v vs = record { name = codes "RPUSH"; args = key ∷ v ∷ vs }

live-some : (now : ℤ) (obj x : RedisObject) → live now (some obj) ≡ some x → obj ≡ x
live-some now obj x h = ground arith

view-rpush_cmd :
    (key v : Bytes) (vs l : List Bytes) (now : ℤ) (db : Dict)
    → view db now key ≡ some (lasting_list l)
    → ((rpush_cmd (key ∷ v ∷ vs) now db).0 ≡ integer_ℕ (length (l ++ v ∷ vs)))
      × (view (rpush_cmd (key ∷ v ∷ vs) now db).1 now key ≡ some (lasting_list (l ++ v ∷ vs)))
view-rpush_cmd key v vs l now db h =
    let (reply, seen) = rpush_cmd_lem key v vs key now db in
    (
      reply ∙ ap (push_reply (λ l. l ++ v ∷ vs)) h,
      seen ∙ rw (same_refl key) (ap (after_push (λ l. l ++ v ∷ vs)) h),
    )

module _ (router : CommandRouter) (registered : find (codes "RPUSH") router ≡ some rpush_cmd) where
  execute-rpush :
      (key v : Bytes) (vs : List Bytes) (now : ℤ) (db : Dict)
      → execute router (rpush key v vs) now db ≡ rpush_cmd (key ∷ v ∷ vs) now db
  unfolding execute upper
  execute-rpush key v vs now db = ground (arith, registered)

  respond-rpush :
      (key v : Bytes) (vs : List Bytes) (now : ℤ) (db : Dict)
      → respond router (rpush key v vs) now db ≡ rpush_cmd (key ∷ v ∷ vs) now db
  unfolding respond knows upper same
  respond-rpush key v vs now db =
      rw (has-find (codes "RPUSH") router) (rw registered (execute-rpush key v vs now db))

  -- RPUSH is logged, as its reply is a number
  is_logged-rpush :
      (key v : Bytes) (vs : List Bytes) (n : ℕ) → is_logged (rpush key v vs) (integer_ℕ n) ≡ true
  unfolding is_logged is_write_command contains upper same starts_with integer
  is_logged-rpush key v vs n = refl

  -- the run of the one command
  after_rpush :
      (key v : Bytes) (vs l : List Bytes) (now : ℤ) (db : Dict)
      → view db now key ≡ some (lasting_list l)
      → (is_logged (rpush key v vs) (respond router (rpush key v vs) now db).0 ≡ true)
        × (view (respond router (rpush key v vs) now db).1 now key
            ≡ some (lasting_list (l ++ v ∷ vs)))
  after_rpush key v vs l now db h =
      let (reply, seen) = view-rpush_cmd key v vs l now db h in
      let run = respond-rpush key v vs now db in
      (
        ap (λ r. is_logged (rpush key v vs) r.0) run
            ∙ ap (is_logged (rpush key v vs)) reply
            ∙ is_logged-rpush key v vs (length (l ++ v ∷ vs)),
        ap (λ r. view r.1 now key) run ∙ seen,
      )

serialize-some : (cmd : RespCommand) → serialize cmd ≢ []
unfolding serialize array
serialize-some cmd e = cc

-- the list of the object that is seen stands in the keyspace
get-lasting_list :
    (db : Dict) (key : Bytes) (l : List Bytes) (now : ℤ)
    → view db now key ≡ some (lasting_list l)
    → find key db ≡ some (lasting_list l)
unfolding view Dict.get
get-lasting_list db key l now h = elim (Option-cases (find key db)) [
  | inl e ↦ ground (arith, e)
  | inr (obj, e) ↦ e ∙ ap some (live-some now obj (lasting_list l) (sym (ap (live now) e) ∙ h))
]

some_keys :
    (db : Dict) (key : Bytes) (obj : RedisObject)
    → find key db ≡ some obj
    → (length db == 0) ≡ false
unfolding find
some_keys [] key obj e = cc
some_keys (entry ∷ db) key obj e = ground arith

-- a list that does not expire comes back from the snapshot
view-load_snapshot :
    (rolls : ℕ → ℕ → Rolls) (server : RedisServer) (file : Option Bytes) (key : Bytes)
    (l : List Bytes) (now now' : ℤ)
    → IsDistinct server.db
    → All FitsEntry server.db
    → view server.db now key ≡ some (lasting_list l)
    → view (load_snapshot rolls (Lifecycle.stop server file).1 []) now' key ≡ some (lasting_list l)
unfolding Lifecycle.stop load_snapshot restored_object restored cut_ms view is_expired Dict.get
view-load_snapshot rolls server file key l now now' d fits h =
    let there = get-lasting_list server.db key l now h in
    let (n, back) = find-load rolls server.db key (lasting_list l) d fits there in
    ap (λ b. view (load_snapshot rolls (if b then file else some (save server.db)) []) now' key)
      (some_keys server.db key (lasting_list l) there)
    ∙ ap (live now') back

-- On a server whose log was opened on an empty file and whose router has RPUSH: an RPUSH of at most 255
-- arguments on a list that does not expire, after which no key stands twice and all entries fit the
-- snapshot; a stop, which saves the keyspace; and a start, which loads the snapshot and replays the log.
-- The values stand twice at the end of the list.
pub load-rpush_cmd :
    (clock clock' : Clock) (rolls : ℕ → ℕ → Rolls) (file : Option Bytes) (key v : Bytes)
    (vs l : List Bytes) (server : RedisServer) (client : Client) (log : AofLogger)
    → find (codes "RPUSH") server.router ≡ some rpush_cmd
    → server.aof ≡ open_log log
    → log.file ≡ []
    → IsLoggable (rpush key v vs)
    → view server.db (clock 0) key ≡ some (lasting_list l)
    → IsDistinct (process_all clock 0 (rpush key v vs ∷ []) server client).0.db
    → All FitsEntry (process_all clock 0 (rpush key v vs ∷ []) server client).0.db
    → let stopped =
        Lifecycle.stop (process_all clock 0 (rpush key v vs ∷ []) server client).0 file in
      view
        (load_persisted_data clock' server.router
          (load_snapshot rolls stopped.1 [])
          stopped.0.aof.file)
        (clock' 0)
        key
      ≡ some (lasting_list ((l ++ v ∷ vs) ++ v ∷ vs))
unfolding process_all process_command Lifecycle.stop Aof.close
load-rpush_cmd clock clock' rolls file key v vs l server client log registered opened empty short
      seen d fits =
    let cmd = rpush key v vs in
    let server' = (process_all clock 0 (cmd ∷ []) server client).0 in
    let db = load_snapshot rolls (Lifecycle.stop server' file).1 [] in
    let (is_write, pushed) =
      after_rpush server.router registered key v vs l (clock 0) server.db seen in
    ap (λ db'. view db' (clock' 0) key)
      (ap (load_persisted_data clock' server.router db) (sym (append-nil server'.aof.file))
        ∙ load-process_all clock clock' (cmd ∷ []) server client log db cmd [] (serialize cmd)
            opened empty (short, tt) short refl (serialize-some cmd)
        ∙ ap (λ b. run_all clock' 0 (if b then cmd ∷ [] else []) server.router db) is_write
        ∙ ap (λ r. r.1) (execute-rpush server.router registered key v vs (clock' 0) db))
    ∙ (view-rpush_cmd key v vs (l ++ v ∷ vs) (clock' 0) db (
        view-load_snapshot rolls server' file key (l ++ v ∷ vs) (clock 0) (clock' 0) d fits
          pushed)).1
