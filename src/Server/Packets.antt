-- ===== src/Server/Packets.antt =====
-- How the bytes of a connection are cut into calls of `recv` does not matter to the server.
use redis_like.Base.{
  ℕ, suc, ◌+◌, ◌≡◌, refl, sym, ◌∙◌, ap, List, [], ◌∷◌, ◌++◌, arith, Bytes, length,
}
use redis_like.Resp.{RespCommand, feed}
use redis_like.Resp.Chunks.{feed-append}
use redis_like.Server.{
  Client, RedisServer, Clock, process_command, process_all, on_bytes, send_response,
}

abbrev Outcome : Type 0
Outcome = RedisServer × Client

process_all-append :
    (clock : Clock) (i : ℕ) (xs ys : List RespCommand) (server : RedisServer) (client : Client)
    → process_all clock i (xs ++ ys) server client
      ≡ process_all clock
          (i + length xs)
          ys
          (process_all clock i xs server client).0
          (process_all clock i xs server client).1
unfolding process_all
process_all-append clock i [] ys server client =
    let same_start : i ≡ i + 0 = omega arith in
    ap (λ k. process_all clock k ys server client) same_start
process_all-append clock i (x ∷ xs) ys server client =
    let (server', client') = process_command (clock i) x server client in
    let start : suc i + length xs ≡ i + suc (length xs) = omega arith in
    process_all-append clock (suc i) xs ys server' client'
    ∙ ap
        (λ k.
          process_all clock k ys (process_all clock (suc i) xs server' client').0
            (process_all clock (suc i) xs server' client').1)
        start

abbrev with_buf : Bytes → Client → Client
with_buf buf client = record client { read_buf = buf }

-- commands leave the read buffer alone
process_all-with_buf :
    (clock : Clock) (i : ℕ) (cmds : List RespCommand) (server : RedisServer) (client : Client)
    (buf : Bytes)
    → process_all clock i cmds server (with_buf buf client) ≡ (
      (process_all clock i cmds server client).0,
      with_buf buf (process_all clock i cmds server client).1,
    )
unfolding process_all process_command send_response
process_all-with_buf clock i [] server client buf = refl
process_all-with_buf clock i (cmd ∷ cmds) server client buf =
    process_all-with_buf clock (suc i) cmds (process_command (clock i) cmd server client).0
      (process_command (clock i) cmd server client).1 buf

-- Two pieces of the stream of a connection, handled as they come or handled at once with the same
-- readings of the clock, leave the same keyspace, the same log, and the same replies and buffers.
pub on_bytes-append :
    (clock : Clock) (i : ℕ) (a b : Bytes) (server : RedisServer) (client : Client)
    → on_bytes clock i (a ++ b) server client
      ≡ on_bytes clock
          (i + length (feed client.read_buf a).0)
          b
          (on_bytes clock i a server client).0
          (on_bytes clock i a server client).1
unfolding on_bytes
on_bytes-append clock i a b server client =
    let (first, buf) = feed client.read_buf a in
    let (second, buf') = feed buf b in
    let j = i + length first in
    let run = process_all clock i first server client in
    ap (λ (p : List RespCommand × Bytes). process_all clock i p.0 server (with_buf p.1 client))
      (feed-append client.read_buf a b)
    ∙ process_all-append clock i first second server (with_buf buf' client)
    ∙ ap (λ (o : Outcome). process_all clock j second o.0 o.1)
        (process_all-with_buf clock i first server client buf')
    ∙ sym (
        ap (λ (o : Outcome). on_bytes clock j b o.0 o.1)
          (process_all-with_buf clock i first server client buf))
