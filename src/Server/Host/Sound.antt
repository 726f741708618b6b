-- ===== src/Server/Host/Sound.antt =====
-- The table of the event loop holds the listening socket and the clients of src/server.cpp, each with
-- its own callback and with the mask that the client knows.
use redis_like.Base.{
  ℕ, ◌≡◌, refl, false, not, ◌&&◌, Option, none, some, List, [], ◌∷◌, ◌==◌, is_empty, if◌then◌else◌,
  arith,
}
use redis_like.EventLoop.{FileEvent, EventLoop, event_of}
use redis_like.EventLoop.Told.{IsTold}
use redis_like.Server.{Client}
use redis_like.Server.Host.{
  Callback, accepts, serves, client_of, put_client, erase_client, mask_for,
}

pub client_of-put_client :
    (fd f : ℕ) (c : Client) (cs : List (ℕ × Client))
    → client_of f (put_client fd c cs) ≡ (if fd == f then some c else client_of f cs)
unfolding client_of put_client
client_of-put_client fd f c [] = refl
client_of-put_client fd f c ((g, d) ∷ cs) = ground (arith, client_of-put_client fd f c cs)

pub client_of-erase_client :
    (fd f : ℕ) (cs : List (ℕ × Client))
    → client_of f (erase_client fd cs) ≡ (if fd == f then none else client_of f cs)
unfolding client_of erase_client
client_of-erase_client fd f [] = ground arith
client_of-erase_client fd f ((g, d) ∷ cs) = ground (arith, client_of-erase_client fd f cs)

abbrev pub event_for : ℕ → Client → FileEvent Callback
event_for fd c = record { mask = mask_for c.writable_mask; cb = serves fd }

abbrev pub client_event : ℕ → Option Client → Option (FileEvent Callback)
client_event fd none = none
client_event fd (some c) = some (event_for fd c)

-- what the table is to say of a socket, by whether it is the listening one or a client
abbrev pub event_due : Option ℕ → ℕ → Option Client → Option (FileEvent Callback)
event_due none fd o = client_event fd o
event_due (some l) fd o =
    if l == fd then some (record { mask = mask_for false; cb = accepts }) else client_event fd o

-- A client between two callbacks waits to write exactly where bytes are left, and is not one that
-- should have been closed.
pub record Rests (c : Client) : Type 0 where
  pub waiting : c.writable_mask ≡ not (is_empty c.write_buf)
  pub unfinished : (c.close_after_write && is_empty c.write_buf) ≡ false

abbrev pub IsApart : Option ℕ → List (ℕ × Client) → Type 0
IsApart none cs = Unit
IsApart (some l) cs = client_of l cs ≡ none

pub record IsSound (listen : Option ℕ) (cs : List (ℕ × Client)) (loop : EventLoop Callback)
    : Type 0 where
  pub known : IsTold loop
  pub table : (fd : ℕ) → event_of fd loop.events ≡ event_due listen fd (client_of fd cs)
  pub rests : (fd : ℕ) (c : Client) → client_of fd cs ≡ some c → Rests c
  pub apart : IsApart listen cs
