-- ===== src/EventLoop/Sockets.antt =====
-- The socket helpers of src/event_loop.cpp. What the system calls give is an argument.
use Prim.Native.Nat.{bit_or}
use redis_like.Base.{
  ℕ, ◌-◌, ◌%◌, Bool, false, Option, none, some, List, [], ◌∷◌, if◌then◌else◌, ℤ, pos, negsuc,
}

-- `SetNonBlocking`: the flags that `F_GETFL` gives, `none` for -1, the constant `O_NONBLOCK`, and
-- whether `F_SETFL` goes well
unfoldable pub set_non_blocking : Option ℕ → ℕ → (ℕ → Bool) → Bool
set_non_blocking none o_nonblock set_flags = false
set_non_blocking (some flags) o_nonblock set_flags = set_flags (bit_or flags o_nonblock)

-- the socket that `socket` gives, and whether `bind` to a port and `listen` with a backlog go well
pub record Network : Type 0 where
  pub socket : Option ℕ
  pub bind : ℕ → ℕ → Bool
  pub listen : ℕ → ℕ → Bool

-- `static_cast<uint16_t>(port)`
unfoldable pub port_bits : ℤ → ℕ
port_bits (pos n) = n % 65536
port_bits (negsuc n) = 65535 - n % 65536

-- `CreateListenSocket` on a socket: it is closed again where a call fails
unfoldable pub listen_on : Network → ℤ → ℕ → ℕ → Option ℕ × List ℕ
unfolding port_bits
listen_on net port backlog fd =
    if net.bind fd (port_bits port)
    then if net.listen fd backlog then (some fd, []) else (none, fd ∷ [])
    else (none, fd ∷ [])

-- `CreateListenSocket`: the socket, and what was closed
unfoldable pub create_listen_socket : Network → ℤ → ℕ → Option ℕ × List ℕ
unfolding listen_on
create_listen_socket net port backlog = elim net.socket [
  | none ↦ (none, [])
  | some fd ↦ listen_on net port backlog fd
]
