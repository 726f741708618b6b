-- ===== src/Server/Host/Reached.antt =====
-- The states that the server of src/server.cpp reaches from its start by ticks and by `Stop`.
use mathlib.Core.Path.{subst}
use redis_like.Base.{
  ℕ, ◌≡◌, ◌≢◌, refl, sym, ◌∙◌, ap, Bool, true, false, Option, none, some, List, [], ◌∷◌, ◌==◌,
  Bytes, if◌then◌else◌, arith, ◌⊎◌, inl, inr, Bool-cases, ℤ,
}
use redis_like.Ds.SkipList.{Rolls}
use redis_like.Router.{CommandRouter}
use redis_like.EventLoop.{EventLoop, event_of, remove_event, run_once}
use redis_like.EventLoop.Told.{
  told, IsTold, add_event-IsTold, event_of-add_event, remove_event-IsTold, event_of-remove_event,
}
use redis_like.EventLoop.Kept.{run_once-kept}
use redis_like.Server.{Client, Clock}
use redis_like.Server.Lifecycle
use redis_like.Server.Host.{Callback, System, Host, accepts, client_of, mask_for, call}
use redis_like.Server.Host.Program.{
  loop_of, expire_check, tick, new_host, init, stop, stop_listening, remove_all,
}
use redis_like.Server.Host.Sound.{IsSound, event_due}
use redis_like.Server.Host.Keeps.{IsSoundHost}
use redis_like.Server.Host.Calls.{Serves, AcceptsOthers, call-Serves}

abbrev pub ticked : System → Host → Host
ticked system h =
    expire_check system (run_once loop_of (call system) (system.epoll_wait h.moment) h)

pub tick-running : (system : System) (h : Host) → h.running ≡ true → tick system h ≡ ticked system h
unfolding tick
tick-running system h e = ap (λ b. if b then ticked system h else h) e

pub tick-idle : (system : System) (h : Host) → h.running ≡ false → tick system h ≡ h
unfolding tick
tick-idle system h e = ap (λ b. if b then ticked system h else h) e

tick-Serves :
    (system : System) (l : Option ℕ) (h : Host)
    → AcceptsOthers system l
    → Serves l h
    → Serves l (tick system h)
unfolding expire_check
tick-Serves system l h o s = elim (Bool-cases h.running) [
  | inl e ↦ subst (Serves l) (sym (tick-running system h e)) (
      run_once-kept loop_of (call system) (Serves l) (λ cb mask h. call-Serves system l cb mask h o)
        (system.epoll_wait h.moment) h s)
  | inr e ↦ subst (Serves l) (sym (tick-idle system h e)) s
]

-- no event is left but those of the clients in the list
abbrev HasOnly : List (ℕ × Client) → EventLoop Callback → Type 0
HasOnly cs loop = (f : ℕ) → client_of f cs ≡ none → event_of f loop.events ≡ none

remove_event-HasOnly :
    (fd : ℕ) (c : Client) (cs : List (ℕ × Client)) (loop : EventLoop Callback)
    → HasOnly ((fd, c) ∷ cs) loop
    → HasOnly cs (remove_event fd loop)
unfolding client_of
remove_event-HasOnly fd c cs loop only f e =
    event_of-remove_event fd loop f ∙ ground (arith, only f)

remove_all-IsSound :
    (cs : List (ℕ × Client)) (h : Host)
    → IsTold h.loop
    → HasOnly cs h.loop
    → IsSound none [] (remove_all cs h).loop
unfolding remove_all client_of
remove_all-IsSound [] h t only = record {
  known = t;
  table = λ fd. only fd refl;
  rests = λ fd c e. absurd (ground arith);
  apart = tt;
}
remove_all-IsSound ((fd, c) ∷ cs) h t only =
    remove_all-IsSound cs (record h { loop = remove_event fd h.loop; closed = fd ∷ h.closed })
      (remove_event-IsTold fd h.loop t) (remove_event-HasOnly fd c cs h.loop only)

listening_only :
    (l : Option ℕ) (h : Host)
    → IsSound l h.clients h.loop
    → IsTold (stop_listening l h).loop × HasOnly h.clients (stop_listening l h).loop
unfolding stop_listening
listening_only none h s = (s.known, λ f e. s.table f ∙ ap (event_due none f) e)
listening_only (some fd) h s = (
  remove_event-IsTold fd h.loop s.known,
  λ f e. event_of-remove_event fd h.loop f ∙ ground (arith, s.table f),
)

abbrev pub Closed : Host → Type 0
Closed h = (h.listen_fd ≡ none) × (h.running ≡ false)

fields-remove_all :
    (cs : List (ℕ × Client)) (h : Host)
    → ((remove_all cs h).listen_fd ≡ h.listen_fd) × ((remove_all cs h).running ≡ h.running)
unfolding remove_all
fields-remove_all [] h = (refl, refl)
fields-remove_all ((fd, c) ∷ cs) h = fields-remove_all cs _

fields-stop_listening :
    (l : Option ℕ) (h : Host)
    → l ≡ h.listen_fd
    → ((stop_listening l h).listen_fd ≡ none)
      × ((stop_listening l h).running ≡ h.running)
      × ((stop_listening l h).clients ≡ h.clients)
unfolding stop_listening
fields-stop_listening none h e = (sym e, refl, refl)
fields-stop_listening (some fd) h e = (refl, refl, refl)

stopped :
    (h h' : Host) (cs : List (ℕ × Client))
    → IsSound h.listen_fd h.clients h.loop
    → cs ≡ h.clients
    → h' ≡ stop_listening h.listen_fd h
    → IsSound none [] (remove_all cs h').loop
stopped h h' cs s e k =
    let (t, only) = listening_only h.listen_fd h s in
    remove_all-IsSound cs h' (subst (λ h'. IsTold h'.loop) (sym k) t) (
      subst (λ h'. HasOnly cs h'.loop) (sym k)
        (subst (λ cs. HasOnly cs (stop_listening h.listen_fd h).loop) (sym e) only))

pub stop-IsSound : (h : Host) → IsSoundHost h → IsSoundHost (stop h) × Closed (stop h)
unfolding stop
stop-IsSound h s =
    let (server, file) = Lifecycle.stop h.server h.file in
    let h₁ = record h { running = false; server = server; file = file } in
    let h₂ = stop_listening h.listen_fd h₁ in
    let (closed, still, same) = fields-stop_listening h.listen_fd h₁ refl in
    let (l, r) = fields-remove_all h₂.clients h₂ in
    (
      subst (λ l. IsSound l [] (remove_all h₂.clients h₂).loop) (sym (l ∙ closed))
          (stopped h₁ h₂ h₂.clients s same refl),
      (l ∙ closed, r ∙ still),
    )

pub running-stop : (h : Host) → (stop h).running ≡ false
unfolding stop
running-stop h =
    let (server, file) = Lifecycle.stop h.server h.file in
    let h₁ = record h { running = false; server = server; file = file } in
    let h₂ = stop_listening h.listen_fd h₁ in
    (fields-remove_all h₂.clients h₂).1 ∙ (fields-stop_listening h.listen_fd h₁ refl).1

-- a step of the program: `Tick`, with what the system gives, and `Stop`
pub data Step (system : System) : Host → Host → Type 0 where
  ticks : (h : Host) → Step system h (tick system h)
  stops : (h : Host) → Step system h (stop h)

pub data Reach (system : System) (h : Host) : Host → Type 0 where
  here : Reach system h h
  next : {t u : Host} → Reach system h t → Step system t u → Reach system h u

-- in step, and on the socket `fd` as long as it runs
abbrev Runs : ℕ → Host → Type 0
Runs fd h = IsSoundHost h × ((h.listen_fd ≡ some fd) ⊎ (h.running ≡ false))

Step-Runs :
    {system : System} {t u : Host} (fd : ℕ)
    → AcceptsOthers system (some fd)
    → Step system t u
    → Runs fd t
    → Runs fd u
Step-Runs {system} fd o (ticks h) (s, inl e) =
    let (e', s') = tick-Serves system (some fd) h o (e, s) in (s', inl e')
Step-Runs {system} fd o (ticks h) (s, inr e) =
    subst (Runs fd) (sym (tick-idle system h e)) (s, inr e)
Step-Runs fd o (stops h) (s, k) = let (s', closed) = stop-IsSound h s in (s', inr closed.1)

Reach-Runs :
    {system : System} {h u : Host} (fd : ℕ)
    → AcceptsOthers system (some fd)
    → Reach system h u
    → Runs fd h
    → Runs fd u
Reach-Runs fd o here r = r
Reach-Runs fd o (next path step) r = Step-Runs fd o step (Reach-Runs fd o path r)

abbrev pub no_events : Bool → EventLoop Callback
no_events epoll = record { events = []; epoll = epoll; looping = false; calls = [] }

pub no_events-IsTold : IsTold (no_events true)
unfolding told event_of
no_events-IsTold = record { there = refl; same_interest = λ fd. refl; accepted = tt }

pub nobody : (f : ℕ) (c : Client) → client_of f [] ≢ some c
unfolding client_of
nobody f c e = cc

init-Runs :
    (clock : Clock) (rolls : ℕ → ℕ → Rolls) (fd : ℕ) (now : ℤ) (router : CommandRouter)
    (file : Option Bytes) (log : Bytes)
    → Runs fd (init clock rolls (some fd) (new_host true now router file log)).1
unfolding init new_host event_of client_of
init-Runs clock rolls fd now router file log = (
  record {
    known = add_event-IsTold fd (mask_for false) accepts (no_events true) no_events-IsTold;
    table = λ f.
        event_of-add_event fd (mask_for false) accepts (no_events true) f
        ∙ ap (λ o. if fd == f then some (record { mask = mask_for false; cb = accepts }) else o)
            refl;
    rests = λ f c e. absurd (nobody f c e);
    apart = refl;
  },
  inl refl,
)

-- From the start on a socket, and with an instance of epoll: after any ticks and stops, whatever comes
-- in and goes out, the table of the event loop holds the listening socket with the callback of new
-- connections and each client with its own, and nothing else; the system was told each entry's mask; a
-- client's `writable_mask` is its mask; it waits to write exactly where bytes are left; and one that is
-- to be closed has bytes left. `accept` is assumed never to give the listening socket.
pub Reach-IsSound :
    (clock : Clock) (rolls : ℕ → ℕ → Rolls) (fd : ℕ) (now : ℤ) (router : CommandRouter)
    (file : Option Bytes) (log : Bytes) (system : System) (h : Host)
    → AcceptsOthers system (some fd)
    → Reach system (init clock rolls (some fd) (new_host true now router file log)).1 h
    → IsSoundHost h
Reach-IsSound clock rolls fd now router file log system h o path =
    (Reach-Runs fd o path (init-Runs clock rolls fd now router file log)).0
