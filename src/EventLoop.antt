-- ===== src/EventLoop.antt =====
-- `EventLoop` of src/event_loop.h and src/event_loop.cpp, as it is built on Linux. The calls of
-- `epoll_ctl` are kept as a list, the last one first; the events that `epoll_wait` gives are an argument.
pub mod Told
pub mod Kept
pub mod Sockets
use redis_like.Base.{
  ℕ, ◌+◌, ◌/◌, ◌%◌, Bool, true, false, ◌||◌, Option, none, some, List, [], ◌∷◌, ◌==◌, if◌then◌else◌,
}

-- `EPOLLIN` and `EPOLLOUT` of `ee.events`
pub record Interest : Type 0 where
  pub input : Bool
  pub output : Bool

-- the bits `kEventReadable` and `kEventWritable` of a mask
unfoldable pub interest : ℕ → Interest
interest mask = record { input = mask % 2 == 1; output = mask / 2 % 2 == 1 }

pub data EpollOp : Type 0 where
  epoll_add : Interest → EpollOp
  epoll_mod : Interest → EpollOp
  epoll_del : EpollOp

pub record EpollCall : Type 0 where
  pub fd : ℕ
  pub op : EpollOp

module _ (C : Type 0) where
  -- a `FileEvent` under its socket; `C` is the type of the callbacks
  pub record FileEvent : Type 0 where
    pub mask : ℕ
    pub cb : C

  -- `epoll` is `epfd_ != -1`, and `looping` is `running_`
  pub record EventLoop : Type 0 where
    pub events : List (ℕ × FileEvent)
    pub epoll : Bool
    pub looping : Bool
    pub calls : List EpollCall

module _ {C : Type 0} where
  unfoldable pub event_of : ℕ → List (ℕ × FileEvent C) → Option (FileEvent C)
  event_of fd [] = none
  event_of fd ((f, ev) ∷ events) =
      let further = event_of fd events in if f == fd then some ev else further

  unfoldable pub put_event : ℕ → FileEvent C → List (ℕ × FileEvent C) → List (ℕ × FileEvent C)
  put_event fd ev [] = (fd, ev) ∷ []
  put_event fd ev ((f, e) ∷ events) =
      let rest = put_event fd ev events in if f == fd then (f, ev) ∷ events else (f, e) ∷ rest

  unfoldable pub erase_event : ℕ → List (ℕ × FileEvent C) → List (ℕ × FileEvent C)
  erase_event fd [] = []
  erase_event fd ((f, e) ∷ events) =
      let rest = erase_event fd events in if f == fd then rest else (f, e) ∷ rest

  -- a call of `epoll_ctl`, if there is an instance
  unfoldable pub epoll_ctl : ℕ → EpollOp → EventLoop C → EventLoop C
  epoll_ctl fd op loop =
      if loop.epoll then record loop { calls = record { fd = fd; op = op } ∷ loop.calls } else loop

  -- `exists ? EPOLL_CTL_MOD : EPOLL_CTL_ADD`
  abbrev pub add_op : ℕ → Option (FileEvent C) → EpollOp
  add_op mask none = epoll_add (interest mask)
  add_op mask (some ev) = epoll_mod (interest mask)

  unfoldable pub add_event : ℕ → ℕ → C → EventLoop C → EventLoop C
  unfolding event_of put_event epoll_ctl
  add_event fd mask cb loop =
      epoll_ctl fd (add_op mask (event_of fd loop.events))
        (record loop { events = put_event fd (record { mask = mask; cb = cb }) loop.events })

  unfoldable pub remove_event : ℕ → EventLoop C → EventLoop C
  unfolding erase_event epoll_ctl
  remove_event fd loop =
      epoll_ctl fd epoll_del (record loop { events = erase_event fd loop.events })

  unfoldable pub modify_mask : ℕ → ℕ → EventLoop C → EventLoop C
  unfolding event_of put_event epoll_ctl
  modify_mask fd mask loop = elim (event_of fd loop.events) [
    | none ↦ loop
    | some ev ↦
        epoll_ctl fd (epoll_mod (interest mask))
          (record loop { events = put_event fd (record ev { mask = mask }) loop.events })
  ]

  -- `Stop`
  pub stop : EventLoop C → EventLoop C
  stop loop = record loop { looping = false }

-- one of the events that `epoll_wait` gives
pub record Fired : Type 0 where
  pub fd : ℕ
  pub readable : Bool
  pub hung_up : Bool
  pub failed : Bool
  pub writable : Bool

-- a broken connection counts as readable
unfoldable pub fired_mask : Fired → ℕ
fired_mask f =
    (if f.readable || (f.hung_up || f.failed) then 1 else 0) + (if f.writable then 2 else 0)

-- `Dispatch` and `RunOnce` on a state that the loop is part of
module _ {C S : Type 0} (loop_of : S → EventLoop C) (call : C → ℕ → S → S) where
  unfoldable pub dispatch : ℕ → ℕ → S → S
  unfolding event_of
  dispatch fd mask s = elim (event_of fd (loop_of s).events) [
    | none ↦ s
    | some ev ↦ call ev.cb mask s
  ]

  -- the table is looked up anew for each event
  unfoldable pub dispatch_all : List Fired → S → S
  unfolding dispatch fired_mask
  dispatch_all [] s = s
  dispatch_all (f ∷ fs) s =
      dispatch_all fs (if fired_mask f == 0 then s else dispatch f.fd (fired_mask f) s)

  unfoldable pub run_once : List Fired → S → S
  unfolding dispatch_all
  run_once fired s = if (loop_of s).epoll then dispatch_all fired s else s

  -- the loop of `Run`, on what `epoll_wait` gives in each round
  pub run_rounds : List (List Fired) → S → S
  unfolding run_once
  run_rounds [] s = s
  run_rounds (fired ∷ rounds) s =
      let rest = run_rounds rounds (run_once fired s) in if (loop_of s).looping then rest else s

  -- `Run`, with what puts the loop back into the state
  pub run : (EventLoop C → S → S) → List (List Fired) → S → S
  unfolding run_rounds
  run put rounds s = run_rounds rounds (put (record (loop_of s) { looping = true }) s)
