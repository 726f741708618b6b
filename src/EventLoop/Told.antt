-- ===== src/EventLoop/Told.antt =====
-- What the system has last been told of a socket is what the table of the event loop says.
use redis_like.Base.{
  ℕ, ◌≡◌, refl, sym, ◌∙◌, ap, true, Option, none, some, List, [], ◌∷◌, ◌==◌, if◌then◌else◌, inl,
  inr, Bool-cases, arith,
}
use redis_like.EventLoop.{
  Interest, interest, EpollOp, epoll_add, epoll_mod, epoll_del, EpollCall, FileEvent, EventLoop,
  event_of, put_event, erase_event, epoll_ctl, add_op, add_event, remove_event, modify_mask,
}

-- the interest that a call leaves
abbrev pub left_by : EpollOp → Option Interest
left_by (epoll_add i) = some i
left_by (epoll_mod i) = some i
left_by epoll_del = none

-- the interest in a socket after a list of calls
unfoldable pub told : ℕ → List EpollCall → Option Interest
told fd [] = none
told fd (c ∷ calls) = let before = told fd calls in if c.fd == fd then left_by c.op else before

-- A socket is added while the system does not know it, and modified while it does.
abbrev pub Accepts : Option Interest → EpollOp → Type 0
Accepts o (epoll_add i) = o ≡ none
Accepts o (epoll_mod i) = (j : Interest) × (o ≡ some j)
Accepts o epoll_del = Unit

abbrev pub AllAccepted : List EpollCall → Type 0
AllAccepted [] = Unit
AllAccepted (c ∷ calls) = Accepts (told c.fd calls) c.op × AllAccepted calls

-- what the server asks of the loop
data Request (C : Type 0) : Type 0 where
  adds : ℕ → ℕ → C → Request C
  removes : ℕ → Request C
  modifies : ℕ → ℕ → Request C

module _ {C : Type 0} where
  abbrev pub interest_of : Option (FileEvent C) → Option Interest
  interest_of none = none
  interest_of (some ev) = some (interest ev.mask)

  -- There is an instance, and its interest is that of the table.
  pub record IsTold (loop : EventLoop C) : Type 0 where
    pub there : loop.epoll ≡ true
    pub same_interest : (fd : ℕ) → told fd loop.calls ≡ interest_of (event_of fd loop.events)
    pub accepted : AllAccepted loop.calls

  pub event_of-put_event :
      (fd f : ℕ) (ev : FileEvent C) (events : List (ℕ × FileEvent C))
      → event_of f (put_event fd ev events) ≡ (if fd == f then some ev else event_of f events)
  unfolding event_of put_event
  event_of-put_event fd f ev [] = refl
  event_of-put_event fd f ev ((g, e) ∷ events) = ground (arith, event_of-put_event fd f ev events)

  pub event_of-erase_event :
      (fd f : ℕ) (events : List (ℕ × FileEvent C))
      → event_of f (erase_event fd events) ≡ (if fd == f then none else event_of f events)
  unfolding event_of erase_event
  event_of-erase_event fd f [] = ground arith
  event_of-erase_event fd f ((g, e) ∷ events) = ground (arith, event_of-erase_event fd f events)

  -- a call that says what the new table says
  told_by :
      (fd : ℕ) (op : EpollOp) (loop : EventLoop C) (events : List (ℕ × FileEvent C))
      → IsTold loop
      → ((f : ℕ)
          → interest_of (event_of f events)
            ≡ (if fd == f then left_by op else interest_of (event_of f loop.events)))
      → Accepts (told fd loop.calls) op
      → IsTold (epoll_ctl fd op (record loop { events = events }))
  unfolding epoll_ctl told
  told_by fd op loop events h says accepts = rw (h.there) (record {
    there = refl;
    same_interest =
        λ f. ap (λ o. if fd == f then left_by op else o) (h.same_interest f) ∙ sym (says f);
    accepted = (accepts, h.accepted);
  })

  interest_of-put_event :
      (fd f : ℕ) (ev : FileEvent C) (events : List (ℕ × FileEvent C))
      → interest_of (event_of f (put_event fd ev events))
        ≡ (if fd == f then some (interest ev.mask) else interest_of (event_of f events))
  interest_of-put_event fd f ev events = elim (Bool-cases (fd == f)) [
    | inl e ↦ rw (event_of-put_event fd f ev events, e) refl
    | inr e ↦ rw (event_of-put_event fd f ev events, e) refl
  ]

  interest_of-erase_event :
      (fd f : ℕ) (events : List (ℕ × FileEvent C))
      → interest_of (event_of f (erase_event fd events))
        ≡ (if fd == f then none else interest_of (event_of f events))
  interest_of-erase_event fd f events = elim (Bool-cases (fd == f)) [
    | inl e ↦ rw (event_of-erase_event fd f events, e) refl
    | inr e ↦ rw (event_of-erase_event fd f events, e) refl
  ]

  left_by-add_op :
      (mask : ℕ) (o : Option (FileEvent C)) → left_by (add_op mask o) ≡ some (interest mask)
  left_by-add_op mask none = refl
  left_by-add_op mask (some ev) = refl

  Accepts-add_op :
      (mask : ℕ) (o : Option (FileEvent C)) (t : Option Interest)
      → t ≡ interest_of o
      → Accepts t (add_op mask o)
  Accepts-add_op mask none t e = e
  Accepts-add_op mask (some ev) t e = (interest ev.mask, e)

  pub add_event-IsTold :
      (fd mask : ℕ) (cb : C) (loop : EventLoop C) → IsTold loop → IsTold (add_event fd mask cb loop)
  unfolding add_event
  add_event-IsTold fd mask cb loop h =
      let o = event_of fd loop.events in
      let ev : FileEvent C = record { mask = mask; cb = cb } in
      told_by fd (add_op mask o) loop (put_event fd ev loop.events) h
        (λ f.
          interest_of-put_event fd f ev loop.events
          ∙ ap (λ i. if fd == f then i else interest_of (event_of f loop.events))
              (sym (left_by-add_op mask o)))
        (Accepts-add_op mask o (told fd loop.calls) (h.same_interest fd))

  pub remove_event-IsTold :
      (fd : ℕ) (loop : EventLoop C) → IsTold loop → IsTold (remove_event fd loop)
  unfolding remove_event
  remove_event-IsTold fd loop h =
      told_by fd epoll_del loop (erase_event fd loop.events) h
        (λ f. interest_of-erase_event fd f loop.events) tt

  modify_mask-IsTold_at :
      (fd mask : ℕ) (loop : EventLoop C) (o : Option (FileEvent C))
      → event_of fd loop.events ≡ o
      → IsTold loop
      → IsTold (modify_mask fd mask loop)
  unfolding modify_mask
  modify_mask-IsTold_at fd mask loop none k h = rw (modify_mask, k) h
  modify_mask-IsTold_at fd mask loop (some ev) k h =
      let ev' : FileEvent C = record ev { mask = mask } in
      rw (modify_mask, k)
        (told_by fd (epoll_mod (interest mask)) loop (put_event fd ev' loop.events) h
          (λ f. interest_of-put_event fd f ev' loop.events)
          (interest ev.mask, h.same_interest fd ∙ ap interest_of k))

  pub modify_mask-IsTold :
      (fd mask : ℕ) (loop : EventLoop C) → IsTold loop → IsTold (modify_mask fd mask loop)
  modify_mask-IsTold fd mask loop h =
      modify_mask-IsTold_at fd mask loop (event_of fd loop.events) refl h

  events-epoll_ctl :
      (fd : ℕ) (op : EpollOp) (loop : EventLoop C) → (epoll_ctl fd op loop).events ≡ loop.events
  unfolding epoll_ctl
  events-epoll_ctl fd op loop = elim (Bool-cases loop.epoll) [
    | inl e ↦ rw e refl
    | inr e ↦ rw e refl
  ]

  pub event_of-add_event :
      (fd mask : ℕ) (cb : C) (loop : EventLoop C) (f : ℕ)
      → event_of f (add_event fd mask cb loop).events
        ≡ (if fd == f then some (record { mask = mask; cb = cb }) else event_of f loop.events)
  unfolding add_event
  event_of-add_event fd mask cb loop f =
      let ev : FileEvent C = record { mask = mask; cb = cb } in
      ap (event_of f) (events-epoll_ctl fd (add_op mask (event_of fd loop.events)) _)
      ∙ event_of-put_event fd f ev loop.events

  pub event_of-remove_event :
      (fd : ℕ) (loop : EventLoop C) (f : ℕ)
      → event_of f (remove_event fd loop).events
        ≡ (if fd == f then none else event_of f loop.events)
  unfolding remove_event
  event_of-remove_event fd loop f =
      ap (event_of f) (events-epoll_ctl fd epoll_del _) ∙ event_of-erase_event fd f loop.events

  pub event_of-modify_mask :
      (fd mask : ℕ) (loop : EventLoop C) (ev : FileEvent C) (f : ℕ)
      → event_of fd loop.events ≡ some ev
      → event_of f (modify_mask fd mask loop).events
        ≡ (if fd == f then some (record ev { mask = mask }) else event_of f loop.events)
  unfolding modify_mask
  event_of-modify_mask fd mask loop ev f e =
      let ev' : FileEvent C = record ev { mask = mask } in
      rw (modify_mask, e)
        (ap (event_of f) (events-epoll_ctl fd (epoll_mod (interest mask)) _)
          ∙ event_of-put_event fd f ev' loop.events)

  abbrev serve : Request C → EventLoop C → EventLoop C
  serve (adds fd mask cb) loop = add_event fd mask cb loop
  serve (removes fd) loop = remove_event fd loop
  serve (modifies fd mask) loop = modify_mask fd mask loop

  abbrev serve_all : List (Request C) → EventLoop C → EventLoop C
  serve_all [] loop = loop
  serve_all (r ∷ rs) loop = serve_all rs (serve r loop)

  serve-IsTold : (r : Request C) (loop : EventLoop C) → IsTold loop → IsTold (serve r loop)
  serve-IsTold (adds fd mask cb) loop h = add_event-IsTold fd mask cb loop h
  serve-IsTold (removes fd) loop h = remove_event-IsTold fd loop h
  serve-IsTold (modifies fd mask) loop h = modify_mask-IsTold fd mask loop h

  -- Whatever is added, removed and modified, in whatever order: the interest that the system was last
  -- told for a socket is that of its mask in the table, and none if it is not there; and a socket is
  -- added only while the system does not know it and modified only while it does.
  serve_all-IsTold :
      (rs : List (Request C)) (loop : EventLoop C) → IsTold loop → IsTold (serve_all rs loop)
  serve_all-IsTold [] loop h = h
  serve_all-IsTold (r ∷ rs) loop h = serve_all-IsTold rs (serve r loop) (serve-IsTold r loop h)
