-- ===== src/EventLoop/Kept.antt =====
-- What every callback keeps, `RunOnce` and `Run` of src/event_loop.cpp keep.
use redis_like.Base.{
  ℕ, ◌≡◌, refl, true, false, List, [], ◌∷◌, ◌++◌, ◌==◌, inl, inr, Bool-cases, Option-cases,
}
use redis_like.EventLoop.{
  EventLoop, Fired, event_of, dispatch, dispatch_all, run_once, fired_mask, run_rounds, run, stop,
}

module _ {C S : Type 0} (loop_of : S → EventLoop C) (call : C → ℕ → S → S) where
  module _ (P : S → Type 0) (keeps : (cb : C) (mask : ℕ) (s : S) → P s → P (call cb mask s)) where
    dispatch-kept : (fd mask : ℕ) (s : S) → P s → P (dispatch loop_of call fd mask s)
    unfolding dispatch
    dispatch-kept fd mask s p = elim (Option-cases (event_of fd (loop_of s).events)) [
      | inl e ↦ rw (dispatch, e) p
      | inr (ev, e) ↦ rw (dispatch, e) (keeps ev.cb mask s p)
    ]

    dispatch_all-kept : (fs : List Fired) (s : S) → P s → P (dispatch_all loop_of call fs s)
    unfolding dispatch_all
    dispatch_all-kept [] s p = p
    dispatch_all-kept (f ∷ fs) s p = elim (Bool-cases (fired_mask f == 0)) [
      | inl e ↦ rw e (dispatch_all-kept fs s p)
      | inr e ↦ rw e (
          dispatch_all-kept fs (dispatch loop_of call f.fd (fired_mask f) s)
            (dispatch-kept f.fd (fired_mask f) s p))
    ]

    pub run_once-kept : (fired : List Fired) (s : S) → P s → P (run_once loop_of call fired s)
    unfolding run_once
    run_once-kept fired s p = elim (Bool-cases (loop_of s).epoll) [
      | inl e ↦ rw e (dispatch_all-kept fired s p)
      | inr e ↦ rw e p
    ]

    run_rounds-kept :
        (rounds : List (List Fired)) (s : S) → P s → P (run_rounds loop_of call rounds s)
    unfolding run_rounds
    run_rounds-kept [] s p = p
    run_rounds-kept (fired ∷ rounds) s p = elim (Bool-cases (loop_of s).looping) [
      | inl e ↦
          rw e (run_rounds-kept rounds (run_once loop_of call fired s) (run_once-kept fired s p))
      | inr e ↦ rw e p
    ]

    run-kept :
        (put : EventLoop C → S → S) (rounds : List (List Fired)) (s : S)
        → P (put (record (loop_of s) { looping = true }) s)
        → P (run loop_of call put rounds s)
    unfolding run
    run-kept put rounds s p =
        run_rounds-kept rounds (put (record (loop_of s) { looping = true }) s) p

  run_rounds-append :
      (rounds more : List (List Fired)) (s : S)
      → (loop_of (run_rounds loop_of call rounds s)).looping ≡ false
      → run_rounds loop_of call (rounds ++ more) s ≡ run_rounds loop_of call rounds s
  unfolding run_rounds
  run_rounds-append [] [] s e = refl
  run_rounds-append [] (fired ∷ more) s e = rw e refl
  run_rounds-append (fired ∷ rounds) more s e = elim (Bool-cases (loop_of s).looping) [
    | inl b ↦ rw b (run_rounds-append rounds more (run_once loop_of call fired s) (rw b at e))
    | inr b ↦ rw b refl
  ]

  -- `Run` has ended with the round in which the loop was stopped: what would be fired later is nothing
  -- to it.
  run-append :
      (put : EventLoop C → S → S) (rounds more : List (List Fired)) (s : S)
      → (loop_of (run loop_of call put rounds s)).looping ≡ false
      → run loop_of call put (rounds ++ more) s ≡ run loop_of call put rounds s
  unfolding run
  run-append put rounds more s e =
      run_rounds-append rounds more (put (record (loop_of s) { looping = true }) s) e

  -- A round does not begin once the loop is stopped, where `put` puts the loop into the state.
  run_rounds-stop :
      (put : EventLoop C → S → S) (rounds : List (List Fired)) (s : S)
      → ((loop : EventLoop C) → loop_of (put loop s) ≡ loop)
      → run_rounds loop_of call rounds (put (stop (loop_of s)) s) ≡ put (stop (loop_of s)) s
  unfolding run_rounds stop
  run_rounds-stop put [] s puts = refl
  run_rounds-stop put (fired ∷ rounds) s puts =
      rw (puts (record (loop_of s) { looping = false })) refl
