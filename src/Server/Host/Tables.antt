-- ===== src/Server/Host/Tables.antt =====
-- A client of src/server.cpp that is stored or taken away together with its event.
use mathlib.Core.Path.{subst}
use redis_like.Base.{
  ℕ, ◌≡◌, refl, sym, ◌∙◌, ap, Bool, true, false, Option, none, some, List, ◌==◌, if◌then◌else◌,
  arith, inl, inr, Bool-cases,
}
use redis_like.EventLoop.{EventLoop, FileEvent, event_of, remove_event}
use redis_like.EventLoop.Told.{IsTold, remove_event-IsTold, event_of-remove_event}
use redis_like.Server.{Client}
use redis_like.Server.Host.{Callback, client_of, put_client, erase_client}
use redis_like.Server.Host.Sound.{
  IsSound, Rests, IsApart, event_for, event_due, client_of-put_client, client_of-erase_client,
}
use redis_like.Server.Host.Flush.{IsFlushed}

-- not the listening socket
abbrev pub IsOther : Option ℕ → ℕ → Type 0
IsOther none fd = Unit
IsOther (some l) fd = (l == fd) ≡ false

pub client-IsOther :
    (l : Option ℕ) (fd : ℕ) (c : Client) (cs : List (ℕ × Client))
    → IsApart l cs
    → client_of fd cs ≡ some c
    → IsOther l fd
client-IsOther none fd c cs a e = tt
client-IsOther (some l) fd c cs a e = ground (arith, ap (λ n. client_of n cs))

pub due_client :
    (l : Option ℕ) (fd : ℕ) (c : Client)
    → IsOther l fd
    → event_due l fd (some c) ≡ some (event_for fd c)
due_client none fd c o = refl
due_client (some l) fd c o = rw o refl

due_none : (l : Option ℕ) (fd : ℕ) → IsOther l fd → event_due l fd none ≡ none
due_none none fd o = refl
due_none (some l) fd o = rw o refl

-- the same number
same_fd : (fd f : ℕ) → (fd == f) ≡ true → fd ≡ f
same_fd fd f e = ground arith

table_at :
    (l : Option ℕ) (fd f : ℕ) (c : Client) (o : Option Client)
    → IsOther l fd
    → (if fd == f then some (event_for fd c) else event_due l f o)
      ≡ event_due l f (if fd == f then some c else o)
table_at l fd f c o other = elim (Bool-cases (fd == f)) [
  | inl e ↦ rw e (
      subst (λ g. some (event_for fd c) ≡ event_due l g (some c)) (same_fd fd f e)
        (sym (due_client l fd c other)))
  | inr e ↦ rw e refl
]

table_without :
    (l : Option ℕ) (fd f : ℕ) (x : Option (FileEvent Callback)) (o : Option Client)
    → IsOther l fd
    → ((fd == f) ≡ false → x ≡ event_due l f o)
    → (if fd == f then none else x) ≡ event_due l f (if fd == f then none else o)
table_without l fd f x o other k = elim (Bool-cases (fd == f)) [
  | inl e ↦
      rw e (subst (λ g. none ≡ event_due l g none) (same_fd fd f e) (sym (due_none l fd other)))
  | inr e ↦ rw e (k e)
]

put-Rests :
    (fd f : ℕ) (c d : Client) (o : Option Client)
    → Rests c
    → (o ≡ some d → Rests d)
    → (if fd == f then some c else o) ≡ some d
    → Rests d
put-Rests fd f c d o r others e = elim (Bool-cases (fd == f)) [
  | inl b ↦ let own : c ≡ d = ground arith in subst Rests own r
  | inr b ↦ others (rw b at e)
]

erase-Rests :
    (fd f : ℕ) (d : Client) (o : Option Client)
    → ((fd == f) ≡ false → o ≡ some d → Rests d)
    → (if fd == f then none else o) ≡ some d
    → Rests d
erase-Rests fd f d o others e = elim (Bool-cases (fd == f)) [
  | inl b ↦ absurd (ground arith)
  | inr b ↦ others b (rw b at e)
]

put_client-IsApart :
    (l : Option ℕ) (fd : ℕ) (c : Client) (cs : List (ℕ × Client))
    → IsOther l fd
    → IsApart l cs
    → IsApart l (put_client fd c cs)
put_client-IsApart none fd c cs o a = tt
put_client-IsApart (some l) fd c cs o a = client_of-put_client fd l c cs ∙ ground arith

erase_client-IsApart :
    (l : Option ℕ) (fd : ℕ) (cs : List (ℕ × Client)) → IsApart l cs → IsApart l (erase_client fd cs)
erase_client-IsApart none fd cs a = tt
erase_client-IsApart (some l) fd cs a = client_of-erase_client fd l cs ∙ ground arith

-- a client that is stored with its event
pub put_client-IsSound :
    (l : Option ℕ) (fd : ℕ) (c : Client) (cs : List (ℕ × Client)) (loop loop' : EventLoop Callback)
    → IsSound l cs loop
    → IsOther l fd
    → Rests c
    → IsTold loop'
    → ((f : ℕ)
        → event_of f loop'.events
          ≡ (if fd == f then some (event_for fd c) else event_of f loop.events))
    → IsSound l (put_client fd c cs) loop'
put_client-IsSound l fd c cs loop loop' h o r t e = record {
  known = t;
  table = λ f.
      e f
      ∙ ap (λ x. if fd == f then some (event_for fd c) else x) (h.table f)
      ∙ table_at l fd f c (client_of f cs) o
      ∙ ap (event_due l f) (sym (client_of-put_client fd f c cs));
  rests = λ f d k.
      put-Rests fd f c d (client_of f cs) r (h.rests f d)
        (sym (client_of-put_client fd f c cs) ∙ k);
  apart = put_client-IsApart l fd c cs o h.apart;
}

-- in step but for one socket
pub record IsSoundBut (fd : ℕ) (l : Option ℕ) (cs : List (ℕ × Client)) (loop : EventLoop Callback)
    : Type 0 where
  known : IsTold loop
  table : (f : ℕ) → (fd == f) ≡ false → event_of f loop.events ≡ event_due l f (client_of f cs)
  pub rests : (f : ℕ) (c : Client) → (fd == f) ≡ false → client_of f cs ≡ some c → Rests c
  pub apart : IsApart l cs

pub but_one :
    (fd : ℕ) (l : Option ℕ) (cs : List (ℕ × Client)) (loop : EventLoop Callback)
    → IsSound l cs loop
    → IsSoundBut fd l cs loop
but_one fd l cs loop h = record {
  known = h.known;
  table = λ f e. h.table f;
  rests = λ f c e. h.rests f c;
  apart = h.apart;
}

pub put_client-IsSoundBut :
    (l : Option ℕ) (fd : ℕ) (r : Client × EventLoop Callback) (cs : List (ℕ × Client))
    (loop : EventLoop Callback)
    → IsSound l cs loop
    → IsOther l fd
    → IsFlushed fd loop r
    → IsSoundBut fd l (put_client fd r.0 cs) r.1
put_client-IsSoundBut l fd r cs loop h o flushed = record {
  known = flushed.known;
  table = λ f e.
      flushed.others f
      ∙ ap (λ (b : Bool). if b then some (event_for fd r.0) else event_of f loop.events) e
      ∙ h.table f
      ∙ ap (event_due l f) (sym (away f e));
  rests = λ f c e k. h.rests f c (sym (away f e) ∙ k);
  apart = put_client-IsApart l fd r.0 cs o h.apart;
}
  where
    away : (f : ℕ) → (fd == f) ≡ false → client_of f (put_client fd r.0 cs) ≡ client_of f cs
    away f e =
        client_of-put_client fd f r.0 cs
        ∙ ap (λ (b : Bool). if b then some r.0 else client_of f cs) e

-- a client that is taken away with its event
pub erase_client-IsSound :
    (l : Option ℕ) (fd : ℕ) (cs : List (ℕ × Client)) (loop : EventLoop Callback)
    → IsSoundBut fd l cs loop
    → IsOther l fd
    → IsSound l (erase_client fd cs) (remove_event fd loop)
erase_client-IsSound l fd cs loop h o = record {
  known = remove_event-IsTold fd loop h.known;
  table = λ f.
      event_of-remove_event fd loop f
      ∙ table_without l fd f (event_of f loop.events) (client_of f cs) o (h.table f)
      ∙ ap (event_due l f) (sym (client_of-erase_client fd f cs));
  rests = λ f d k.
      erase-Rests fd f d (client_of f cs) (h.rests f d) (sym (client_of-erase_client fd f cs) ∙ k);
  apart = erase_client-IsApart l fd cs h.apart;
}
