-- ===== src/Child/Kinds.antt =====
-- The objects that the child of inc/http_task.h registers with `epoll`: an event leads to an object of the
-- kind that the code takes it for.
use mathlib.Core.List.{Memᴰ}
use http_callback_serve_vers.Base.{
  ℕ, Bool, true, false, List, [], ◌∷◌, ◌++◌, none, some, Bytes, ok, Yields, Yields-and_then, ℤ,
  eq_ℤ, ◌≡◌, refl, sym, All, All-append, All-Mem, Bool-cases, inl, inr, subst,
}
use http_callback_serve_vers.Request.{HttpRequest}
use http_callback_serve_vers.Tcp.{HttpTcp}
use http_callback_serve_vers.Handler.{Files, http_module_handler_response}
use http_callback_serve_vers.Child.{
  Data, descriptor, pointer, data_fd, tcp, request, object_at, Event, Call, add_in, mod_out, del,
  closed, Answers, Child, new_client, read_event, write_event, handle_event,
}
use http_callback_serve_vers.Child.Typed.{Typed, AllTyped, new_client-AllTyped, read_event-AllTyped}
use http_callback_serve_vers.Child.Steps.{eq_ℤ_self}

module _ (files : Files) (junk memory : Bytes) (fd0 : ℤ) where
  -- `epoll` gives an event for data that was registered, and no EPOLLIN where only EPOLLOUT was asked for,
  -- nor the other way round.
  pub data Offered (calls : List Call) (e : Event) : Type 0 where
    to_read : (fd : ℤ) → Memᴰ (add_in fd e.data_of) calls → e.writable ≡ false → Offered calls e
    to_write : (fd : ℤ) → Memᴰ (mod_out fd e.data_of) calls → e.readable ≡ false → Offered calls e

  -- The child handles an event that was offered; a new object does not lie where one lies already.
  pub data Step (c c' : Child) : Type 0 where
    handled :
        (k : Answers) (e : Event) (stop : Bool)
        → object_at c.heap k.address ≡ none
        → Offered c.calls e
        → handle_event files junk memory fd0 k e c ≡ ok (stop, c')
        → Step c c'

  pub data Reach (start : Child) : Child → Type 0 where
    here : Reach start start
    next : {c c' : Child} → Reach start c → Step c c' → Reach start c'

  -- How the event is handled: each object is one of the kind that the code takes it for.
  pub data Intended (k : Answers) (e : Event) (c : Child) : Type 0 where
    arrives :
        eq_ℤ (data_fd e.data_of) fd0 ≡ true
        → handle_event files junk memory fd0 k e c ≡ new_client k c
        → Intended k e c
    reads :
        (p : ℕ) (t : HttpTcp)
        → e.readable ≡ true
        → e.data_of ≡ pointer p
        → object_at c.heap p ≡ some (tcp t)
        → handle_event files junk memory fd0 k e c ≡ read_event k p t c
        → Intended k e c
    writes :
        (p : ℕ) (req : HttpRequest)
        → e.writable ≡ true
        → e.data_of ≡ pointer p
        → object_at c.heap p ≡ some (request req)
        → handle_event files junk memory fd0 k e c
          ≡ write_event files junk memory fd0 (data_fd (pointer p)) req c
        → Intended k e c
    hangs_up :
        e.readable ≡ false
        → e.writable ≡ false
        → handle_event files junk memory fd0 k e c
          ≡ ok (false, record c { calls = c.calls ++ del fd0 ∷ closed fd0 ∷ [] })
        → Intended k e c

  write_event-AllTyped :
      (fd : ℤ) (req : HttpRequest) (c : Child)
      → AllTyped fd0 c
      → Yields (λ r. AllTyped fd0 r.1) (write_event files junk memory fd0 fd req c)
  unfolding write_event
  write_event-AllTyped fd req c s =
      Yields-and_then (λ r. AllTyped fd0 r.1)
        (http_module_handler_response files junk memory req (c.sockets fd)) _
        (λ w. All-append (Typed fd0 c.heap) c.calls (del fd ∷ closed fd ∷ []) s (tt, (tt, tt)))

  offered_read-Intended :
      (k : Answers) (e : Event) (c : Child) (fd : ℤ) (d : Data)
      → e.data_of ≡ d
      → Typed fd0 c.heap (add_in fd d)
      → eq_ℤ (data_fd e.data_of) fd0 ≡ false
      → e.writable ≡ false
      → Intended k e c
  unfolding handle_event
  offered_read-Intended k e c fd (descriptor d) is h ne w = absurd cc
  offered_read-Intended k e c fd (pointer p) is (t, h) ne w = elim (Bool-cases e.readable) [
    | inl r ↦ reads p t r is h (rw (ne, r, is) (rw h refl))
    | inr r ↦ hangs_up r w (rw (ne, r, w) refl)
  ]

  offered_write-Intended :
      (k : Answers) (e : Event) (c : Child) (fd : ℤ) (d : Data)
      → e.data_of ≡ d
      → Typed fd0 c.heap (mod_out fd d)
      → eq_ℤ (data_fd e.data_of) fd0 ≡ false
      → e.readable ≡ false
      → Intended k e c
  unfolding handle_event
  offered_write-Intended k e c fd (descriptor d) is h ne r = absurd h
  offered_write-Intended k e c fd (pointer p) is (req, h) ne r = elim (Bool-cases e.writable) [
    | inl w ↦ writes p req w is h (rw (ne, r, w, is) (rw h refl))
    | inr w ↦ hangs_up r w (rw (ne, r, w) refl)
  ]

  pub Offered-Intended :
      (k : Answers) (e : Event) (c : Child) → AllTyped fd0 c → Offered c.calls e → Intended k e c
  unfolding handle_event
  Offered-Intended k e c s o = elim (Bool-cases (eq_ℤ (data_fd e.data_of) fd0)) [
    | inl h ↦ arrives h (rw h refl)
    | inr h ↦ elim o [
      | to_read fd m w ↦
          offered_read-Intended k e c fd e.data_of refl (All-Mem (Typed fd0 c.heap) c.calls s m) h w
      | to_write fd m r ↦
          offered_write-Intended k e c fd e.data_of refl (All-Mem (Typed fd0 c.heap) c.calls s m) h
            r
    ]
  ]

  Intended-AllTyped :
      (k : Answers) (e : Event) (c : Child)
      → object_at c.heap k.address ≡ none
      → AllTyped fd0 c
      → Intended k e c
      → Yields (λ r. AllTyped fd0 r.1) (handle_event files junk memory fd0 k e c)
  Intended-AllTyped k e c new s (arrives a h) = rw h (new_client-AllTyped fd0 k c new s)
  Intended-AllTyped k e c new s (reads p t r is at h) =
      rw h (read_event-AllTyped fd0 k p t c at new s)
  Intended-AllTyped k e c new s (writes p req w is at h) =
      rw h (write_event-AllTyped (data_fd (pointer p)) req c s)
  Intended-AllTyped k e c new s (hangs_up r w h) =
      rw h (All-append (Typed fd0 c.heap) c.calls (del fd0 ∷ closed fd0 ∷ []) s (tt, (tt, tt)))

  Step-AllTyped : {c c' : Child} → Step c c' → AllTyped fd0 c → AllTyped fd0 c'
  Step-AllTyped {c} {c'} (handled k e stop new o h) s =
      subst (Yields (λ r. AllTyped fd0 r.1)) h
        (Intended-AllTyped k e c new s (Offered-Intended k e c s o))

  pub Reach-AllTyped : {start c : Child} → AllTyped fd0 start → Reach start c → AllTyped fd0 c
  Reach-AllTyped s here = s
  Reach-AllTyped s (next r st) = Step-AllTyped st (Reach-AllTyped s r)

  -- The registrations with which `jump_task_pool_obj` enters its loop.
  pub entered-AllTyped :
      (fd1 : ℤ) (start : Child)
      → start.calls ≡ closed fd1 ∷ add_in fd0 (descriptor fd0) ∷ []
      → AllTyped fd0 start
  entered-AllTyped fd1 start first =
      subst (All (Typed fd0 start.heap)) (sym first) (tt, (eq_ℤ_self fd0, tt))

  -- Whatever the clients send, and in whichever order events arrive, from the state in which
  -- `jump_task_pool_obj` enters its loop, where a new object never lies where one lies already: an
  -- event that `epoll` gives for data that was registered is handled as a new client, as a read
  -- from a connection object, as an answer to a request, or, where it is neither EPOLLIN nor
  -- EPOLLOUT, by closing `fd[0]`. The pointer that is followed then leads to an object in the heap
  -- that is of that kind.
  pub Reach-Intended :
      (fd1 : ℤ) {start c : Child} (k : Answers) (e : Event)
      → start.calls ≡ closed fd1 ∷ add_in fd0 (descriptor fd0) ∷ []
      → Reach start c
      → Offered c.calls e
      → Intended k e c
  Reach-Intended fd1 {start} {c} k e first r o =
      Offered-Intended k e c (Reach-AllTyped (entered-AllTyped fd1 start first) r) o
