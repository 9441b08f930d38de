-- ===== src/Serve/Answered.antt =====
-- From `accept` in the main process of src/core/epoll_circle.h to the answers of a child of inc/http_task.h.
use http_callback_serve_vers.Base.{
  ℕ, suc, ◌+◌, ◌≤◌, false, true, List, [], ◌∷◌, ◌++◌, Bytes, ok, and_then, ℤ, pos, eq_ℤ, ◌≡◌, refl,
  All, length,
}
use http_callback_serve_vers.Handler.{Files}
use http_callback_serve_vers.Child.{Child, closed, add_in, descriptor, jump_task_pool_obj}
use http_callback_serve_vers.Child.Steps.{Received}
use http_callback_serve_vers.Child.Visits.{
  Visit, IsAsking, IsVisit, IsPending, rounds_of, seen, reply_all, jump_task_pool_obj-reply_all,
}
use http_callback_serve_vers.Serve.{Main, MainEvent, main_event}
use http_callback_serve_vers.Serve.Passed.{arrivals, fds, Passes, after, main_event-passed}
use http_callback_serve_vers.Serve.Handover.{Kernel, Delivered, Delivered-Received}

module _ (K : Kernel) (buf clean : Bytes) (d : ℕ) (fd0 : ℤ) where
  open K use {install}

  -- One visit for each descriptor passed, on the descriptor that the kernel installed for it.
  abbrev pub AllServed : List Visit → List ℤ → Type 0
  AllServed [] [] = Unit {0}
  AllServed (v ∷ vs) (fd ∷ passed) =
      Delivered K buf v.s v.left v.k fd
      × (v.fd ≡ install fd)
      × IsAsking clean d fd0 v
      × AllServed vs passed
  AllServed _ _ = ⊥

  AllServed-IsVisit :
      (vs : List Visit) (ns : List ℕ) → AllServed vs (fds ns) → All (IsVisit clean d fd0) vs
  AllServed-IsVisit [] [] h = tt
  AllServed-IsVisit [] (n ∷ ns) h = absurd h
  AllServed-IsVisit (v ∷ vs) [] h = absurd h
  AllServed-IsVisit (v ∷ vs) (n ∷ ns) (delivered, installed, asking, h) =
      let received : Received v.k v.fd v.s v.left =
        rw installed (Delivered-Received K buf v.s v.left v.k (suc n) delivered) in
      (record { received = received; asking = asking }, AllServed-IsVisit vs ns h)

  -- The main process passes each client that waits at the listening socket once, in the order in which
  -- they came. A child that starts without a failure, receives the messages, and takes care of one
  -- client after the other, sends what `reply` says for each request in order, on the
  -- descriptor that is the low half of the address of the request object. Where a reply does not come
  -- to an end, or is a fault, so is the run of the child. Each client sends `read_count` bytes in one
  -- piece, which make a well-formed request behind the string that `malloc` left in the buffer of the
  -- connection. No client is descriptor 0, each `sendmsg`
  -- passes something, no call of the child fails while a client is received, there is memory for its
  -- request, no object lies where its address would be read as `fd[0]`, and method and URL are plain
  -- words that fit their arrays together with what the stack holds behind them.
  pub main_event-reply_all :
      (files : Files) (memory more : Bytes) (listenfd fd1 : ℤ) (made n n' : ℕ) (ns : List ℕ)
      (e : MainEvent) (m : Main) (vs : List Visit) (c : Child)
      → e.failed ≡ false
      → eq_ℤ e.fd listenfd ≡ true
      → e.accepts ≡ arrivals ns
      → All Passes e.sends
      → length ns ≤ length e.sends
      → AllServed vs (fds ns)
      → IsPending vs c.inbox
      → (m' : Main) × (main_event listenfd e m ≡ ok m')
        × (m'.passed ≡ m.passed ++ fds ns)
        × (m'.g_count ≡ m.g_count + length ns)
        × (and_then
              (jump_task_pool_obj files
                (clean ++ d ∷ more)
                memory
                fd0
                fd1
                (pos made)
                (pos n)
                (pos n')
                (rounds_of fd0 vs)
                c)
              (λ (c' : Child). ok (seen c'))
            ≡ reply_all files vs
                (c.sockets, c.calls ++ closed fd1 ∷ add_in fd0 (descriptor fd0) ∷ []))
  main_event-reply_all files memory more listenfd fd1 made n n' ns e m vs c h0 h1 h2 hs hl served
        pending =
      (
        after ns m,
        main_event-passed listenfd ns e m h0 h1 h2 hs hl,
        refl,
        refl,
        jump_task_pool_obj-reply_all files memory clean d more fd0 fd1 made n n' vs c
            (AllServed-IsVisit vs ns served) pending,
      )
