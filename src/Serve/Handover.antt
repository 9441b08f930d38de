-- ===== src/Serve/Handover.antt =====
-- From `accept` in the main process of src/core/epoll_circle.h to `epoll_ctl` in a child of
-- inc/http_task.h: what becomes of the clients that wait.
use http_callback_serve_vers.Base.{
  ℕ, suc, ◌+◌, ◌≤◌, true, false, List, [], ◌∷◌, ◌++◌, map, Option, some, Bytes, ok, ℤ, pos, eq_ℤ,
  ◌≡◌, refl, sym, ◌∙◌, append_assoc, append-nil, All, length,
}
use http_callback_serve_vers.Tcp.{http_tcp_alloc}
use http_callback_serve_vers.Tcp.Callback.{tcp}
use http_callback_serve_vers.Handler.{Files}
use http_callback_serve_vers.Sock.{Cmsg, rights, sock_fd_write}
use http_callback_serve_vers.Child.{Answers, Child, Call, add_in, pointer, handle_batch}
use http_callback_serve_vers.Child.Steps.{arrival, Received, accepted_client, handle_event-arrival}
use http_callback_serve_vers.Serve.{Main, MainEvent, main_event}
use http_callback_serve_vers.Serve.Passed.{arrivals, fds, Passes, after, main_event-passed}

-- The kernel between the two processes: a control message keeps its header, and the descriptor becomes
-- one of the receiver, as unix(7) documents it.
pub record Kernel : Type 0 where
  pub install : ℤ → ℤ
  pub deliver : Option Cmsg → Option Cmsg
  pub deliver-rights : (fd : ℤ) → deliver (some (rights fd)) ≡ some (rights (install fd))

module _ (K : Kernel) (buf : Bytes) where
  open K use {install, deliver, deliver-rights}

  -- While the child handles its event, `recvmsg` gives the message that `Sock_fd_write` sent for `fd`, and
  -- no other call fails.
  pub record Delivered (s b : Bytes) (k : Answers) (fd : ℤ) : Type 0 where
    pub got_bytes : (n : ℕ) × (k.size ≡ pos n)
    pub message : k.control ≡ deliver (sock_fd_write buf 2 fd (pos 2)).1.control
    pub allocated :
        http_tcp_alloc (install fd) k.got_item k.got_context k.context_buf k.item_buf
        ≡ some (tcp (install fd) s b)
    pub got_flags : (n : ℕ) × (k.flags ≡ pos n)
    pub flags_set : (n : ℕ) × (k.set_flags ≡ pos n)

  -- One event of the child for each descriptor passed.
  abbrev pub AllDelivered : List Answers → List ℤ → Type 0
  AllDelivered [] [] = Unit
  AllDelivered (k ∷ ks) (fd ∷ passed) =
      ((s : Bytes) × (b : Bytes) × Delivered s b k fd) × AllDelivered ks passed
  AllDelivered _ _ = ⊥

  -- The child registers each of its new descriptors with its connection object.
  abbrev pub registrations : List Answers → List ℤ → List Call
  registrations (k ∷ ks) (fd ∷ passed) =
      add_in (install fd) (pointer k.address) ∷ registrations ks passed
  registrations _ _ = []

  pub Delivered-Received :
      (s b : Bytes) (k : Answers) (n : ℕ)
      → Delivered s b k (pos n)
      → Received k (install (pos n)) s b
  unfolding sock_fd_write
  Delivered-Received s b k n h = record {
    got_bytes = h.got_bytes;
    got_rights = h.message ∙ deliver-rights (pos n);
    allocated = h.allocated;
    got_flags = h.got_flags;
    flags_set = h.flags_set;
  }

  module _ (files : Files) (junk memory : Bytes) (fd0 : ℤ) where
    handle_batch-registrations :
        (ns : List ℕ) (ks : List Answers) (c : Child)
        → AllDelivered ks (fds ns)
        → (c' : Child) × (handle_batch files junk memory fd0 (map (λ k. (k, arrival fd0)) ks) c
            ≡ ok c')
          × (c'.calls ≡ c.calls ++ registrations ks (fds ns))
    unfolding handle_batch
    handle_batch-registrations [] [] c h = (c, refl, sym (append-nil c.calls))
    handle_batch-registrations [] (k ∷ ks) c h = absurd h
    handle_batch-registrations (n ∷ ns) [] c h = absurd h
    handle_batch-registrations (n ∷ ns) (k ∷ ks) c ((s, b, h), hs) =
        let fd = install (pos (suc n)) in
        let next = accepted_client k fd s b c in
        let (c', run, calls) = handle_batch-registrations ns ks next hs in
        (
          c',
          rw
              (handle_event-arrival files junk memory fd0 k fd s b c
                (Delivered-Received s b k (suc n) h))
              run,
          calls
              ∙ append_assoc c.calls (add_in fd (pointer k.address) ∷ [])
                  (registrations ks (fds ns)),
        )

    -- All clients that wait at the listening socket reach the child, in the order in which they came: the
    -- main process passes each of them once, and the child that receives the messages registers for
    -- each the descriptor that the kernel installed. No client is descriptor 0, each `sendmsg` passes
    -- something, and no call of the child fails.
    pub main_event-handle_batch :
        (listenfd : ℤ) (ns : List ℕ) (e : MainEvent) (m : Main) (ks : List Answers) (c : Child)
        → e.failed ≡ false
        → eq_ℤ e.fd listenfd ≡ true
        → e.accepts ≡ arrivals ns
        → All Passes e.sends
        → length ns ≤ length e.sends
        → AllDelivered ks (fds ns)
        → (m' : Main) × (c' : Child) × (main_event listenfd e m ≡ ok m')
          × (m'.passed ≡ m.passed ++ fds ns)
          × (m'.g_count ≡ m.g_count + length ns)
          × (handle_batch files junk memory fd0 (map (λ k. (k, arrival fd0)) ks) c ≡ ok c')
          × (c'.calls ≡ c.calls ++ registrations ks (fds ns))
    main_event-handle_batch listenfd ns e m ks c h0 h1 h2 hs hl hd =
        let (c', run, calls) = handle_batch-registrations ns ks c hd in
        (after ns m, c', main_event-passed listenfd ns e m h0 h1 h2 hs hl, refl, refl, run, calls)
