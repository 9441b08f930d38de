-- ===== src/Sock/Opened.antt =====
-- The callers of the checked calls of inc/sock.h: which descriptors they leave open, and that the pair
-- of calls which passes a descriptor fits together.
use http_callback_serve_vers.Base.{
  ℕ, ◌≡◌, refl, ◌∙◌, ap, List, [], ◌∷◌, ◌++◌, Option, none, some, if◌then◌else◌, Bytes, codes, Run,
  ok, exit, ℤ, pos, negsuc, minus_one, eq_ℤ, not, All, ==_self, ◌⊎◌, inl, inr, Bool-cases, is_neg,
}
use http_callback_serve_vers.Sock.{
  Fds, close, Attempt, client_loop, open_clientfd, Endpoint, listen_loop, listen_on, open_listenfd,
  Cmsg, rights, sock_fd_write, sock_fd_read,
}

pub close_head : (fd : ℕ) (fds : Fds) → close fd (fd ∷ fds) ≡ fds
unfolding close
close_head fd fds = rw (==_self fd) refl

pub ℤ-cases : (z : ℤ) → ((n : ℕ) × (z ≡ pos n)) ⊎ ((n : ℕ) × (z ≡ negsuc n))
ℤ-cases (pos n) = inl (n, refl)
ℤ-cases (negsuc n) = inr (n, refl)

-- The descriptor of the first address that gives a socket and lets it connect.
abbrev pub connected : List Attempt → Option ℕ
connected [] = none
connected (a ∷ addrs) =
    let rest = connected addrs in
    elim a.socket_result [
      | negsuc e ↦ rest
      | pos fd ↦ if not (eq_ℤ a.connect_result minus_one) then some fd else rest
    ]

abbrev pub opened : Option ℕ → Fds → ℤ × Fds
opened none fds = (minus_one, fds)
opened (some fd) fds = (pos fd, fd ∷ fds)

client_loop-connected :
    (addrs : List Attempt) (fds : Fds) → client_loop addrs fds ≡ opened (connected addrs) fds
unfolding client_loop
client_loop-connected [] fds = refl
client_loop-connected (a ∷ addrs) fds = elim (ℤ-cases a.socket_result) [
  | inr (e, h) ↦ rw h (client_loop-connected addrs fds)
  | inl (fd, h) ↦ rw h (elim (Bool-cases (eq_ℤ a.connect_result minus_one)) [
    | inl c ↦
        rw c (ap (λ f. client_loop addrs f) (close_head fd fds) ∙ client_loop-connected addrs fds)
    | inr c ↦ rw c refl
  ])
]

-- Where `getaddrinfo` succeeds, `open_clientfd` returns the descriptor of the first address that gives
-- a socket and connects, and -1 where there is none. That descriptor is all that it leaves open: the
-- sockets of the addresses before it are closed.
pub open_clientfd-connected :
    (n : ℕ) (addrs : List Attempt) (fds : Fds)
    → open_clientfd (pos n) addrs fds ≡ ok (opened (connected addrs) fds)
unfolding open_clientfd
open_clientfd-connected n addrs fds = ap (λ r. ok r) (client_loop-connected addrs fds)

-- An address that gives no socket.
abbrev pub NoSocket : Endpoint → Type 0
NoSocket a = (e : ℕ) × (a.socket_result ≡ negsuc e)

listen_loop-skip :
    (skipped : List Endpoint) (addrs : List Endpoint) (fds : Fds)
    → All NoSocket skipped
    → listen_loop (skipped ++ addrs) fds ≡ listen_loop addrs fds
unfolding listen_loop
listen_loop-skip [] addrs fds h = refl
listen_loop-skip (a ∷ skipped) addrs fds ((e, h), hs) = rw h (listen_loop-skip skipped addrs fds hs)

-- What the calls on one bound socket come to, from the results of `bind` and `listen`.
abbrev pub settled : ℕ → Fds → ℤ → ℤ → Run (ℤ × Fds)
settled fd fds b l =
    if is_neg b
    then exit (codes "bind")
    else if is_neg l
    then exit (codes "listen")
    else ok (pos fd, fd ∷ fds)

listen_on-settled :
    (l : ℤ) (fd : ℕ) (fds : Fds) → listen_on l (some fd, fd ∷ fds) ≡ settled fd fds (pos 0) l
listen_on-settled (pos n) fd fds = refl
listen_on-settled (negsuc n) fd fds = refl

-- The first address that gives a socket decides, where `getaddrinfo` and `setsockopt` succeed and `bind`
-- gives 0 or -1, as it is documented to: with `bind` and `listen` its descriptor is returned, and is the
-- only one that the call leaves open. A failure of either ends the process, whatever addresses follow.
pub open_listenfd-settled :
    (n fd o : ℕ) (l : ℤ) (skipped addrs : List Endpoint) (a : Endpoint) (fds : Fds)
    → All NoSocket skipped
    → a.socket_result ≡ pos fd
    → a.setsockopt_result ≡ pos o
    → (a.bind_result ≡ pos 0) ⊎ (a.bind_result ≡ minus_one)
    → open_listenfd (pos n) (skipped ++ a ∷ addrs) l fds ≡ settled fd fds a.bind_result l
unfolding open_listenfd listen_loop
open_listenfd-settled n fd o l skipped addrs a fds hs h1 h2 (inl hb) =
    rw (listen_loop-skip skipped (a ∷ addrs) fds hs)
      (rw h1 (rw h2 (rw hb (listen_on-settled l fd fds))))
open_listenfd-settled n fd o l skipped addrs a fds hs h1 h2 (inr hb) =
    rw (listen_loop-skip skipped (a ∷ addrs) fds hs) (rw h1 (rw h2 (rw hb refl)))

-- What `Sock_fd_write` passes, `Sock_fd_read` takes, where the kernel delivers a control message as it
-- is documented: the header is kept, and the descriptor becomes one of the receiver. Without a
-- descriptor, or with -1, the reader gets -1.
pub sock_fd_write-read :
    (install : ℤ → ℤ) (deliver : Option Cmsg → Option Cmsg)
    → ((fd : ℤ) → deliver (some (rights fd)) ≡ some (rights (install fd)))
    → deliver none ≡ none
    → (buf : Bytes) (buflen : ℕ) (fd sent size : ℤ)
    → sock_fd_read size (deliver (sock_fd_write buf buflen fd sent).1.control)
      ≡ ok (size, if not (eq_ℤ fd minus_one) then install fd else minus_one)
unfolding sock_fd_read sock_fd_write
sock_fd_write-read install deliver hr hn buf buflen fd sent size =
    elim (Bool-cases (eq_ℤ fd minus_one)) [
      | inl h ↦ rw h (rw hn refl)
      | inr h ↦ rw h (rw (hr fd) refl)
    ]
