-- ===== src/Sock.antt =====
-- The socket calls of inc/sock.h: the checked calls, `open_clientfd` and `open_listenfd` with the
-- descriptors that they leave open, and the two calls that pass a descriptor to another process. What
-- the kernel and `getaddrinfo` answer is an argument.
pub mod Opened
use http_callback_serve_vers.Base.{
  ℕ, zero, suc, ◌+◌, Bool, true, false, ◌&&◌, ◌||◌, List, [], ◌∷◌, Option, none, some,
  if◌then◌else◌, Bytes, codes, Run, ok, exit, and_then, ℤ, pos, negsuc, minus_one, eq_ℤ, is_neg,
  leb_ℤ, ◌==◌, take, take, not, fault,
}
use http_callback_serve_vers.Common.{check_sign}
use http_callback_serve_vers.Io.{Errno, eagain, ewouldblock}

-- The checked calls: each ends the process on a negative result.
abbrev pub socket : ℤ → Run ℤ
socket = check_sign (codes "socket")

abbrev pub connnect : ℤ → Run ℤ
connnect = check_sign (codes "connect")

abbrev pub bind : ℤ → Run ℤ
bind = check_sign (codes "bind")

abbrev pub listen : ℤ → Run ℤ
listen = check_sign (codes "listen")

abbrev pub getaddrinfo : ℤ → Run ℤ
getaddrinfo = check_sign (codes "getaddrinfo")

abbrev pub getnameinfo : ℤ → Run ℤ
getnameinfo = check_sign (codes "getnameinfo")

abbrev pub setsockopt : ℤ → Run ℤ
setsockopt = check_sign (codes "setsockopt")

abbrev pub sigprocmask : ℤ → Run ℤ
sigprocmask = check_sign (codes "sigprocmask")

-- `Signal(signum, handler)`: the old handler, from the result of `sigaction`.
abbrev pub signal : {A : Type 0} → A → ℤ → Run A
signal old r = and_then (check_sign (codes "sigaction") r) (λ (_ : ℤ). ok old)

-- `Setnoblock(fd, status)`, from the flags that F_GETFL gives and the result of F_SETFL.
abbrev pub setnoblock : ℤ → ℤ → Run ℤ
setnoblock flags set =
    and_then (check_sign (codes "fcntl error") flags)
      (λ (_ : ℤ). and_then (check_sign (codes "fcntl error") set) (λ (_ : ℤ). ok (pos 0)))

-- `Accept(listenfd, addr, len)`: 0 where no client waits, -1 after another failure.
unfoldable pub accept : ℤ → Errno → ℤ
accept (pos n) e = pos n
accept (negsuc n) eagain = pos 0
accept (negsuc n) ewouldblock = pos 0
accept (negsuc n) _ = minus_one

-- The descriptors that the process has open, the last one first.
abbrev pub Fds : Type 0
Fds = List ℕ

-- `close(fd)`.
unfoldable pub close : ℕ → Fds → Fds
close fd [] = []
close fd (x ∷ fds) = if x == fd then fds else x ∷ close fd fds

-- What the kernel answers about one address of the list: for `socket` and `connect`.
pub record Attempt : Type 0 where
  pub socket_result : ℤ
  pub connect_result : ℤ

-- The loop of `open_clientfd` over the addresses.
unfoldable pub client_loop : List Attempt → Fds → ℤ × Fds
unfolding close
client_loop [] fds = (minus_one, fds)
client_loop (a ∷ addrs) fds =
    let skipped = client_loop addrs fds in
    let next = λ (fd : ℕ). client_loop addrs (close fd (fd ∷ fds)) in
    elim a.socket_result [
      | negsuc e ↦ skipped
      | pos fd ↦ if not (eq_ℤ a.connect_result minus_one) then (pos fd, fd ∷ fds) else next fd
    ]

-- `open_clientfd(hostname, port)`, from the result of `getaddrinfo` and the list that it gives.
unfoldable pub open_clientfd : ℤ → List Attempt → Fds → Run (ℤ × Fds)
unfolding client_loop
open_clientfd r addrs fds = and_then (getaddrinfo r) (λ (_ : ℤ). ok (client_loop addrs fds))

-- What the kernel answers about one address: for `socket`, `setsockopt` and `bind`.
pub record Endpoint : Type 0 where
  pub socket_result : ℤ
  pub setsockopt_result : ℤ
  pub bind_result : ℤ

-- The loop of `open_listenfd`: the descriptor that is bound, or nothing behind the last address.
unfoldable pub listen_loop : List Endpoint → Fds → Run (Option ℕ × Fds)
unfolding close
listen_loop [] fds = ok (none, fds)
listen_loop (a ∷ addrs) fds =
    let skipped = listen_loop addrs fds in
    let next = λ (fd : ℕ). listen_loop addrs (close fd (fd ∷ fds)) in
    elim a.socket_result [
      | negsuc e ↦ skipped
      | pos fd ↦ and_then (setsockopt a.setsockopt_result) (λ (_ : ℤ).
          and_then (bind a.bind_result)
            (λ (b : ℤ). if eq_ℤ b (pos 0) then ok (some fd, fd ∷ fds) else next fd))
    ]

-- `if(p==NULL) return -1`, and `Listen` on the descriptor, which ends the process where it fails.
abbrev pub listen_on : ℤ → Option ℕ × Fds → Run (ℤ × Fds)
listen_on listened (none, fds) = ok (minus_one, fds)
listen_on listened (some fd, fds) =
    and_then (listen listened)
      (λ (l : ℤ). if is_neg l then ok (minus_one, close fd fds) else ok (pos fd, fds))

-- `open_listenfd(hostname, port)`, from the results of `getaddrinfo` and of `listen`.
unfoldable pub open_listenfd : ℤ → List Endpoint → ℤ → Fds → Run (ℤ × Fds)
unfolding listen_loop close
open_listenfd r addrs listened fds =
    and_then (getaddrinfo r)
      (λ (_ : ℤ). and_then (listen_loop addrs fds) (λ (b : Option ℕ × Fds). listen_on listened b))

-- `S_pipe(fd)`: the result of `socketpair`.
abbrev pub s_pipe : ℤ → ℤ
s_pipe r = r

-- A control message; SOL_SOCKET, SCM_RIGHTS and CMSG_LEN(sizeof(int)) of Linux on 64 bits.
pub record Cmsg : Type 0 where
  pub cmsg_len : ℕ
  pub cmsg_level : ℕ
  pub cmsg_type : ℕ
  pub cmsg_data : ℤ

abbrev pub sol_socket : ℕ
sol_socket = 1

abbrev pub scm_rights : ℕ
scm_rights = 1

abbrev pub cmsg_len_int : ℕ
cmsg_len_int = 20

abbrev pub rights : ℤ → Cmsg
rights fd = record {
  cmsg_len = cmsg_len_int;
  cmsg_level = sol_socket;
  cmsg_type = scm_rights;
  cmsg_data = fd;
}

-- What `sendmsg` is given.
pub record Message : Type 0 where
  pub bytes : Bytes
  pub control : Option Cmsg

-- `Sock_fd_write(sock, buf, buflen, fd)`, from the result of `sendmsg`: what it returns, and the
-- message that it passed.
unfoldable pub sock_fd_write : Bytes → ℕ → ℤ → ℤ → ℤ × Message
sock_fd_write buf buflen fd sent = (
  sent,
  record {
    bytes = take buflen buf;
    control = if not (eq_ℤ fd minus_one) then some (rights fd) else none;
  },
)

-- What `Sock_fd_read` makes of the first control header, or of none: the descriptor.
abbrev pub received_fd : Option Cmsg → Run ℤ
received_fd none = ok minus_one
received_fd (some c) =
    if c.cmsg_len == cmsg_len_int
    then if not (c.cmsg_level == sol_socket)
      then exit (codes "invalid cmsg_level")
      else if not (c.cmsg_type == scm_rights)
      then exit (codes "invalid cmsg_type")
      else ok c.cmsg_data
    else ok minus_one

-- `Sock_fd_read(sock, buf, bufsize, fd)` for a pointer `fd` that is not null, from the result of
-- `recvmsg` and the header that `CMSG_FIRSTHDR` then finds: what it returns, and `*fd`. After a failure
-- `msg_controllen` still has its first value, and the header is what the stack held.
unfoldable pub sock_fd_read : ℤ → Option Cmsg → Run (ℤ × ℤ)
sock_fd_read size header = and_then (received_fd header) (λ (fd : ℤ). ok (size, fd))

-- Its branch for a null pointer, from the result of `read`.
abbrev pub sock_fd_read_null : ℤ → ℤ
sock_fd_read_null size = size
