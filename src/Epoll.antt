-- ===== src/Epoll.antt =====
-- The event loop of inc/http_io_base.h with the calls of inc/epoll_inc.h and inc/http_epoll.h that it
-- makes. What the kernel answers is an argument, or comes with each event.
pub mod Silent
pub mod Listen
use http_callback_serve_vers.Base.{
  ℕ, zero, suc, ◌+◌, Bool, true, false, List, [], ◌∷◌, ◌++◌, Option, if◌then◌else◌, ◌==◌, Bytes,
  codes, length, take, min, Run, ok, exit, and_then, ℤ, pos, negsuc, minus_one, eq_ℤ, is_neg,
}
use http_callback_serve_vers.Common.{check_sign}
use http_callback_serve_vers.Io.{SendAnswer, room}
use http_callback_serve_vers.Accept.{Stat, Info, http_module_handler_request}
use http_callback_serve_vers.Sock.{Fds, Endpoint, open_listenfd}
use http_callback_serve_vers.Config.{SockPair, init_sockpair}

-- The checked calls; a timeout of `select` is only reported.
abbrev pub select : ℤ → Run ℤ
select = check_sign (codes "select error")

abbrev pub epoll_create : ℤ → Run ℤ
epoll_create = check_sign (codes "epoll_create error!")

abbrev pub epoll_wait : ℤ → Run ℤ
epoll_wait = check_sign (codes "epoll_wait")

-- `Epoll_ctl` reports a failure and returns -1.
unfoldable pub epoll_ctl : ℤ → ℤ
epoll_ctl r = if eq_ℤ r minus_one then minus_one else r

-- `ev.events`: EPOLLIN, EPOLLOUT, or EPOLLIN with EPOLLET.
pub data Mask : Type 0 where
  epoll_in epoll_out epoll_in_et : Mask

-- A call of `epoll_ctl` on the descriptor in front, or of `close`.
pub data Call : Type 0 where
  ctl_add ctl_mod ctl_del : ℤ → ℤ → Mask → Call
  closed : ℤ → Call

-- The globals `epollfd` and `flag_x`, the string in `buf`, what went out on each descriptor, and the
-- calls made so far.
pub record Loop : Type 0 where
  pub epollfd : ℤ
  pub flag_x : ℕ
  pub buf : Bytes
  pub wires : ℤ → Bytes
  pub calls : List Call

abbrev pub called : Call → Loop → Loop
called x l = record l { calls = l.calls ++ x ∷ [] }

unfoldable pub add_event : ℤ → ℤ → Mask → Loop → Loop
add_event epollfd fd state = called (ctl_add epollfd fd state)

unfoldable pub delete_event : ℤ → ℤ → Mask → Loop → Loop
delete_event epollfd fd state = called (ctl_del epollfd fd state)

unfoldable pub modify_event : ℤ → ℤ → Mask → Loop → Loop
modify_event epollfd fd state = called (ctl_mod epollfd fd state)

abbrev pub sent_on : ℤ → Bytes → (ℤ → Bytes) → ℤ → Bytes
sent_on fd s wires d = if eq_ℤ d fd then wires d ++ s else wires d

-- `write(fd, buf, strlen(buf))`, and the branch behind it.
abbrev pub write_out : ℤ → ℤ → SendAnswer → Loop → Loop
write_out epollfd fd (SendAnswer.failed e) l =
    delete_event epollfd fd epoll_out (called (closed fd) l)
write_out epollfd fd (room k) l =
    let n = min k (length l.buf) in
    modify_event epollfd fd epoll_in (record l { wires = sent_on fd (take n l.buf) l.wires })

-- `do_write(epollfd, fd, buf)`: the `memset` stands behind both branches.
unfoldable pub do_write : ℤ → ℤ → SendAnswer → Loop → Loop
unfolding delete_event modify_event
do_write epollfd fd answer l = record (write_out epollfd fd answer l) { buf = [] }

-- `do_read(epollfd, fd, buf)`: the result of the handler is dropped.
unfoldable pub do_read : Stat → Bytes → Loop → Run Loop
unfolding http_module_handler_request
do_read stat junk l = and_then (http_module_handler_request stat junk) (λ (_ : Info). ok l)

-- `handle_accpet(epollfd, listenfd)`, from the result of `accept`.
unfoldable pub handle_accpet : ℤ → ℤ → Loop → Loop
unfolding add_event
handle_accpet epollfd clifd l =
    if eq_ℤ clifd minus_one then l else add_event epollfd clifd epoll_in l

-- The names under which other files call these.
unfoldable pub http_handle_accpet : ℤ → ℤ → Loop → Loop
unfolding handle_accpet
http_handle_accpet = handle_accpet

unfoldable pub http_do_write : ℤ → ℤ → SendAnswer → Loop → Loop
unfolding do_write
http_do_write = do_write

unfoldable pub http_add_event : ℤ → ℤ → Mask → Loop → Loop
unfolding add_event
http_add_event = add_event

unfoldable pub http_modify_event : ℤ → ℤ → Mask → Loop → Loop
unfolding modify_event
http_modify_event = modify_event

unfoldable pub http_delete_event : ℤ → ℤ → Mask → Loop → Loop
unfolding delete_event
http_delete_event = delete_event

-- An event, with what `write` answers to it, and what the arrays of `accept_request` hold before it.
pub record Event : Type 0 where
  pub readable : Bool
  pub writable : Bool
  pub fd : ℤ
  pub answer : SendAnswer
  pub junk : Bytes

-- The part of `do_epoll` that makes the `epoll` descriptor, once for the process.
abbrev pub created : ℤ → Loop → Run Loop
created r l =
    if l.flag_x == 0
    then and_then (epoll_create r) (λ (fd : ℤ). ok (record l { epollfd = fd }))
    else ok l

module _ (stat : Stat) where
  abbrev pub handle_one : ℤ → Event → Loop → Run Loop
  handle_one epollfd e l =
      if e.readable
      then do_read stat e.junk l
      else if e.writable
      then ok (do_write epollfd e.fd e.answer l)
      else ok l

  -- `handle_events(epollfd, events, num, listenfd, buf)`.
  unfoldable pub handle_events : ℤ → List Event → Loop → Run Loop
  unfolding do_read do_write
  handle_events epollfd [] l = ok l
  handle_events epollfd (e ∷ events) l =
      let next = λ (l' : Loop). handle_events epollfd events l' in
      and_then (handle_one epollfd e l) next

  -- The endless loop, over the results of `Epoll_wait` so far.
  unfoldable pub wait_loop : List (List Event) → Loop → Run Loop
  unfolding handle_events
  wait_loop [] l = ok l
  wait_loop (events ∷ batches) l =
      let next = λ (l' : Loop). wait_loop batches l' in
      and_then (handle_events l.epollfd events l) next

  -- `do_epoll(listenfd)` up to the state behind these batches, from the result of `epoll_create`.
  unfoldable pub do_epoll : ℤ → ℤ → List (List Event) → Loop → Run Loop
  unfolding wait_loop add_event
  do_epoll listenfd r batches l = and_then (created r (record l { buf = [] })) (λ (l' : Loop).
      wait_loop batches
        (add_event l'.epollfd listenfd epoll_in_et (record l' { flag_x = l'.flag_x + 1 })))

  -- The names under which other files call these.
  unfoldable pub http_do_epoll : ℤ → ℤ → List (List Event) → Loop → Run Loop
  unfolding do_epoll
  http_do_epoll listenfd = do_epoll listenfd

  unfoldable pub http_handle_events : ℤ → List Event → Loop → Run Loop
  unfolding handle_events
  http_handle_events epollfd = handle_events epollfd

  unfoldable pub http_do_read : Bytes → Loop → Run Loop
  unfolding do_read
  http_do_read junk = do_read stat junk

  -- `Open_epoll(connfd)`, which `pthread_handler(argv)` runs for one descriptor.
  unfoldable pub open_epoll : ℤ → ℤ → List (List Event) → Loop → Run Loop
  unfolding http_do_epoll
  open_epoll connfd = http_do_epoll connfd

  unfoldable pub pthread_handler : ℤ → ℤ → List (List Event) → Loop → Run Loop
  unfolding open_epoll
  pthread_handler connfd = open_epoll connfd

-- `Open_listen()`: the address of the configuration file, and a socket that listens. The addresses that
-- `getaddrinfo` gives depend on that pair.
unfoldable pub open_listen :
    Option Bytes
    → Option Bytes
    → Option Bytes
    → (SockPair → ℤ × List Endpoint)
    → ℤ
    → Fds
    → Run (ℤ × Fds)
unfolding init_sockpair open_listenfd
open_listen a p config resolve listened fds =
    and_then (init_sockpair a p config)
      (λ (pair : SockPair). open_listenfd (resolve pair).0 (resolve pair).1 listened fds)
