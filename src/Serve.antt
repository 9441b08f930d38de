-- ===== src/Serve.antt =====
-- The main process of src/core/epoll_circle.h: `start`, which sets up the pool and the listening
-- socket, and passes each client that it accepts to the socket that the children read. What the
-- kernel answers comes with the start and with each event.
pub mod Passed
pub mod Handover
pub mod Answered
pub mod Started
use http_callback_serve_vers.Base.{
  ℕ, zero, suc, ◌+◌, Bool, true, false, List, [], ◌∷◌, ◌++◌, Option, if◌then◌else◌, Bytes, codes,
  Run, ok, exit, waiting, fault, out_of_bounds, and_then, ℤ, pos, negsuc, minus_one, eq_ℤ, is_neg,
  leb_ℤ,
}
use http_callback_serve_vers.Common.{check_sign}
use http_callback_serve_vers.Io.{Errno}
use http_callback_serve_vers.Pool.{Slots, Pool, init_manager_proc}
use http_callback_serve_vers.Sock.{Fds, Endpoint, open_listenfd, setnoblock, accept, s_pipe}

-- The signal handlers: `sig_quit` and `sig_int_kill` end the process, and `sig_handler` counts.
abbrev pub sig_quit : {A : Type 0} → Run A
sig_quit = exit []

abbrev pub sig_int_kill : {A : Type 0} → Run A
sig_int_kill = exit []

abbrev pub sig_handler : ℕ → ℕ
sig_handler g_count = g_count + 1

-- `while (ret < 0) ret = S_pipe(unix_fd)`, over the results of `socketpair`.
unfoldable pub pipe_loop : List ℤ → Run (List ℤ)
pipe_loop [] = waiting
pipe_loop (r ∷ pipes) = let rest = pipe_loop pipes in if is_neg (s_pipe r) then rest else ok pipes

-- What a call of `Sock_fd_write` for `fd` puts on the socket, by its result.
abbrev pub sent_by : ℤ → ℤ → List ℤ
sent_by fd r = if leb_ℤ r (pos 0) then [] else fd ∷ []

-- The loop around `Sock_fd_write`, over the results of `sendmsg`: the descriptors passed, and the
-- results left. The body calls it once more and drops its result.
unfoldable pub pass_loop : ℤ → List ℤ → Run (List ℤ × List ℤ)
pass_loop fd [] = waiting
pass_loop fd (r ∷ []) = if leb_ℤ r (pos 0) then waiting else ok (fd ∷ [], [])
pass_loop fd (r ∷ r' ∷ sends) =
    let again =
      and_then (pass_loop fd sends) (λ (p : List ℤ × List ℤ). ok (sent_by fd r' ++ p.0, p.1)) in
    if leb_ℤ r (pos 0) then again else ok (fd ∷ [], r' ∷ sends)

-- A call of `epoll_ctl` that adds a descriptor with EPOLLIN, or with EPOLLOUT and EPOLLET, or of `close`.
pub data MainCall : Type 0 where
  watch_in watch_out closed : ℤ → MainCall

-- The variables of `start` that outlive an event: `clientfd`, the descriptors passed so far, `g_count`,
-- and whether `pevent` has been freed; and the calls for descriptors made so far, whose results are
-- dropped.
pub record Main : Type 0 where
  pub clientfd : ℤ
  pub passed : List ℤ
  pub g_count : ℕ
  pub freed : Bool
  pub calls : List MainCall

-- One round for the client that was accepted.
abbrev pub pass_client : ℤ → List ℤ → Main → Run (Main × List ℤ)
pass_client fd sends m = and_then (pass_loop fd sends) (λ (p : List ℤ × List ℤ).
    ok (record m { clientfd = fd; passed = m.passed ++ p.0; g_count = m.g_count + 1 }, p.1))

-- `while (1)` around `Accept`, over what `accept` and `errno` give and the results of `sendmsg`.
unfoldable pub accept_loop : List (ℤ × Errno) → List ℤ → Main → Run (Main × List ℤ)
unfolding accept pass_loop
accept_loop [] sends m = waiting
accept_loop ((r, e) ∷ accepts) sends m =
    let next = λ (s : Main × List ℤ). accept_loop accepts s.1 s.0 in
    let fd = accept r e in
    if eq_ℤ fd (pos 0)
    then ok (record m { clientfd = fd }, sends)
    else if eq_ℤ fd minus_one
    then exit (codes "accept error")
    else and_then (pass_client fd sends m) next

-- An event with what is answered while it is handled.
pub record MainEvent : Type 0 where
  pub failed : Bool
  pub readable : Bool
  pub writable : Bool
  pub fd : ℤ
  pub accepts : List (ℤ × Errno)
  pub sends : List ℤ

-- The chain of tests for one event.
unfoldable pub main_event : ℤ → MainEvent → Main → Run Main
unfolding accept_loop
main_event listenfd e m =
    if e.failed
    then exit (codes "there is something wrong with socketfd")
    else if eq_ℤ e.fd listenfd
    then and_then (accept_loop e.accepts e.sends m) (λ (s : Main × List ℤ). ok s.0)
    else if e.readable
    then ok (record m { calls = m.calls ++ watch_out m.clientfd ∷ [] })
    else if e.writable
    then ok m
    else ok (record m { freed = true; calls = m.calls ++ closed m.clientfd ∷ [] })

-- The `for` loop over `pevent`, which reads it for each event.
unfoldable pub main_batch : ℤ → List MainEvent → Main → Run Main
unfolding main_event
main_batch listenfd [] m = ok m
main_batch listenfd (e ∷ events) m =
    let next = λ (m' : Main). main_batch listenfd events m' in
    if m.freed then fault out_of_bounds else and_then (main_event listenfd e m) next

-- The endless loop, over the events that `Epoll_wait` stored in `pevent` so far.
unfoldable pub main_loop : ℤ → List (List MainEvent) → Main → Run Main
unfolding main_batch
main_loop listenfd [] m = ok m
main_loop listenfd (events ∷ batches) m =
    let next = λ (m' : Main). main_loop listenfd batches m' in
    and_then (main_batch listenfd events m) next

-- What is answered while `start` sets up.
pub record Boot : Type 0 where
  pub pipes : List ℤ
  pub mallocs : ℕ → Bool
  pub forks : List ℤ
  pub resolved : ℤ
  pub addresses : List Endpoint
  pub listened : ℤ
  pub flags : ℤ
  pub set_flags : ℤ
  pub reused : ℤ
  pub got_events : Bool
  pub created : ℤ

-- The checks between `open_listenfd` and the loop.
abbrev pub prepare : Boot → Run ℤ
prepare b = and_then (setnoblock b.flags b.set_flags) (λ (_ : ℤ).
    if eq_ℤ b.reused minus_one
    then exit (codes "setsockopt")
    else if b.got_events
    then check_sign (codes "epoll_create error!") b.created
    else exit (codes "malloc error"))

-- `start(argc, argv)` up to the state behind these batches; `clientfd` starts with what the stack holds.
unfoldable pub start :
    (S : Slots) → Boot → List (List MainEvent) → Fds → Pool S → Main → Run (Pool S × Main)
unfolding pipe_loop main_loop
start S b batches fds pool m = and_then (pipe_loop b.pipes) (λ (_ : List ℤ).
    and_then (init_manager_proc S b.mallocs b.forks pool) (λ (p : Pool S).
      and_then (open_listenfd b.resolved b.addresses b.listened fds) (λ (l : ℤ × Fds).
        and_then (prepare b) (λ (_ : ℤ).
          and_then (main_loop l.0 batches (record m { calls = m.calls ++ watch_in l.0 ∷ [] }))
            (λ (m' : Main). ok (p, m'))))))
