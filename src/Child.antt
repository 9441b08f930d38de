-- ===== src/Child.antt =====
-- The child process of inc/http_task.h: `jump_task_pool_obj`, which takes clients from the socket of the
-- main process, reads their requests and answers them, driven by the events of `epoll`. What the
-- kernel and `malloc` answer comes with each event. The child never frees an object: the heap
-- is a list from addresses to objects, the newest first.
pub mod Steps
pub mod Events
pub mod Session
pub mod Typed
pub mod Kinds
pub mod Newest
pub mod Stuck
pub mod Visits
pub mod Leak
pub mod Wires
pub mod Downloads
pub mod Crash
use http_callback_serve_vers.Base.{
  ℕ, zero, suc, Bool, true, false, ◌&&◌, List, [], ◌∷◌, ◌++◌, Option, none, some, if◌then◌else◌,
  ◌==◌, Bytes, Run, ok, fault, and_then, null_pointer, out_of_bounds, ℤ, pos, negsuc, minus_one,
  eq_ℤ, is_neg, int_of_size, codes,
}
use http_callback_serve_vers.Common.{check_sign}
use http_callback_serve_vers.Io.{Errno, eagain, ewouldblock, Conn, ReadAnswer}
use http_callback_serve_vers.Request.{HttpRequest}
use http_callback_serve_vers.Tcp.{HttpTcp, Called, http_tcp_alloc, call_back}
use http_callback_serve_vers.Handler.{Files, http_module_handler_response}
use http_callback_serve_vers.Sock.{Cmsg, sock_fd_read, setnoblock}

-- `epoll_data_t` is a union: a descriptor or a pointer.
pub data Data : Type 0 where
  descriptor : ℤ → Data
  pointer : ℕ → Data

-- `data.fd`: of a pointer, its low 32 bits.
abbrev pub data_fd : Data → ℤ
data_fd (descriptor fd) = fd
data_fd (pointer p) = int_of_size p

pub data Object : Type 0 where
  tcp : HttpTcp → Object
  request : HttpRequest → Object

abbrev pub Heap : Type 0
Heap = List (ℕ × Object)

-- The object that `data.ptr` points to.
unfoldable pub object_at : Heap → ℕ → Option Object
object_at [] p = none
object_at ((q, o) ∷ heap) p = let rest = object_at heap p in if q == p then some o else rest

abbrev pub pointed : Heap → Data → Option Object
pointed heap (descriptor fd) = none
pointed heap (pointer p) = object_at heap p

pub record Event : Type 0 where
  pub readable : Bool
  pub writable : Bool
  pub data_of : Data

-- The calls of `epoll_ctl` and `close`, whose results the child does not read.
pub data Call : Type 0 where
  add_in : ℤ → Data → Call
  mod_out : ℤ → Data → Call
  del : ℤ → Call
  closed : ℤ → Call

-- What is answered while an event is handled: the result of `recvmsg` with `errno` and the control
-- header, the results of `malloc` for a connection and for a request, where the new object lies,
-- and the results of the two `fcntl` calls.
pub record Answers : Type 0 where
  pub size : ℤ
  pub error : Errno
  pub control : Option Cmsg
  pub got_item : Bool
  pub got_context : Bool
  pub context_buf : Option Bytes
  pub item_buf : Option Bytes
  pub got_request : Bool
  pub address : ℕ
  pub flags : ℤ
  pub set_flags : ℤ

-- The variable `clientfd`, the heap, the writing and the reading side of each descriptor, and
-- the calls made so far.
pub record Child : Type 0 where
  pub clientfd : ℤ
  pub heap : Heap
  pub sockets : ℤ → Conn
  pub inbox : ℤ → List ReadAnswer
  pub calls : List Call

abbrev pub update : {A : Type 0} → ℤ → A → (ℤ → A) → ℤ → A
update d a f e = if eq_ℤ e d then a else f e

abbrev pub would_block : Errno → Bool
would_block eagain = true
would_block ewouldblock = true
would_block _ = false

-- The part for a new client behind `http_tcp_alloc`, which reads `tcp->fd` without a test.
abbrev pub register : Answers → ℤ → Child → Option HttpTcp → Run (Bool × Child)
register k fd c none = fault null_pointer
register k fd c (some t) = and_then (setnoblock k.flags k.set_flags) (λ (_ : ℤ). ok (
  false,
  record c {
    clientfd = fd;
    heap = (k.address, tcp t) ∷ c.heap;
    calls = c.calls ++ add_in fd (pointer k.address) ∷ [];
  },
))

-- The event of `fd[0]`: a new client. The flag says whether the `for` loop breaks.
unfoldable pub new_client : Answers → Child → Run (Bool × Child)
unfolding sock_fd_read
new_client k c = and_then (sock_fd_read k.size k.control) (λ (r : ℤ × ℤ).
    if is_neg r.0 && would_block k.error
    then ok (true, record c { clientfd = r.1 })
    else register k r.1 c (http_tcp_alloc r.1 k.got_item k.got_context k.context_buf k.item_buf))

-- The call of `epoll_ctl` behind the callback, for the descriptor in `clientfd`.
abbrev pub await_write : Answers → Child → Option HttpRequest → Run (Bool × Child)
await_write k c none = ok (true, c)
await_write k c (some req) = ok (
  false,
  record c {
    heap = (k.address, request req) ∷ c.heap;
    calls = c.calls ++ mod_out c.clientfd (pointer k.address) ∷ [];
  },
)

-- EPOLLIN: the callback reads and parses. The address stands for the connection object, which is
-- changed in place.
unfoldable pub read_event : Answers → ℕ → HttpTcp → Child → Run (Bool × Child)
unfolding call_back
read_event k p t c = and_then (call_back t k.got_request (c.inbox t.fd)) (λ (r : Called).
    await_write k
      (record c {
        heap = (p, tcp (record t { http_contxt = r.context; buf = some r.buf })) ∷ c.heap;
        inbox = update t.fd r.rest c.inbox;
      })
      r.result)

abbrev pub address_of : Data → ℕ
address_of (descriptor fd) = 0
address_of (pointer p) = p

-- EPOLLIN on what `data.ptr` points to; an object of the other kind is read out of its bounds.
abbrev pub read_at : Answers → Data → Child → Option Object → Run (Bool × Child)
read_at k d c (some (tcp t)) = read_event k (address_of d) t c
read_at k d c _ = fault out_of_bounds

module _ (files : Files) (junk memory : Bytes) (fd0 : ℤ) where
  -- EPOLLOUT: the answer goes to `data.fd`, which is then removed and closed.
  unfoldable pub write_event : ℤ → HttpRequest → Child → Run (Bool × Child)
  write_event fd req c =
      and_then (http_module_handler_response files junk memory req (c.sockets fd)) (λ (s : Conn).
        ok (
          false,
          record c { sockets = update fd s c.sockets; calls = c.calls ++ del fd ∷ closed fd ∷ [] },
        ))

  abbrev pub write_at : Data → Child → Option Object → Run (Bool × Child)
  write_at d c (some (request req)) = write_event (data_fd d) req c
  write_at d c _ = fault out_of_bounds

  -- The body of the `for` loop for one event.
  unfoldable pub handle_event : Answers → Event → Child → Run (Bool × Child)
  unfolding new_client read_event write_event object_at
  handle_event k e c =
      if eq_ℤ (data_fd e.data_of) fd0
      then new_client k c
      else if e.readable
      then read_at k e.data_of c (pointed c.heap e.data_of)
      else if e.writable
      then write_at e.data_of c (pointed c.heap e.data_of)
      else ok (false, record c { calls = c.calls ++ del fd0 ∷ closed fd0 ∷ [] })

  -- The `for` loop over the events of one `epoll_wait`.
  unfoldable pub handle_batch : List (Answers × Event) → Child → Run Child
  unfolding handle_event
  handle_batch [] c = ok c
  handle_batch ((k, e) ∷ events) c =
      let next = λ (c' : Child). handle_batch events c' in
      and_then (handle_event k e c) (λ (r : Bool × Child). if r.0 then ok r.1 else next r.1)

  -- The endless loop, over the results of `Epoll_wait` so far.
  unfoldable pub serve : List (List (Answers × Event)) → Child → Run Child
  unfolding handle_batch
  serve [] c = ok c
  serve (events ∷ batches) c =
      let next = λ (c' : Child). serve batches c' in and_then (handle_batch events c) next

  -- `jump_task_pool_obj(fd)`, from the results of `epoll_create` and of `fcntl` on `fd[0]`, up to the
  -- state behind these batches; `clientfd` starts with what the stack holds.
  unfoldable pub jump_task_pool_obj :
      ℤ → ℤ → ℤ → ℤ → List (List (Answers × Event)) → Child → Run Child
  unfolding serve
  jump_task_pool_obj fd1 created flags set_flags batches c =
      and_then (check_sign (codes "epoll_create error!") created) (λ (_ : ℤ).
        and_then (setnoblock flags set_flags) (λ (_ : ℤ).
          serve batches
            (record c { calls = c.calls ++ closed fd1 ∷ add_in fd0 (descriptor fd0) ∷ [] })))
