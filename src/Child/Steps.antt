-- ===== src/Child/Steps.antt =====
-- One event in the child's loop of inc/http_task.h: a client is received, its request is read, or it is
-- answered.
use http_callback_serve_vers.Base.{
  ℕ, true, false, List, [], ◌∷◌, ◌++◌, some, Bytes, ok, ℤ, pos, eq_ℤ, eq_ℤ_iff, int_of_size, ◌≡◌,
  refl, ==_self,
}
use http_callback_serve_vers.Io.{Conn}
use http_callback_serve_vers.Request.{HttpRequest}
use http_callback_serve_vers.Tcp.{HttpTcp, Called, http_tcp_alloc, call_back}
use http_callback_serve_vers.Tcp.Callback.{tcp}
use http_callback_serve_vers.Handler.{Files, http_module_handler_response}
use http_callback_serve_vers.Sock.{rights, sock_fd_read}
use http_callback_serve_vers.Child.{
  descriptor, pointer, Object, request, object_at, Event, add_in, mod_out, del, closed, Answers,
  Child, update, new_client, read_event, write_event, handle_event, handle_batch,
}

-- The events that the child sees: on the socket of the main process, of a connection object to
-- read from, and of a request to answer.
abbrev pub arrival : ℤ → Event
arrival fd0 = record { readable = true; writable = false; data_of = descriptor fd0 }

abbrev pub incoming : ℕ → Event
incoming p = record { readable = true; writable = false; data_of = pointer p }

abbrev pub outgoing : ℕ → Event
outgoing p = record { readable = false; writable = true; data_of = pointer p }

pub eq_ℤ_self : (z : ℤ) → eq_ℤ z z ≡ true
eq_ℤ_self z = (eq_ℤ_iff z z).1 refl

-- What is answered when a new client is received without a failure: its descriptor, and where its
-- connection object lies, whose buffer holds the string `b`, which is what `malloc` left there.
pub record Received (k : Answers) (fd : ℤ) (s b : Bytes) : Type 0 where
  pub got_bytes : (n : ℕ) × (k.size ≡ pos n)
  pub got_rights : k.control ≡ some (rights fd)
  pub allocated :
      http_tcp_alloc fd k.got_item k.got_context k.context_buf k.item_buf ≡ some (tcp fd s b)
  pub got_flags : (n : ℕ) × (k.flags ≡ pos n)
  pub flags_set : (n : ℕ) × (k.set_flags ≡ pos n)

-- The child behind each of the three rounds.
abbrev pub accepted_client : Answers → ℤ → Bytes → Bytes → Child → Child
accepted_client k fd s b c = record c {
  clientfd = fd;
  heap = (k.address, Object.tcp (tcp fd s b)) ∷ c.heap;
  calls = c.calls ++ add_in fd (pointer k.address) ∷ [];
}

abbrev pub read_client : Answers → ℕ → HttpTcp → Called → HttpRequest → Child → Child
read_client k p t r req c = record c {
  heap =
      (k.address, request req)
      ∷ (p, Object.tcp (record t { http_contxt = r.context; buf = some r.buf }))
      ∷ c.heap;
  inbox = update t.fd r.rest c.inbox;
  calls = c.calls ++ mod_out c.clientfd (pointer k.address) ∷ [];
}

abbrev pub answered_client : ℤ → Conn → Child → Child
answered_client fd s c = record c {
  sockets = update fd s c.sockets;
  calls = c.calls ++ del fd ∷ closed fd ∷ [];
}

pub object_at-new :
    (p : ℕ) (o : Object) (heap : List (ℕ × Object)) → object_at ((p, o) ∷ heap) p ≡ some o
unfolding object_at
object_at-new p o heap = rw (==_self p) refl

module _ (files : Files) (junk memory : Bytes) (fd0 : ℤ) where
  -- A batch of one event that does not break the loop.
  pub one_event :
      (k : Answers) (e : Event) (c c' : Child)
      → handle_event files junk memory fd0 k e c ≡ ok (false, c')
      → handle_batch files junk memory fd0 ((k, e) ∷ []) c ≡ ok c'
  unfolding handle_batch
  one_event k e c c' h = rw h refl

  pub handle_event-arrival :
      (k : Answers) (fd : ℤ) (s b : Bytes) (c : Child)
      → Received k fd s b
      → handle_event files junk memory fd0 k (arrival fd0) c
        ≡ ok (false, accepted_client k fd s b c)
  unfolding handle_event new_client sock_fd_read
  handle_event-arrival k fd s b c r = rw (eq_ℤ_self fd0) (
      rw r.got_bytes.1
        (rw r.got_rights (rw r.allocated (rw r.got_flags.1 (rw r.flags_set.1 refl)))))

  pub handle_event-incoming :
      (k : Answers) (p : ℕ) (t : HttpTcp) (r : Called) (req : HttpRequest) (c : Child)
      → eq_ℤ (int_of_size p) fd0 ≡ false
      → object_at c.heap p ≡ some (Object.tcp t)
      → call_back t k.got_request (c.inbox t.fd) ≡ ok r
      → r.result ≡ some req
      → handle_event files junk memory fd0 k (incoming p) c ≡ ok (false, read_client k p t r req c)
  unfolding handle_event read_event
  handle_event-incoming k p t r req c h0 ho hc hr = rw h0 (rw ho (rw hc (rw hr refl)))

  pub handle_event-outgoing :
      (k : Answers) (p : ℕ) (req : HttpRequest) (c : Child) (s : Conn)
      → eq_ℤ (int_of_size p) fd0 ≡ false
      → object_at c.heap p ≡ some (request req)
      → http_module_handler_response files junk memory req (c.sockets (int_of_size p)) ≡ ok s
      → handle_event files junk memory fd0 k (outgoing p) c
        ≡ ok (false, answered_client (int_of_size p) s c)
  unfolding handle_event write_event
  handle_event-outgoing k p req c s h0 ho hs = rw h0 (rw ho (rw hs refl))
