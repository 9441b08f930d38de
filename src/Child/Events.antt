-- ===== src/Child/Events.antt =====
-- The child's loop of inc/http_task.h: to whom it answers, and what a short request does.
use http_callback_serve_vers.Base.{
  ℕ, suc, ◌<◌, true, false, List, [], ◌∷◌, ◌++◌, some, ◌==◌, Bytes, ok, length, fault,
  out_of_bounds, ℤ, eq_ℤ, int_of_size, ◌≡◌, refl, ==_self,
}
use http_callback_serve_vers.Io.{Conn, ReadAnswer, got}
use http_callback_serve_vers.Request.{HttpRequest}
use http_callback_serve_vers.Tcp.{HttpTcp, Called, call_back, read_count}
use http_callback_serve_vers.Tcp.Callback.{tcp, callback-short}
use http_callback_serve_vers.Handler.{Files, http_module_handler_response}
use http_callback_serve_vers.Child.{
  pointer, Object, request, object_at, Event, add_in, mod_out, del, closed, Answers, Child,
  read_event, write_event, handle_event, handle_batch,
}
use http_callback_serve_vers.Child.Steps.{
  arrival, incoming, outgoing, eq_ℤ_self, Received, accepted_client, read_client, answered_client,
  handle_event-arrival, handle_event-incoming, handle_event-outgoing,
}

module _ (files : Files) (junk memory : Bytes) (fd0 : ℤ) where
  -- The answer to a request goes to the descriptor whose number is the low half of the address of
  -- the request object, which is then removed and closed, where that number is not `fd[0]` and the
  -- response handler answers on it. Any other descriptor, be it that of the client, is sent nothing.
  pub handle_event-elsewhere :
      (k : Answers) (p : ℕ) (req : HttpRequest) (c : Child) (s : Conn) (d : ℤ)
      → eq_ℤ (int_of_size p) fd0 ≡ false
      → object_at c.heap p ≡ some (request req)
      → http_module_handler_response files junk memory req (c.sockets (int_of_size p)) ≡ ok s
      → eq_ℤ d (int_of_size p) ≡ false
      → (c' : Child) × (handle_event files junk memory fd0 k (outgoing p) c ≡ ok (false, c'))
        × (c'.sockets (int_of_size p) ≡ s)
        × (c'.sockets d ≡ c.sockets d)
        × (c'.calls ≡ c.calls ++ del (int_of_size p) ∷ closed (int_of_size p) ∷ [])
  unfolding handle_event write_event
  handle_event-elsewhere k p req c s d h0 ho hs hd = (
    answered_client (int_of_size p) s c,
    handle_event-outgoing files junk memory fd0 k p req c s h0 ho hs,
    rw (eq_ℤ_self (int_of_size p)) refl,
    rw hd refl,
    refl,
  )

  -- A first read of fewer than `read_count` bytes from a client, whatever they are, ends the batch with
  -- a write outside an array, and with it the child.
  pub handle_batch-short :
      (k : Answers) (p : ℕ) (fd : ℤ) (s b : Bytes) (x : ℕ) (chunk : Bytes) (rest : List ReadAnswer)
      (events : List (Answers × Event)) (c : Child)
      → eq_ℤ (int_of_size p) fd0 ≡ false
      → object_at c.heap p ≡ some (Object.tcp (tcp fd s b))
      → c.inbox fd ≡ got (x ∷ chunk) ∷ rest
      → k.got_request ≡ true
      → suc (length chunk) < read_count
      → handle_batch files junk memory fd0 ((k, incoming p) ∷ events) c ≡ fault out_of_bounds
  unfolding handle_batch handle_event read_event
  handle_batch-short k p fd s b x chunk rest events c h0 ho hi hk hl =
      rw h0 (rw ho (rw hi (rw hk (rw (callback-short fd s b x chunk rest hl) refl))))

  -- In a batch with a new client and then a request of an earlier one that parses, it is the new
  -- client that is set to be written to, with the request of the earlier one. The calls for the new
  -- client succeed, and neither address is mistaken for the other's or for `fd[0]`.
  pub handle_batch-newest :
      (k k' : Answers) (p : ℕ) (new : ℤ) (t : HttpTcp) (s b : Bytes) (c : Child) (r : Called)
      (req : HttpRequest)
      → Received k new s b
      → (k.address == p) ≡ false
      → eq_ℤ (int_of_size p) fd0 ≡ false
      → object_at c.heap p ≡ some (Object.tcp t)
      → call_back t k'.got_request (c.inbox t.fd) ≡ ok r
      → r.result ≡ some req
      → (c' : Child) × (handle_batch files junk memory fd0
            ((k, arrival fd0) ∷ (k', incoming p) ∷ [])
            c
          ≡ ok c')
        × (object_at c'.heap k'.address ≡ some (request req))
        × (c'.calls
            ≡ (c.calls ++ add_in new (pointer k.address) ∷ [])
              ++ mod_out new (pointer k'.address) ∷ [])
  unfolding handle_batch object_at
  handle_batch-newest k k' p new t s b c r req h h6 h7 h8 h9 h10 =
      let c1 = accepted_client k new s b c in
      let old : object_at c1.heap p ≡ some (Object.tcp t) = rw h6 h8 in
      (
        read_client k' p t r req c1,
        rw (handle_event-arrival files junk memory fd0 k new s b c h)
            (rw (handle_event-incoming files junk memory fd0 k' p t r req c1 h7 old h9 h10) refl),
        rw (==_self k'.address) refl,
        refl,
      )
