-- ===== src/Child/Session.antt =====
-- The life of one client in the child's loop of inc/http_task.h: it is received, its request is read,
-- and it is answered, each in a round of its own.
use http_callback_serve_vers.Base.{
  ℕ, ◌+◌, ◌/◌, ◌^◌, ◌≤◌, ◌<◌, true, false, List, [], ◌∷◌, ◌++◌, some, ◌==◌, Bytes, ok, length, pos,
  ℤ, eq_ℤ, int_of_size, ◌≡◌, refl, All,
}
use http_callback_serve_vers.Io.{Conn, conn, SendAnswer, ReadAnswer, got}
use http_callback_serve_vers.Request.{HttpRequest}
use http_callback_serve_vers.Request.Print.{Header, print, slots_of}
use http_callback_serve_vers.Request.Parse.{IsRequest}
use http_callback_serve_vers.Tcp.{Called, call_back, read_count}
use http_callback_serve_vers.Tcp.Recv.{IsText}
use http_callback_serve_vers.Tcp.Callback.{tcp, called, callback-print}
use http_callback_serve_vers.Accept.{file, is_method, buffsize}
use http_callback_serve_vers.Accept.Locate.{asked_path}
use http_callback_serve_vers.Page.Delivers.{Roomy}
use http_callback_serve_vers.Page.Download.{readable, header_block}
use http_callback_serve_vers.Handler.{Files, http_module_handler_response}
use http_callback_serve_vers.Handler.Answers.{IsAsked, handler_download}
use http_callback_serve_vers.Child.{
  descriptor, pointer, jump_task_pool_obj, Object, request, add_in, mod_out, del, closed, Answers,
  Child, update, serve,
}
use http_callback_serve_vers.Child.Steps.{
  arrival, incoming, outgoing, eq_ℤ_self, Received, accepted_client, read_client, answered_client,
  one_event, handle_event-arrival, handle_event-incoming, handle_event-outgoing, object_at-new,
}

module _ (files : Files) (memory clean : Bytes) (d : ℕ) (more : Bytes) (fd0 : ℤ) where
  -- The three rounds for a request that parses and an answer that comes to an end.
  serve-answered :
      (k k' k'' : Answers) (fd : ℤ) (s : Bytes) (c : Child) (r : Called) (req : HttpRequest)
      (out : Conn)
      → Received k fd s []
      → eq_ℤ (int_of_size k.address) fd0 ≡ false
      → eq_ℤ (int_of_size k'.address) fd0 ≡ false
      → call_back (tcp fd s []) k'.got_request (c.inbox fd) ≡ ok r
      → r.result ≡ some req
      → http_module_handler_response files
          (clean ++ d ∷ more)
          memory
          req
          (c.sockets (int_of_size k'.address))
        ≡ ok out
      → (c' : Child) × (serve files
            (clean ++ d ∷ more)
            memory
            fd0
            (((k, arrival fd0) ∷ [])
              ∷ ((k', incoming k.address) ∷ [])
              ∷ ((k'', outgoing k'.address) ∷ [])
              ∷ [])
            c
          ≡ ok c')
        × (c'.sockets ≡ update (int_of_size k'.address) out c.sockets)
        × (c'.calls
            ≡ ((c.calls ++ add_in fd (pointer k.address) ∷ [])
                ++ mod_out fd (pointer k'.address) ∷ [])
              ++ del (int_of_size k'.address) ∷ closed (int_of_size k'.address) ∷ [])
  unfolding serve
  serve-answered k k' k'' fd s c r req out h p p' hc hr hs =
      let junk = clean ++ d ∷ more in
      let c1 = accepted_client k fd s [] c in
      let c2 = read_client k' k.address (tcp fd s []) r req c1 in
      let read = record (tcp fd s []) { http_contxt = r.context; buf = some r.buf } in
      let older = (k.address, Object.tcp read) ∷ c1.heap in
      let e1 =
        one_event files junk memory fd0 k (arrival fd0) c c1
          (handle_event-arrival files junk memory fd0 k fd s [] c h) in
      let e2 = one_event files junk memory fd0 k' (incoming k.address) c1 c2 (
        handle_event-incoming files junk memory fd0 k' k.address (tcp fd s []) r req c1 p
          (object_at-new k.address (Object.tcp (tcp fd s [])) c.heap) hc hr) in
      let e3 =
        one_event files junk memory fd0 k'' (outgoing k'.address) c2
          (answered_client (int_of_size k'.address) out c2)
          (handle_event-outgoing files junk memory fd0 k'' k'.address req c2 out p'
            (object_at-new k'.address (request req) older) hs) in
      (answered_client (int_of_size k'.address) out c2, rw e1 (rw e2 (rw e3 refl)), refl, refl)

  -- From the socket to the file, for the first client of a child that starts without a failure: a
  -- well-formed GET or POST of `read_count` bytes that comes in one piece, for a file that exists, is
  -- parsed and answered with the header block and the bytes of that file. What goes wrong is where the answer goes: to the descriptor with
  -- the number in the low half of the address of the request object, which the child then closes. Every
  -- other descriptor is sent nothing.
  pub jump_task_pool_obj-download :
      (fd1 : ℤ) (made n n' : ℕ) (k k' k'' : Answers) (fd other : ℤ) (s : Bytes) (c : Child) (x : ℕ)
      (m u v : Bytes) (hs : List Header) (body : Bytes) (answers : List ReadAnswer)
      (dir name contents : Bytes)
      → Received k fd s []
      → eq_ℤ (int_of_size k.address) fd0 ≡ false
      → eq_ℤ (int_of_size k'.address) fd0 ≡ false
      → IsRequest (x ∷ m) u v hs
      → IsText (print (x ∷ m) u v hs body)
      → length (print (x ∷ m) u v hs body) ≡ read_count
      → k'.got_request ≡ true
      → c.inbox fd ≡ got (print (x ∷ m) u v hs body) ∷ answers
      → IsAsked (record { method = x ∷ m; url = u; version = v; nhead = slots_of hs }) clean d
      → files.log_opens ≡ true
      → is_method (x ∷ m) ≡ true
      → files.stat (asked_path u) ≡ some file
      → files.contents (asked_path u) ≡ some (readable contents)
      → asked_path u ≡ dir ++ b'/' ∷ name
      → All (λ b. (b == b'/') ≡ false) name
      → length name < 990
      → files.size (asked_path u) < 2 ^ 63
      → Roomy buffsize (c.sockets (int_of_size k'.address)).answers
      → length contents / buffsize + 6 ≤ length (c.sockets (int_of_size k'.address)).answers
      → eq_ℤ other (int_of_size k'.address) ≡ false
      → (c' : Child) × (rest : List SendAnswer) × (jump_task_pool_obj files
            (clean ++ d ∷ more)
            memory
            fd0
            fd1
            (pos made)
            (pos n)
            (pos n')
            (((k, arrival fd0) ∷ [])
              ∷ ((k', incoming k.address) ∷ [])
              ∷ ((k'', outgoing k'.address) ∷ [])
              ∷ [])
            c
          ≡ ok c')
        × (c'.sockets (int_of_size k'.address)
            ≡ conn rest (
                (c.sockets (int_of_size k'.address)).wire
                ++ header_block (files.size (asked_path u)) name
                ++ contents))
        × (c'.sockets other ≡ c.sockets other)
        × (c'.calls
            ≡ (((c.calls ++ closed fd1 ∷ add_in fd0 (descriptor fd0) ∷ [])
                  ++ add_in fd (pointer k.address) ∷ [])
                ++ mod_out fd (pointer k'.address) ∷ [])
              ++ del (int_of_size k'.address) ∷ closed (int_of_size k'.address) ∷ [])
  unfolding jump_task_pool_obj
  jump_task_pool_obj-download fd1 made n n' k k' k'' fd other s c x m u v hs body answers dir name
        contents h p p' is text size got_it in_box asked opens known found stored path plain short
        small roomy enough elsewhere =
      let req : HttpRequest = record {
        method = x ∷ m;
        url = u;
        version = v;
        nhead = slots_of hs;
      } in
      let begun : Child = record c {
        calls = c.calls ++ closed fd1 ∷ add_in fd0 (descriptor fd0) ∷ [];
      } in
      let whole = print (x ∷ m) u v hs body in
      let read : call_back (tcp fd s []) k'.got_request (c.inbox fd)
          ≡ ok (called whole answers (some req)) =
        rw got_it (rw in_box (callback-print fd s x m u v hs body answers is text size)) in
      let (rest, sent) =
        handler_download files memory req clean d more asked (c.sockets (int_of_size k'.address))
          dir name contents opens known found stored path plain short small roomy enough in
      let (c', run, sockets, calls) =
        serve-answered k k' k'' fd s begun (called whole answers (some req)) req _ h p p' read refl
          sent in
      (
        c',
        rest,
        run,
        rw sockets (rw (eq_ℤ_self (int_of_size k'.address)) refl),
        rw sockets (rw elsewhere refl),
        calls,
      )
