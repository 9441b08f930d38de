-- ===== src/Child/Wires.antt =====
-- What the child of inc/http_task.h sends on each descriptor, whatever happens.
use http_callback_serve_vers.Base.{
  Bool, List, [], ◌∷◌, Option, none, some, Bytes, ok, Run, Yields, Yields-and_then, Yields-map,
  Yields-and_then_eq, ℤ, ◌&&◌, is_neg, eq_ℤ, eq_ℤ_iff, ◌≡◌, refl, sym, Bool-cases, inl, inr, subst,
  codes,
}
use http_callback_serve_vers.Common.{check_sign}
use http_callback_serve_vers.Io.{Conn}
use http_callback_serve_vers.Request.{HttpRequest}
use http_callback_serve_vers.Tcp.{HttpTcp, call_back}
use http_callback_serve_vers.Sock.{sock_fd_read, setnoblock}
use http_callback_serve_vers.Handler.{Files, http_module_handler_response}
use http_callback_serve_vers.Child.{
  Data, data_fd, Object, tcp, request, Event, Answers, Child, would_block, pointed, register,
  await_write, new_client, read_event, read_at, write_event, write_at, handle_event, handle_batch,
  serve, jump_task_pool_obj,
}

-- Whole answers of the response handler, one after the other, lead from the first state of a descriptor to
-- the second.
pub data Answered (files : Files) (junk memory : Bytes) (s : Conn) : Conn → Type 0 where
  nothing : Answered files junk memory s s
  then_answer :
      {s' s'' : Conn} (req : HttpRequest)
      → Answered files junk memory s s'
      → http_module_handler_response files junk memory req s' ≡ ok s''
      → Answered files junk memory s s''

Answered-trans :
    {files : Files} {junk memory : Bytes} {a b c : Conn}
    → Answered files junk memory a b
    → Answered files junk memory b c
    → Answered files junk memory a c
Answered-trans h nothing = h
Answered-trans h (then_answer req k e) = then_answer req (Answered-trans h k) e

-- The calls that read leave the writing sides alone.
register-sockets :
    (k : Answers) (fd : ℤ) (c : Child) (t : Option HttpTcp)
    → Yields (λ r. r.1.sockets ≡ c.sockets) (register k fd c t)
register-sockets k fd c none = tt
register-sockets k fd c (some t) =
    Yields-and_then (λ r. r.1.sockets ≡ c.sockets) (setnoblock k.flags k.set_flags) _ (λ n. refl)

new_client-sockets :
    (k : Answers) (c : Child) → Yields (λ r. r.1.sockets ≡ c.sockets) (new_client k c)
unfolding new_client
new_client-sockets k c =
    Yields-and_then (λ r. r.1.sockets ≡ c.sockets) (sock_fd_read k.size k.control) _
      (λ r. elim (Bool-cases (is_neg r.0 && would_block k.error)) [
        | inl e ↦ rw e refl
        | inr e ↦ rw e (register-sockets k r.1 c _)
      ])

await_write-sockets :
    (k : Answers) (c c' : Child) (req : Option HttpRequest)
    → c'.sockets ≡ c.sockets
    → Yields (λ r. r.1.sockets ≡ c.sockets) (await_write k c' req)
await_write-sockets k c c' none h = h
await_write-sockets k c c' (some req) h = h

read_at-sockets :
    (k : Answers) (d : Data) (c : Child) (o : Option Object)
    → Yields (λ r. r.1.sockets ≡ c.sockets) (read_at k d c o)
unfolding read_event
read_at-sockets k d c none = tt
read_at-sockets k d c (some (request req)) = tt
read_at-sockets k d c (some (tcp t)) =
    Yields-and_then (λ r. r.1.sockets ≡ c.sockets) (call_back t k.got_request (c.inbox t.fd)) _
      (λ r. await_write-sockets k c _ r.result refl)

module _ (files : Files) (junk memory : Bytes) (fd0 : ℤ) where
  -- On each descriptor.
  abbrev pub AnswersOnly : Child → Child → Type 0
  AnswersOnly c c' = (d : ℤ) → Answered files junk memory (c.sockets d) (c'.sockets d)

  same-AnswersOnly : (c c' : Child) → c'.sockets ≡ c.sockets → AnswersOnly c c'
  same-AnswersOnly c c' e d =
      subst (λ s. Answered files junk memory (c.sockets d) (s d)) (sym e) nothing

  write_event-AnswersOnly :
      (fd : ℤ) (req : HttpRequest) (c : Child)
      → Yields (λ r. AnswersOnly c r.1) (write_event files junk memory fd0 fd req c)
  unfolding write_event
  write_event-AnswersOnly fd req c =
      Yields-and_then_eq (λ r. AnswersOnly c r.1)
        (http_module_handler_response files junk memory req (c.sockets fd)) _
        (λ s e d. elim (Bool-cases (eq_ℤ d fd)) [
          | inl same ↦
              let d_fd = (eq_ℤ_iff d fd).0 same in
              rw same (
                subst (λ x. Answered files junk memory (c.sockets x) s) (sym d_fd)
                  (then_answer req nothing e))
          | inr other ↦ rw other nothing
        ])

  write_at-AnswersOnly :
      (d : Data) (c : Child) (o : Option Object)
      → Yields (λ r. AnswersOnly c r.1) (write_at files junk memory fd0 d c o)
  write_at-AnswersOnly d c none = tt
  write_at-AnswersOnly d c (some (tcp t)) = tt
  write_at-AnswersOnly d c (some (request req)) = write_event-AnswersOnly (data_fd d) req c

  handle_event-AnswersOnly :
      (k : Answers) (e : Event) (c : Child)
      → Yields (λ r. AnswersOnly c r.1) (handle_event files junk memory fd0 k e c)
  unfolding handle_event
  handle_event-AnswersOnly k e c =
      let unchanged = λ (m : Run (Bool × Child)).
        Yields-map (λ r. r.1.sockets ≡ c.sockets) (λ r. AnswersOnly c r.1) m
          (λ r. same-AnswersOnly c r.1) in
      elim (Bool-cases (eq_ℤ (data_fd e.data_of) fd0)) [
        | inl a ↦ rw a (unchanged _ (new_client-sockets k c))
        | inr a ↦ rw a (elim (Bool-cases e.readable) [
          | inl r ↦ rw r (unchanged _ (read_at-sockets k e.data_of c (pointed c.heap e.data_of)))
          | inr r ↦ rw r (elim (Bool-cases e.writable) [
            | inl w ↦ rw w (write_at-AnswersOnly e.data_of c (pointed c.heap e.data_of))
            | inr w ↦ rw w (λ d. nothing)
          ])
        ])
      ]

  AnswersOnly-trans : (a b c : Child) → AnswersOnly a b → AnswersOnly b c → AnswersOnly a c
  AnswersOnly-trans a b c h k d = Answered-trans (h d) (k d)

  handle_batch-AnswersOnly :
      (events : List (Answers × Event)) (c : Child)
      → Yields (λ c'. AnswersOnly c c') (handle_batch files junk memory fd0 events c)
  unfolding handle_batch
  handle_batch-AnswersOnly [] c = λ d. nothing
  handle_batch-AnswersOnly ((k, e) ∷ events) c =
      Yields-and_then_eq (λ c'. AnswersOnly c c') (handle_event files junk memory fd0 k e c) _
        (λ r ran.
          let first : AnswersOnly c r.1 =
            subst (Yields (λ x. AnswersOnly c x.1)) ran (handle_event-AnswersOnly k e c) in
          let rest =
            Yields-map (λ c'. AnswersOnly r.1 c') (λ c'. AnswersOnly c c')
              (handle_batch files junk memory fd0 events r.1)
              (λ c' h. AnswersOnly-trans c r.1 c' first h) (handle_batch-AnswersOnly events r.1) in
          elim (Bool-cases r.0) [ inl stop ↦ rw stop first | inr goes ↦ rw goes rest ])

  serve-AnswersOnly :
      (batches : List (List (Answers × Event))) (c : Child)
      → Yields (λ c'. AnswersOnly c c') (serve files junk memory fd0 batches c)
  unfolding serve
  serve-AnswersOnly [] c = λ d. nothing
  serve-AnswersOnly (events ∷ batches) c =
      Yields-and_then_eq (λ c'. AnswersOnly c c') (handle_batch files junk memory fd0 events c) _
        (λ b ran.
          let first : AnswersOnly c b =
            subst (Yields (λ c'. AnswersOnly c c')) ran (handle_batch-AnswersOnly events c) in
          Yields-map (λ c'. AnswersOnly b c') (λ c'. AnswersOnly c c')
            (serve files junk memory fd0 batches b) (λ c' h. AnswersOnly-trans c b c' first h)
            (serve-AnswersOnly batches b))

  -- Whatever the clients send, in whichever order events arrive, and whatever the kernel and `malloc`
  -- answer: in each state in which the child has handled all events given, without a fault, an exit or
  -- a call that waits, what has gone out on each descriptor is a sequence of
  -- whole answers of the response handler, each begun where the one in front of it had ended. No answer
  -- is mixed with another, and nothing else is sent.
  pub jump_task_pool_obj-AnswersOnly :
      (fd1 created flags set_flags : ℤ) (batches : List (List (Answers × Event))) (c : Child)
      → Yields
          (λ c'. AnswersOnly c c')
          (jump_task_pool_obj files junk memory fd0 fd1 created flags set_flags batches c)
  unfolding jump_task_pool_obj
  jump_task_pool_obj-AnswersOnly fd1 created flags set_flags batches c =
      Yields-and_then (λ c'. AnswersOnly c c') (check_sign (codes "epoll_create error!") created) _
        (λ n.
          Yields-and_then (λ c'. AnswersOnly c c') (setnoblock flags set_flags) _
            (λ n'. serve-AnswersOnly batches _))
