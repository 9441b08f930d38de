-- ===== src/Child/Visits.antt =====
-- One client after the other in the child's loop of inc/http_task.h, against a description of what the
-- child sends and to whom.
use http_callback_serve_vers.Base.{
  ℕ, true, false, List, [], ◌∷◌, ◌++◌, some, Bytes, Run, ok, and_then, and_then_assoc, and_then_ext,
  ℤ, pos, eq_ℤ, int_of_size, ◌≡◌, refl, ◌∙◌, ap, append_assoc, All, length, length-append, ◌+◌, ◌<◌,
  arith,
}
use http_callback_serve_vers.Io.{Conn, ReadAnswer, got}
use http_callback_serve_vers.Request.{HttpRequest, bufsize, analasy}
use http_callback_serve_vers.Request.Print.{Header, print, slots_of}
use http_callback_serve_vers.Request.Parse.{IsRequest, analasy-print}
use http_callback_serve_vers.Tcp.{call_back, read_count}
use http_callback_serve_vers.Tcp.Recv.{IsText}
use http_callback_serve_vers.Tcp.Callback.{tcp, called, callback-full}
use http_callback_serve_vers.Handler.{Files}
use http_callback_serve_vers.Handler.Answers.{IsAsked}
use http_callback_serve_vers.Handler.Reply.{reply, handler_reply}
use http_callback_serve_vers.Child.{
  pointer, Object, request, add_in, mod_out, del, closed, Answers, Child, Call, Event, update,
  object_at, handle_event, handle_batch, write_event, serve, jump_task_pool_obj, descriptor,
}
use http_callback_serve_vers.Child.Steps.{
  arrival, incoming, outgoing, Received, accepted_client, read_client, answered_client, one_event,
  handle_event-arrival, handle_event-incoming, object_at-new,
}

-- A client that is received on descriptor `fd`, sends `chunk`, and is answered. Its connection object has a
-- buffer that `malloc` gives and that nobody clears: `left` is the string that the memory happens to
-- hold, and the text that is parsed is `left` with `chunk` behind it. There is an answer of the kernel and
-- of `malloc` for each of the three rounds, and `later` comes on the connection behind the chunk.
pub record Visit : Type 0 where
  pub k : Answers
  pub k' : Answers
  pub k'' : Answers
  pub fd : ℤ
  pub s : Bytes
  pub left : Bytes
  pub chunk : Bytes
  pub first : ℕ
  pub m : Bytes
  pub url : Bytes
  pub version : Bytes
  pub headers : List Header
  pub body : Bytes
  pub later : List ReadAnswer

abbrev pub text_of : Visit → Bytes
text_of v = print (v.first ∷ v.m) v.url v.version v.headers v.body

abbrev pub request_of : Visit → HttpRequest
request_of v = record {
  method = v.first ∷ v.m;
  url = v.url;
  version = v.version;
  nhead = slots_of v.headers;
}

-- The descriptor that is answered: the low half of the address of the request object.
abbrev pub answered_on : Visit → ℤ
answered_on v = int_of_size v.k'.address

abbrev pub rounds_of : ℤ → List Visit → List (List (Answers × Event))
rounds_of fd0 [] = []
rounds_of fd0 (v ∷ vs) =
    ((v.k, arrival fd0) ∷ [])
    ∷ ((v.k', incoming v.k.address) ∷ [])
    ∷ ((v.k'', outgoing v.k'.address) ∷ [])
    ∷ rounds_of fd0 vs

-- Neither object lies where its address would be read as `fd[0]`, the request object is allocated, what the
-- client sends has `read_count` bytes, and with what was left in the buffer in front of it, it is a
-- well-formed request that fits the buffer and is split by what the stack holds.
pub record IsAsking (clean : Bytes) (d : ℕ) (fd0 : ℤ) (v : Visit) : Type 0 where
  pub connection_at : eq_ℤ (int_of_size v.k.address) fd0 ≡ false
  pub request_at : eq_ℤ (int_of_size v.k'.address) fd0 ≡ false
  pub parses : IsRequest (v.first ∷ v.m) v.url v.version v.headers
  pub whole : v.left ++ v.chunk ≡ text_of v
  pub plain : IsText v.chunk
  pub size : length v.chunk ≡ read_count
  pub room : length v.left + read_count < bufsize
  pub allocated : v.k'.got_request ≡ true
  pub asked : IsAsked (request_of v) clean d

-- No call fails while the client is received.
pub record IsVisit (clean : Bytes) (d : ℕ) (fd0 : ℤ) (v : Visit) : Type 0 where
  pub received : Received v.k v.fd v.s v.left
  pub asking : IsAsking clean d fd0 v

call_back-visit :
    (v : Visit) (chunk : Bytes)
    → IsRequest (v.first ∷ v.m) v.url v.version v.headers
    → v.left ++ chunk ≡ text_of v
    → IsText chunk
    → length chunk ≡ read_count
    → length v.left + read_count < bufsize
    → call_back (tcp v.fd v.s v.left) true (got chunk ∷ v.later)
      ≡ ok (called (text_of v) v.later (some (request_of v)))
call_back-visit v [] is whole plain size room = absurd (omega arith)
call_back-visit v (x ∷ chunk) is whole plain size room =
    let fits : length (text_of v) < bufsize =
      omega (arith, ap length whole, length-append v.left (x ∷ chunk)) in
    let parsed = analasy-print (v.first ∷ v.m) v.url v.version v.headers v.body is fits in
    callback-full v.fd v.s v.left x chunk v.later size plain room (some (request_of v))
      (ap (analasy true) whole ∙ parsed)
    ∙ ap (λ t. ok (called t v.later (some (request_of v)))) whole

-- Each request is the next thing that comes on its connection, in the order of the visits.
abbrev pub IsPending : List Visit → (ℤ → List ReadAnswer) → Type 0
IsPending [] inbox = Unit {0}
IsPending (v ∷ vs) inbox =
    (inbox v.fd ≡ got v.chunk ∷ v.later) × IsPending vs (update v.fd v.later inbox)

-- What can be seen of a child from outside: the writing sides of the descriptors, and its calls.
abbrev pub Seen : Type 0
Seen = (ℤ → Conn) × List Call

abbrev pub seen : Child → Seen
seen c = (c.sockets, c.calls)

abbrev pub calls_of : Visit → List Call
calls_of v =
    add_in v.fd (pointer v.k.address)
    ∷ mod_out v.fd (pointer v.k'.address)
    ∷ del (answered_on v)
    ∷ closed (answered_on v)
    ∷ []

calls_of-append :
    (v : Visit) (calls : List Call)
    → ((calls ++ add_in v.fd (pointer v.k.address) ∷ [])
          ++ mod_out v.fd (pointer v.k'.address) ∷ [])
        ++ del (answered_on v) ∷ closed (answered_on v) ∷ []
      ≡ calls ++ calls_of v
calls_of-append v calls =
    append_assoc (calls ++ add_in v.fd (pointer v.k.address) ∷ [])
      (mod_out v.fd (pointer v.k'.address) ∷ []) _
    ∙ append_assoc calls (add_in v.fd (pointer v.k.address) ∷ []) _

-- The child as its clients should see it: one reply for each of them, in order.
abbrev pub reply_all : Files → List Visit → Seen → Run Seen
reply_all files [] o = ok o
reply_all files (v ∷ vs) o =
    let next =
      λ (out : Conn). reply_all files vs (update (answered_on v) out o.0, o.1 ++ calls_of v) in
    and_then (reply files (request_of v) (o.0 (answered_on v))) next

module _ (files : Files) (memory clean : Bytes) (d : ℕ) (more : Bytes) (fd0 : ℤ) where
  -- The round in which a request is answered.
  serve-outgoing :
      (k : Answers) (p : ℕ) (req : HttpRequest) (c : Child)
      (batches : List (List (Answers × Event)))
      → eq_ℤ (int_of_size p) fd0 ≡ false
      → object_at c.heap p ≡ some (request req)
      → IsAsked req clean d
      → serve files (clean ++ d ∷ more) memory fd0 (((k, outgoing p) ∷ []) ∷ batches) c
        ≡ and_then (reply files req (c.sockets (int_of_size p))) (λ (out : Conn).
          serve files
            (clean ++ d ∷ more)
            memory
            fd0
            batches
            (answered_client (int_of_size p) out c))
  unfolding serve handle_batch handle_event write_event
  serve-outgoing k p req c batches h0 ho asked =
      let answered =
        handler_reply files memory req clean d more asked (c.sockets (int_of_size p)) in
      rw (h0, ho, answered)
        (ap
            (λ r.
              and_then r (λ (c' : Child). serve files (clean ++ d ∷ more) memory fd0 batches c'))
            (and_then_assoc (reply files req (c.sockets (int_of_size p))) _ _)
          ∙ and_then_assoc (reply files req (c.sockets (int_of_size p))) _ _)

  serve-one_event :
      (k : Answers) (e : Event) (c c' : Child) (batches : List (List (Answers × Event)))
      → handle_event files (clean ++ d ∷ more) memory fd0 k e c ≡ ok (false, c')
      → serve files (clean ++ d ∷ more) memory fd0 (((k, e) ∷ []) ∷ batches) c
        ≡ serve files (clean ++ d ∷ more) memory fd0 batches c'
  unfolding serve
  serve-one_event k e c c' batches h =
      rw (one_event files (clean ++ d ∷ more) memory fd0 k e c c' h) refl

  serve-none : (c : Child) → serve files (clean ++ d ∷ more) memory fd0 [] c ≡ ok c
  unfolding serve
  serve-none c = refl

  serve-reply_all :
      (vs : List Visit) (c : Child)
      → All (IsVisit clean d fd0) vs
      → IsPending vs c.inbox
      → and_then
          (serve files (clean ++ d ∷ more) memory fd0 (rounds_of fd0 vs) c)
          (λ (c' : Child). ok (seen c'))
        ≡ reply_all files vs (seen c)
  serve-reply_all [] c all pending =
      ap (λ r. and_then r (λ (c' : Child). ok (seen c'))) (serve-none c)
  serve-reply_all (v ∷ vs) c (is, all) (next, pending) =
      let junk = clean ++ d ∷ more in
      let fresh = tcp v.fd v.s v.left in
      let called_with = called (text_of v) v.later (some (request_of v)) in
      let c1 = accepted_client v.k v.fd v.s v.left c in
      let c2 = read_client v.k' v.k.address fresh called_with (request_of v) c1 in
      let e1 = handle_event-arrival files junk memory fd0 v.k v.fd v.s v.left c is.received in
      let read : call_back fresh v.k'.got_request (c.inbox v.fd) ≡ ok called_with =
        rw (is.asking.allocated, next)
          (call_back-visit v v.chunk is.asking.parses is.asking.whole is.asking.plain is.asking.size
            is.asking.room) in
      let e2 =
        handle_event-incoming files junk memory fd0 v.k' v.k.address fresh called_with
          (request_of v) c1 is.asking.connection_at
          (object_at-new v.k.address (Object.tcp fresh) c.heap) read refl in
      let rest = rounds_of fd0 vs in
      let last = ((v.k'', outgoing v.k'.address) ∷ []) ∷ rest in
      let served =
        serve-one_event v.k (arrival fd0) c c1 (((v.k', incoming v.k.address) ∷ []) ∷ last) e1
        ∙ serve-one_event v.k' (incoming v.k.address) c1 c2 last e2
        ∙ serve-outgoing v.k'' v.k'.address (request_of v) c2 rest is.asking.request_at
            (object_at-new v.k'.address (request (request_of v)) _) is.asking.asked in
      let replied = reply files (request_of v) (c.sockets (answered_on v)) in
      ap (λ r. and_then r (λ (c' : Child). ok (seen c'))) served
      ∙ and_then_assoc replied _ _
      ∙ and_then_ext replied _ _ (λ out.
        serve-reply_all vs (answered_client (answered_on v) out c2) all pending
        ∙ ap (λ calls. reply_all files vs (update (answered_on v) out c.sockets, calls))
            (calls_of-append v c.calls))

  pub jump_task_pool_obj-reply_all :
      (fd1 : ℤ) (made n n' : ℕ) (vs : List Visit) (c : Child)
      → All (IsVisit clean d fd0) vs
      → IsPending vs c.inbox
      → and_then
          (jump_task_pool_obj files
            (clean ++ d ∷ more)
            memory
            fd0
            fd1
            (pos made)
            (pos n)
            (pos n')
            (rounds_of fd0 vs)
            c)
          (λ (c' : Child). ok (seen c'))
        ≡ reply_all files vs (c.sockets, c.calls ++ closed fd1 ∷ add_in fd0 (descriptor fd0) ∷ [])
  unfolding jump_task_pool_obj
  jump_task_pool_obj-reply_all fd1 made n n' vs c =
      serve-reply_all vs
        (record c { calls = c.calls ++ closed fd1 ∷ add_in fd0 (descriptor fd0) ∷ [] })
