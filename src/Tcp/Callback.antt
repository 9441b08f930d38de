-- ===== src/Tcp/Callback.antt =====
-- `callback` of inc/http_types.h on a connection that `http_tcp_alloc` made.
use http_callback_serve_vers.Base.{
  ℕ, suc, ◌+◌, ◌-◌, ◌<◌, List, [], ◌∷◌, ◌++◌, ◌≡◌, refl, sym, ap, ◌∙◌, and_then, arith, Bytes,
  length, Option, none, some, ok, fault, out_of_bounds, ℤ, take-length, Bool, true, false,
  length-append,
}
use mathlib.Core.Option.{some-injective}
use http_callback_serve_vers.Io.{ReadAnswer, got}
use http_callback_serve_vers.Request.{HttpRequest, bufsize, analasy}
use http_callback_serve_vers.Request.Print.{Header, print, slots_of}
use http_callback_serve_vers.Request.Parse.{IsRequest, analasy-print}
use http_callback_serve_vers.Tcp.{read_count, HttpTcp, Called, callback, http_tcp_alloc, call_back}
use http_callback_serve_vers.Tcp.Recv.{IsText, text_of_text, on_recv_full, on_recv_short}

-- A connection as `http_tcp_alloc` makes it, with the string `b` in its buffer.
abbrev pub tcp : ℤ → Bytes → Bytes → HttpTcp
tcp fd s b = record {
  fd = fd;
  http_contxt = record { buf = s; parse_req = analasy };
  callback = callback;
  buf = some b;
}

abbrev pub called : Bytes → List ReadAnswer → Option HttpRequest → Called
called b rest r = record {
  context = record { buf = b; parse_req = analasy };
  buf = b;
  rest = rest;
  result = r;
}

-- `http_tcp_alloc` returns an object only where its own `malloc` and both of the context's succeed. The
-- object then holds the descriptor, the parser, and the result of the last `malloc`, null or not.
pub http_tcp_alloc-some :
    (fd : ℤ) (item context : Bool) (context_buf b : Option Bytes) (t : HttpTcp)
    → http_tcp_alloc fd item context context_buf b ≡ some t
    → (item ≡ true)
      × (context ≡ true)
      × (t.fd ≡ fd)
      × (t.buf ≡ b)
      × ((s : Bytes) × (context_buf ≡ some s)
          × (t.http_contxt ≡ record { buf = s; parse_req = analasy }))
unfolding http_tcp_alloc
http_tcp_alloc-some fd false context context_buf b t e = cc
http_tcp_alloc-some fd true false context_buf b t e = cc
http_tcp_alloc-some fd true true none b t e = cc
http_tcp_alloc-some fd true true (some s) b t e =
    let same = sym (some-injective _ _ e) in
    (refl, refl, ap (λ x. x.fd) same, ap (λ x. x.buf) same, (s, refl, ap (λ x. x.http_contxt) same))

-- When the kernel gives `read_count` bytes without a zero at once, and they fit the buffer, their text
-- is appended to the connection's buffer, and the parser runs on the whole of it.
pub callback-whole :
    (fd : ℤ) (s b : Bytes) (got_memory : Bool) (c : ℕ) (chunk : Bytes) (answers : List ReadAnswer)
    → suc (length chunk) ≡ read_count
    → IsText (c ∷ chunk)
    → length b + read_count < bufsize
    → call_back (tcp fd s b) got_memory (got (c ∷ chunk) ∷ answers)
      ≡ and_then
          (analasy got_memory (b ++ c ∷ chunk))
          (λ (r : Option HttpRequest). ok (called (b ++ c ∷ chunk) answers r))
unfolding call_back callback
callback-whole fd s b got_memory c chunk answers e text room =
    let all = on_recv_full b read_count answers c chunk (omega arith) (omega arith) room in
    let whole =
      take-length (b ++ c ∷ chunk) (bufsize - 1) (omega (arith, length-append b (c ∷ chunk))) in
    rw (all, text_of_text (c ∷ chunk) text, whole) refl

-- The same where the parser returns.
pub callback-full :
    (fd : ℤ) (s b : Bytes) (c : ℕ) (chunk : Bytes) (answers : List ReadAnswer)
    → suc (length chunk) ≡ read_count
    → IsText (c ∷ chunk)
    → length b + read_count < bufsize
    → (r : Option HttpRequest) → analasy true (b ++ c ∷ chunk) ≡ ok r
    → call_back (tcp fd s b) true (got (c ∷ chunk) ∷ answers)
      ≡ ok (called (b ++ c ∷ chunk) answers r)
callback-full fd s b c chunk answers e text room r parsed =
    callback-whole fd s b true c chunk answers e text room ∙ rw parsed refl

-- A well-formed request text of exactly `read_count` bytes that comes in one piece is parsed.
pub callback-print :
    (fd : ℤ) (s : Bytes) (c : ℕ) (m u v : Bytes) (hs : List Header) (body : Bytes)
    (answers : List ReadAnswer)
    → IsRequest (c ∷ m) u v hs
    → IsText (print (c ∷ m) u v hs body)
    → length (print (c ∷ m) u v hs body) ≡ read_count
    → call_back (tcp fd s []) true (got (print (c ∷ m) u v hs body) ∷ answers)
      ≡ ok (
          called
            (print (c ∷ m) u v hs body)
            answers
            (some (record { method = c ∷ m; url = u; version = v; nhead = slots_of hs })))
callback-print fd s c m u v hs body answers is text size =
    callback-full fd s [] c _ answers size text (omega arith) _
      (analasy-print (c ∷ m) u v hs body is (omega arith))

-- A text of fewer than `read_count` bytes, whatever it is, makes the callback write outside an array
-- on the stack.
pub callback-short :
    (fd : ℤ) (s b : Bytes) (c : ℕ) (chunk : Bytes) (answers : List ReadAnswer)
    → suc (length chunk) < read_count
    → call_back (tcp fd s b) true (got (c ∷ chunk) ∷ answers) ≡ fault out_of_bounds
unfolding call_back callback
callback-short fd s b c chunk answers h = rw (on_recv_short b read_count answers c chunk h)
