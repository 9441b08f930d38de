-- ===== src/Child/Crash.antt =====
-- Requests that end a child of inc/http_task.h.
use http_callback_serve_vers.Base.{
  ℕ, ◌<◌, true, false, List, [], ◌∷◌, ◌++◌, some, codes, Bytes, length, length-append, ◌+◌, fault,
  Fault, null_pointer, out_of_bounds, ℤ, eq_ℤ, int_of_size, ◌≡◌, ◌∙◌, refl, arith,
}
use http_callback_serve_vers.CString.{crlf, has_substring}
use http_callback_serve_vers.CString.Token.{Free}
use http_callback_serve_vers.Io.{ReadAnswer, got}
use http_callback_serve_vers.Request.{bufsize, analasy}
use http_callback_serve_vers.Request.Total.{analasy-no_blank}
use http_callback_serve_vers.Tcp.{read_count, call_back}
use http_callback_serve_vers.Tcp.Recv.{IsText}
use http_callback_serve_vers.Tcp.Callback.{tcp, callback-whole, callback-short}
use http_callback_serve_vers.Handler.{Files}
use http_callback_serve_vers.Child.{
  Object, object_at, Event, Answers, Child, read_event, handle_event, handle_batch, serve,
}
use http_callback_serve_vers.Child.Steps.{incoming}

-- What a read does: one of fewer than `read_count` bytes, whatever `left` the buffer of the connection
-- holds, and one that fills up a text with an empty line and no blank.
pub data Fatal (left chunk : Bytes) : Fault → Type 0 where
  short : length chunk < read_count → Fatal left chunk out_of_bounds
  no_blank :
      length chunk ≡ read_count
      → IsText chunk
      → length left + read_count < bufsize
      → Free (codes " ") (left ++ chunk)
      → has_substring (left ++ chunk) (crlf ++ crlf) ≡ true
      → Fatal left chunk null_pointer

analasy-behind :
    (left : Bytes) (x : ℕ) (chunk : Bytes)
    → Free (codes " ") (left ++ x ∷ chunk)
    → length (left ++ x ∷ chunk) < bufsize
    → has_substring (left ++ x ∷ chunk) (crlf ++ crlf) ≡ true
    → analasy true (left ++ x ∷ chunk) ≡ fault null_pointer
analasy-behind [] x chunk free room line = analasy-no_blank x chunk free room line
analasy-behind (y ∷ left) x chunk free room line =
    analasy-no_blank y (left ++ x ∷ chunk) free room line

call_back-Fatal :
    (fd : ℤ) (s left : Bytes) (x : ℕ) (chunk : Bytes) (rest : List ReadAnswer) (f : Fault)
    → Fatal left (x ∷ chunk) f
    → call_back (tcp fd s left) true (got (x ∷ chunk) ∷ rest) ≡ fault f
call_back-Fatal fd s left x chunk rest f (short few) = callback-short fd s left x chunk rest few
call_back-Fatal fd s left x chunk rest f (no_blank size text room free line) =
    let fits : length (left ++ x ∷ chunk) < bufsize =
      omega (arith, length-append left (x ∷ chunk)) in
    callback-whole fd s left true x chunk rest size text room
    ∙ rw (analasy-behind left x chunk free fits line) refl

module _ (files : Files) (junk memory : Bytes) (fd0 : ℤ) where
  -- A client can end the child that it was passed to with what it sends, where there is memory for the
  -- request and its connection object does not lie where its address would be read as `fd[0]`. A read
  -- of fewer than `read_count` bytes, whatever they are, makes the child write outside an array. A
  -- read of `read_count` bytes, none of them zero, makes it read through a null pointer, where
  -- together with the string that the buffer of the connection held before, which for a new client is
  -- what `malloc` left in it, they fit the buffer and have an empty line and no blank. No further
  -- event of this batch or a later one is handled.
  pub serve-Fatal :
      (k : Answers) (p : ℕ) (fd : ℤ) (s left : Bytes) (x : ℕ) (chunk : Bytes)
      (rest : List ReadAnswer) (events : List (Answers × Event))
      (batches : List (List (Answers × Event))) (c : Child) (f : Fault)
      → eq_ℤ (int_of_size p) fd0 ≡ false
      → object_at c.heap p ≡ some (Object.tcp (tcp fd s left))
      → c.inbox fd ≡ got (x ∷ chunk) ∷ rest
      → k.got_request ≡ true
      → Fatal left (x ∷ chunk) f
      → serve files junk memory fd0 (((k, incoming p) ∷ events) ∷ batches) c ≡ fault f
  unfolding serve handle_batch handle_event read_event
  serve-Fatal k p fd s left x chunk rest events batches c f h0 ho hi hk fatal =
      rw h0 (rw ho (rw hi (rw hk (rw (call_back-Fatal fd s left x chunk rest f fatal) refl))))
