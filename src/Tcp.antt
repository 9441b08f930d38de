-- ===== src/Tcp.antt =====
-- The connection objects of inc/http_types.h: `alloc_http_context`, `http_tcp_alloc`, `onRecv` and
-- `callback`. A `char` buffer is the string that it holds; what `malloc` leaves there is a parameter.
pub mod Recv
pub mod Callback
use http_callback_serve_vers.Base.{
  ℕ, zero, suc, ◌+◌, ◌-◌, Bool, true, false, List, [], ◌∷◌, ◌++◌, Option, none, some, ltb, ◌==◌,
  if◌then◌else◌, Bytes, length, take, Run, ok, fault, waiting, and_then, out_of_bounds, ℤ, pos,
  negsuc, minus_one, null_pointer, size_mod,
}
use http_callback_serve_vers.Io.{ReadAnswer, got}
use http_callback_serve_vers.Request.{HttpRequest, bufsize, analasy}

-- READ_COUNT and READ_COUNT_BUF.
abbrev pub read_count : ℕ
read_count = 100

abbrev pub read_count_buf : ℕ
read_count_buf = 1000

-- The string in front of the first zero byte.
unfoldable pub text_of : Bytes → Bytes
text_of [] = []
text_of (zero ∷ s) = []
text_of (suc c ∷ s) = suc c ∷ text_of s

-- `strncat(buf, ptr, strlen(ptr))`: `strlen` wants a zero within the bytes that the `memset` cleared,
-- and the result has to fit `buf`.
abbrev pub append_text : Bytes → Bytes → Run Bytes
append_text buf text =
    if ltb (length text) read_count_buf
    then if ltb (length buf + length text) bufsize then ok (buf ++ text) else fault out_of_bounds
    else fault out_of_bounds

-- The loop of `onRecv`: `len`, `ptr - cur_ptr`, `nleft`, the string in `buf`, and the answers. The
-- `memset` clears `read_count_buf` bytes from `ptr` on, which are those of `cur_ptr` only at its
-- start. `nread` is unsigned: a failure is no error here but 2^64 - 1 bytes, so `nleft` grows by one
-- and `ptr` moves back by one.
unfoldable pub on_recv_loop :
    ℕ → ℤ → ℕ → Bytes → List ReadAnswer → Run (ℕ × Bytes × List ReadAnswer)
unfolding text_of
on_recv_loop len ptr zero buf answers = ok (len, buf, answers)
on_recv_loop len (pos zero) (suc n) buf [] = waiting
on_recv_loop len (pos zero) (suc n) buf (ReadAnswer.failed e ∷ answers) =
    on_recv_loop len minus_one (suc (suc n)) buf answers
on_recv_loop len (pos zero) (suc n) buf (got [] ∷ answers) = ok (len - suc n, buf, answers)
on_recv_loop len (pos zero) (suc n) buf (got (c ∷ s) ∷ answers) =
    let part = c ∷ take n s in
    let next =
      λ (buf' : Bytes). on_recv_loop len (pos (length part)) (suc n - length part) buf' answers in
    if ltb read_count_buf (length part)
    then fault out_of_bounds
    else and_then (append_text buf (text_of part)) next
on_recv_loop len (pos (suc p)) (suc n) buf answers = fault out_of_bounds
on_recv_loop len (negsuc p) (suc n) buf answers = fault out_of_bounds

-- `onRecv(fd, buf, len)`.
unfoldable pub on_recv : Bytes → ℕ → List ReadAnswer → Run (ℕ × Bytes × List ReadAnswer)
unfolding on_recv_loop
on_recv buf len answers = on_recv_loop len (pos 0) len buf answers

-- `parse_req` takes, besides the text, whether its `malloc` succeeds.
pub record HttpContext : Type 0 where
  pub buf : Bytes
  pub parse_req : Bool → Bytes → Run (Option HttpRequest)

-- What `callback` leaves: the context, the connection's buffer, the answers, and its result.
pub record Called : Type 0 where
  pub context : HttpContext
  pub buf : Bytes
  pub rest : List ReadAnswer
  pub result : Option HttpRequest

-- `callback(http_ctx, f_recv, fd, buf, len)`: it calls `onRecv` and not its argument. The zeros that
-- `strtok` writes into the context's buffer are not kept, since the next call overwrites it.
unfoldable pub callback : HttpContext → Bool → Bytes → ℕ → List ReadAnswer → Run Called
unfolding on_recv
callback ctx got_memory buf len answers =
    and_then (on_recv buf len answers) (λ (r : ℕ × Bytes × List ReadAnswer).
      let copied = take (bufsize - 1) r.1 in
      and_then (ctx.parse_req got_memory copied) (λ (req : Option HttpRequest).
        ok (record { context = record ctx { buf = copied }; buf = r.1; rest = r.2; result = req })))

pub record HttpTcp : Type 0 where
  pub fd : ℤ
  pub http_contxt : HttpContext
  pub callback : HttpContext → Bool → Bytes → ℕ → List ReadAnswer → Run Called
  pub buf : Option Bytes

-- `alloc_http_context()`, from the results of its two `malloc` calls.
unfoldable pub alloc_http_context : Bool → Option Bytes → Option HttpContext
alloc_http_context false text = none
alloc_http_context true none = none
alloc_http_context true (some s) = some (record { buf = s; parse_req = analasy })

-- `http_tcp_alloc(fd)`, from the results of its `malloc`, of those of the context and of the one for
-- `buf`, which is not checked.
abbrev pub tcp_of : ℤ → Option Bytes → Option HttpContext → Option HttpTcp
tcp_of fd buf none = none
tcp_of fd buf (some ctx) =
    some (record { fd = fd; http_contxt = ctx; callback = callback; buf = buf })

unfoldable pub http_tcp_alloc : ℤ → Bool → Bool → Option Bytes → Option Bytes → Option HttpTcp
unfolding alloc_http_context
http_tcp_alloc fd false context context_buf buf = none
http_tcp_alloc fd true context context_buf buf =
    tcp_of fd buf (alloc_http_context context context_buf)

-- The read handler's call `tcp->callback(tcp->http_contxt, onRecv, tcp->fd, tcp->buf, READ_COUNT)`.
unfoldable pub call_back : HttpTcp → Bool → List ReadAnswer → Run Called
call_back tcp got_memory answers = elim tcp.buf [
  | none ↦ fault null_pointer
  | some b ↦ tcp.callback tcp.http_contxt got_memory b read_count answers
]
