-- ===== src/Io.antt =====
-- The loops around `read`, `recv`, `write` and `send`: `http_rcv`, `http_send` and `readline` of
-- http_module/http_module.h, `rio_t` of utils/rio_r_w.h, `Read_s` and `Write_s` of inc/sock.h.
-- The kernel is the list of answers that it will give, one to a call. Each loop recurs on that list:
-- where it runs out, the call is still waiting. A pointer into a buffer is the bytes behind it.
pub mod Send
pub mod Receive
pub mod RioRead
use http_callback_serve_vers.Base.{
  ℕ, zero, suc, ◌+◌, ◌-◌, Bool, true, false, ◌||◌, List, [], ◌∷◌, ◌++◌, Option, none, some, ltb,
  not, is_neg, eq_ℤ, ◌+ℤ◌, ◌-ℤ◌, ◌==◌, if◌then◌else◌, min, Bytes, length, take, drop, Run, ok,
  fault, waiting, and_then, out_of_bounds, ℤ, pos, negsuc, minus_one, sub_ℕ, int_of_size,
}

pub data Errno : Type 0 where
  eintr eagain ewouldblock : Errno
  other : ℕ → Errno

-- `room k`: the kernel takes up to `k` bytes of those offered.
pub data SendAnswer : Type 0 where
  room : ℕ → SendAnswer
  failed : Errno → SendAnswer

-- `got s`: the kernel hands over as much of `s` as fits; nothing at the end of the file.
pub data ReadAnswer : Type 0 where
  got : Bytes → ReadAnswer
  failed : Errno → ReadAnswer

-- The writing side of a descriptor: the answers to come, and the bytes that went out.
pub record Conn : Type 0 where
  pub answers : List SendAnswer
  pub wire : Bytes

abbrev pub conn : List SendAnswer → Bytes → Conn
conn a w = record { answers = a; wire = w }

-- The result of a writing call, and the descriptor behind it.
abbrev pub Sent : Type 0
Sent = Run (ℤ × Conn)

-- What a reading call returns, the bytes that it stored, and the answers that are left.
abbrev pub Received : Type 0
Received = Run (ℤ × Bytes × List ReadAnswer)

-- `while (nleft > 0)` of the writing loops: the failures after which they go on, `nleft`, the bytes
-- from `cur_ptr` on, the bytes written so far, the answers, and what went out.
unfoldable pub write_loop : (Errno → Bool) → ℕ → Bytes → ℕ → List SendAnswer → Bytes → Sent
write_loop again zero rest count answers wire = ok (pos count, conn answers wire)
write_loop again (suc n) rest count [] wire = waiting
write_loop again (suc n) rest count (failed e ∷ answers) wire =
    let next = write_loop again (suc n) rest count answers wire in
    if again e then next else ok (minus_one, conn answers wire)
write_loop again (suc n) rest count (room k ∷ answers) wire =
    let m = min k (suc n) in
    let next =
      write_loop again (suc n - m) (drop m rest) (count + m) answers (wire ++ take m rest) in
    if m == 0 then ok (pos count, conn answers wire) else next

-- `int nleft = len`: a length that reads as a negative number makes no round.
abbrev pub write_all : (Errno → Bool) → ℤ → Bytes → Conn → Sent
write_all again (pos n) buf c = write_loop again n buf 0 c.answers c.wire
write_all again (negsuc n) buf c = ok (pos 0, c)

abbrev pub retry_send : Errno → Bool
retry_send eintr = true
retry_send eagain = true
retry_send ewouldblock = true
retry_send (other e) = false

abbrev pub retry_rio : Errno → Bool
retry_rio eintr = true
retry_rio _ = false

-- `http_send(fd, buf, len)`.
unfoldable pub http_send : ℕ → Bytes → Conn → Sent
unfolding write_loop
http_send len = write_all retry_send (int_of_size len)

-- `rio_write(fd, usrbuf, sz)`. `sz - nleft`, read as an `int`, is the number of bytes written.
unfoldable pub rio_write : ℕ → Bytes → Conn → Sent
unfolding write_loop
rio_write sz = write_all retry_rio (int_of_size sz)

-- `send(fd, buf, len, 0)`, which is called once and whose result is dropped.
unfoldable pub send_once : List SendAnswer → ℕ → Bytes → Bytes → Sent
send_once [] len buf wire = waiting
send_once (failed e ∷ answers) len buf wire = ok (minus_one, conn answers wire)
send_once (room k ∷ answers) len buf wire =
    ok (pos (min k len), conn answers (wire ++ take (min k len) buf))

-- What `recv` returns when it is offered room for `n` bytes, and what it puts there.
abbrev pub recv : ℕ → ReadAnswer → ℤ × Bytes
recv n (failed e) = (minus_one, [])
recv n (got s) = (pos (length (take n s)), take n s)

abbrev pub is_eintr : ReadAnswer → Bool
is_eintr (failed eintr) = true
is_eintr answer = false

-- `nread=recv(fd,cur_ptr,nleft,0)<0`. The comparison binds tighter than the assignment: `nread` is its
-- truth value.
abbrev pub below_zero : ℤ → ℤ
below_zero n = if is_neg n then pos 1 else pos 0

-- What a buffer holds when bytes are written at an offset of it.
abbrev pub write_at : ℤ → Bytes → Bytes → Bytes
write_at (pos m) stored s = take m stored ++ s ++ drop (m + length s) stored
write_at (negsuc m) stored s = stored

-- What a round of `http_rcv` comes to: a result, with the buffer then, or the next round.
pub data Round : Type 0 where
  returns : ℤ → Bytes → Round
  goes_on : ℤ → ℤ → Bytes → Round

-- A round of the loop with room for `n` bytes, by whether the call was interrupted, what `recv` put at
-- `cur_ptr`, and `nread`. The difference `cur_ptr-buf` is `moved`, and `stored` is what the buffer has
-- got.
unfoldable pub http_rcv_round : Bool → ℕ → ℤ → Bytes → Bytes → ℤ → Round
http_rcv_round interrupted n moved stored s nread =
    if not (eq_ℤ nread (pos 0))
    then (if interrupted then goes_on (pos n) moved stored else returns minus_one stored)
    else if eq_ℤ nread (pos 0)
    then returns moved (write_at moved stored s)
    else goes_on (pos n -ℤ nread) (moved +ℤ nread) (write_at moved stored s)

-- The loop of `http_rcv`, with `nleft` first.
unfoldable pub http_rcv_loop : ℤ → ℤ → Bytes → List ReadAnswer → Received
unfolding http_rcv_round
http_rcv_loop (negsuc k) moved stored answers = ok (moved, stored, answers)
http_rcv_loop (pos zero) moved stored answers = ok (moved, stored, answers)
http_rcv_loop (pos (suc n)) moved stored [] = waiting
http_rcv_loop (pos (suc n)) moved stored (answer ∷ answers) =
    let (result, s) = recv (suc n) answer in
    elim (http_rcv_round (is_eintr answer) (suc n) moved stored s (below_zero result)) [
      | returns r stored' ↦ ok (r, stored', answers)
      | goes_on nleft moved' stored' ↦ http_rcv_loop nleft moved' stored' answers
    ]

-- `http_rcv(fd, buf, len)`.
unfoldable pub http_rcv : ℕ → List ReadAnswer → Received
unfolding http_rcv_loop
http_rcv len = http_rcv_loop (int_of_size len) (pos 0) []

-- `*cur_ptr = '\0'; return (i-1)` for a buffer of `cap` bytes.
abbrev pub close_line : ℕ → ℕ → Bytes → List ReadAnswer → Received
close_line cap i line answers =
    if ltb (length line) cap then ok (sub_ℕ i 1, line, answers) else fault out_of_bounds

-- The `for` loop of `readline`: the rounds left, `i`, and the bytes stored.
unfoldable pub readline_loop : ℕ → ℕ → ℕ → Bytes → List ReadAnswer → Received
readline_loop cap zero i line answers = close_line cap i line answers
readline_loop cap (suc k) i line [] = waiting
readline_loop cap (suc k) i line (got [] ∷ answers) = close_line cap i line answers
readline_loop cap (suc k) i line (got (c ∷ _) ∷ answers) =
    let next = readline_loop cap k (i + 1) (line ++ c ∷ []) answers in
    if ltb (length line) cap
    then if c == 10 then close_line cap i (line ++ c ∷ []) answers else next
    else fault out_of_bounds
readline_loop cap (suc k) i line (failed e ∷ answers) =
    let next = readline_loop cap k (i + 1) line answers in
    if retry_send e then next else ok (minus_one, line, answers)

-- `readline(fd, buf, maxlen)` into a buffer of `cap` bytes.
unfoldable pub readline : ℕ → ℕ → List ReadAnswer → Received
unfolding readline_loop
readline cap maxlen = readline_loop cap maxlen 0 []

-- `Read_s(fd, buf, sz)`: a failure ends the loop as the end of the file does.
unfoldable pub read_s_loop : ℕ → Bytes → List ReadAnswer → Received
read_s_loop zero stored answers = ok (pos (length stored), stored, answers)
read_s_loop (suc n) stored [] = waiting
read_s_loop (suc n) stored (failed e ∷ answers) = ok (pos (length stored), stored, answers)
read_s_loop (suc n) stored (got [] ∷ answers) = ok (pos (length stored), stored, answers)
read_s_loop (suc n) stored (got (c ∷ s) ∷ answers) =
    let part = c ∷ take n s in read_s_loop (suc n - length part) (stored ++ part) answers

unfoldable pub read_s : ℕ → List ReadAnswer → Received
unfolding read_s_loop
read_s sz = read_s_loop sz []

-- The loop of `Write_s`, whose `nwrite` is unsigned: a failure is 2^64 - 1 bytes written, so `nleft`
-- grows by one and `buf` moves back by one. `done` bytes lie before `buf`; behind the start of the
-- object the pointer is invalid.
unfoldable pub write_s_loop : Bytes → ℕ → ℕ → List SendAnswer → Bytes → Sent
write_s_loop whole zero done answers wire = ok (pos done, conn answers wire)
write_s_loop whole (suc n) done [] wire = waiting
write_s_loop whole (suc n) zero (failed e ∷ answers) wire = fault out_of_bounds
write_s_loop whole (suc n) (suc d) (failed e ∷ answers) wire =
    write_s_loop whole (suc (suc n)) d answers wire
write_s_loop whole (suc n) done (room k ∷ answers) wire =
    let m = min k (suc n) in
    let next =
      write_s_loop whole (suc n - m) (done + m) answers (wire ++ take m (drop done whole)) in
    if m == 0 then ok (pos done, conn answers wire) else next

-- `Write_s(fd, buf, sz)`.
unfoldable pub write_s : ℕ → Bytes → Conn → Sent
unfolding write_s_loop
write_s sz buf c = write_s_loop buf sz 0 c.answers c.wire

-- `rio_t`, less the descriptor: `nread`, `ptr - rio_buffer` and the bytes of `rio_buffer` that the last
-- `read` stored.
pub record Rio : Type 0 where
  pub nread : ℤ
  pub ptr : ℕ
  pub rio_buffer : Bytes

pub rio_readinit : Rio
rio_readinit = record { nread = pos 0; ptr = 0; rio_buffer = [] }

abbrev pub RioRun : Type 0
RioRun = Run (ℤ × Bytes × Rio × List ReadAnswer)

-- The copy at the end of `rio_read`, from the start of `rio_buffer`. With a negative count the
-- `memcpy` is asked for nearly 2^64 bytes.
abbrev pub rio_copy : ℕ → Rio → List ReadAnswer → ℤ → RioRun
rio_copy sz r answers (negsuc n) = fault out_of_bounds
rio_copy sz r answers (pos n) =
    let cnt = min n sz in
    ok (
      pos cnt,
      take cnt r.rio_buffer,
      record { nread = pos (n - cnt); ptr = r.ptr + cnt; rio_buffer = r.rio_buffer },
      answers,
    )

-- What the `while` loop makes of one answer: after an interruption it breaks with `nread` at -1.
abbrev pub rio_fill : ℕ → Rio → List ReadAnswer → RioRun
rio_fill sz r [] = waiting
rio_fill sz r (failed eintr ∷ answers) =
    rio_copy sz (record r { nread = minus_one }) answers minus_one
rio_fill sz r (failed _ ∷ answers) = ok (minus_one, [], record r { nread = minus_one }, answers)
rio_fill sz r (got [] ∷ answers) = ok (pos 0, [], record r { nread = pos 0 }, answers)
rio_fill sz r (got (c ∷ s) ∷ answers) =
    let part = take 4096 (c ∷ s) in
    rio_copy sz (record { nread = pos (length part); ptr = 0; rio_buffer = part }) answers
      (pos (length part))

abbrev pub rio_from : ℕ → Rio → List ReadAnswer → ℤ → RioRun
rio_from sz r answers (pos (suc n)) = rio_copy sz r answers (pos (suc n))
rio_from sz r answers _ = rio_fill sz r answers

-- `rio_read(rp, usrbuf, sz)` for `sz` below 2^31.
unfoldable pub rio_read : ℕ → Rio → List ReadAnswer → RioRun
rio_read sz r answers = rio_from sz r answers r.nread
