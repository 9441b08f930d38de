-- ===== src/Io/Send.antt =====
-- The writing loops of http_module/http_module.h, utils/rio_r_w.h and inc/sock.h: what reaches the wire.
use http_callback_serve_vers.Base.{
  ℕ, zero, suc, ◌+◌, ◌-◌, ◌≤◌, ◌<◌, Bool, true, false, List, [], ◌∷◌, ◌++◌, ◌≡◌, refl, ◌∙◌, sym, ap,
  arith, min, Bytes, take, drop, All, ok, fault, waiting, exit, pos, minus_one, int_of_size,
  append_assoc, append-nil, Bool-cases, inl, inr, ◌⊎◌, ◌==◌, take-add, drop-drop,
}
use http_callback_serve_vers.Io.{
  Errno, SendAnswer, room, Conn, conn, Sent, write_loop, retry_send, retry_rio, http_send,
  rio_write, write_s, write_s_loop,
}

-- An answer that lets the loop go on: some room, or a failure after which it tries again.
abbrev pub Able : (Errno → Bool) → SendAnswer → Type 0
Able again (room zero) = ⊥
Able again (room (suc k)) = Unit
Able again (SendAnswer.failed e) = again e ≡ true

-- The answers that give room.
abbrev pub grants : List SendAnswer → ℕ
grants [] = 0
grants (room k ∷ answers) = suc (grants answers)
grants (SendAnswer.failed e ∷ answers) = grants answers

-- The run returns `len`, has put the first `len` bytes of `buf` on the wire, and has used at most one
-- answer with room for each of them.
abbrev pub SentAll : (Errno → Bool) → ℕ → ℕ → Bytes → List SendAnswer → Bytes → Sent → Type 0
SentAll again count len buf answers wire r =
    (rest : List SendAnswer) × (r ≡ ok (pos (count + len), conn rest (wire ++ take len buf)))
    × All (Able again) rest
    × (grants answers ≤ grants rest + len)

min_pos : (a b : ℕ) → (min (suc a) (suc b) == 0) ≡ false
min_pos a b = ground arith

write_loop-room :
    (again : Errno → Bool) (n k : ℕ) (buf : Bytes) (count : ℕ) (answers : List SendAnswer)
    (wire : Bytes)
    → SentAll again
        (count + min (suc k) (suc n))
        (suc n - min (suc k) (suc n))
        (drop (min (suc k) (suc n)) buf)
        answers
        (wire ++ take (min (suc k) (suc n)) buf)
        (write_loop again
          (suc n - min (suc k) (suc n))
          (drop (min (suc k) (suc n)) buf)
          (count + min (suc k) (suc n))
          answers
          (wire ++ take (min (suc k) (suc n)) buf))
    → SentAll again count
        (suc n)
        buf
        (room (suc k) ∷ answers)
        wire
        (write_loop again (suc n) buf count (room (suc k) ∷ answers) wire)
unfolding write_loop
write_loop-room again n k buf count answers wire (rest, e, able, budget) =
    let m = min (suc k) (suc n) in
    let total : count + m + (suc n - m) ≡ count + suc n = omega arith in
    let whole : m + (suc n - m) ≡ suc n = omega arith in
    let bytes : wire ++ take m buf ++ take (suc n - m) (drop m buf) ≡ wire ++ take (suc n) buf =
      append_assoc wire (take m buf) (take (suc n - m) (drop m buf))
      ∙ ap (λ t. wire ++ t) (take-add m (suc n - m) buf)
      ∙ ap (λ j. wire ++ take j buf) whole in
    (
      rest,
      rw (min_pos k n) (
          e
          ∙ ap (λ j. ok (pos j, conn rest (wire ++ take m buf ++ take (suc n - m) (drop m buf))))
              total
          ∙ ap (λ w. ok (pos (count + suc n), conn rest w)) bytes),
      able,
      omega arith,
    )

pub write_loop-SentAll :
    (again : Errno → Bool) (n : ℕ) (buf : Bytes) (count : ℕ) (answers : List SendAnswer)
    (wire : Bytes)
    → All (Able again) answers
    → n ≤ grants answers
    → SentAll again count n buf answers wire (write_loop again n buf count answers wire)
unfolding write_loop
write_loop-SentAll again zero buf count answers wire able enough =
    let e : count + 0 ≡ count = omega arith in (answers, rw (e, append-nil), able, omega arith)
write_loop-SentAll again (suc n) buf count [] wire able enough = absurd (omega arith)
write_loop-SentAll again (suc n) buf count (room zero ∷ answers) wire able enough = absurd able.0
write_loop-SentAll again (suc n) buf count (SendAnswer.failed e ∷ answers) wire able enough =
    let (rest, done, able', budget) =
      write_loop-SentAll again (suc n) buf count answers wire able.1 enough in
    (rest, rw able.0 done, able', budget)
write_loop-SentAll again (suc n) buf count (room (suc k) ∷ answers) wire able enough =
    let m = min (suc k) (suc n) in
    write_loop-room again n k buf count answers wire (
      write_loop-SentAll again (suc n - m) (drop m buf) (count + m) answers (wire ++ take m buf)
        able.1 (omega arith))

pub int_of_size-pos : (n : ℕ) → n < 0x8000_0000 → int_of_size n ≡ pos n
int_of_size-pos n h = ground arith

-- `http_send` of fewer than 2^31 bytes returns their number, and all of them have gone out in order,
-- where every answer gives room or is a failure that the loop retries, and at least `len` of them give
-- room. It uses at most one answer with room for each byte.
pub http_send-SentAll :
    (len : ℕ) (buf : Bytes) (c : Conn)
    → len < 0x8000_0000
    → All (Able retry_send) c.answers
    → len ≤ grants c.answers
    → SentAll retry_send 0 len buf c.answers c.wire (http_send len buf c)
unfolding http_send
http_send-SentAll len buf c small able enough =
    rw (int_of_size-pos len small)
      (write_loop-SentAll retry_send len buf 0 c.answers c.wire able enough)

-- Whatever the kernel answers: where the run returns, the bytes that went out are the first `m` of the
-- buffer for some `m` up to `n`, and it returns their number in all, or -1.
abbrev pub SentSome : ℕ → ℕ → Bytes → Bytes → Sent → Type 0
SentSome count n buf wire (ok (r, c)) =
    (m : ℕ) × (m ≤ n) × (c.wire ≡ wire ++ take m buf) × ((r ≡ pos (count + m)) ⊎ (r ≡ minus_one))
SentSome count n buf wire (fault f) = ⊥
SentSome count n buf wire (exit m) = ⊥
SentSome count n buf wire waiting = Unit

SentSome-step :
    (count n m : ℕ) (buf wire : Bytes) (r : Sent)
    → m ≤ n
    → SentSome (count + m) (n - m) (drop m buf) (wire ++ take m buf) r
    → SentSome count n buf wire r
SentSome-step count n m buf wire (ok (r, c)) h (j, small, bytes, result) = (
  m + j,
  omega arith,
  bytes
      ∙ append_assoc wire (take m buf) (take j (drop m buf))
      ∙ ap (λ t. wire ++ t) (take-add m j buf),
  elim result [
    | inl e ↦ inl (let sum : count + m + j ≡ count + (m + j) = omega arith in e ∙ ap pos sum)
    | inr e ↦ inr e
  ],
)
SentSome-step count n m buf wire (fault f) h s = s
SentSome-step count n m buf wire (exit x) h s = s
SentSome-step count n m buf wire waiting h s = tt

pub write_loop-SentSome :
    (again : Errno → Bool) (n : ℕ) (buf : Bytes) (count : ℕ) (answers : List SendAnswer)
    (wire : Bytes)
    → SentSome count n buf wire (write_loop again n buf count answers wire)
unfolding write_loop
write_loop-SentSome again zero buf count answers wire =
    let e : count ≡ count + 0 = omega arith in
    (0, omega arith, sym (append-nil wire), inl (ap pos e))
write_loop-SentSome again (suc n) buf count [] wire = tt
write_loop-SentSome again (suc n) buf count (SendAnswer.failed e ∷ answers) wire =
    elim (Bool-cases (again e)) [
      | inl h ↦ rw h (write_loop-SentSome again (suc n) buf count answers wire)
      | inr h ↦ rw h (0, omega arith, sym (append-nil wire), inr refl)
    ]
write_loop-SentSome again (suc n) buf count (room k ∷ answers) wire =
    let m = min k (suc n) in
    elim (Bool-cases (m == 0)) [
      | inl h ↦ rw h (
        0,
        omega arith,
        sym (append-nil wire),
        inl (let e : count ≡ count + 0 = omega arith in ap pos e),
      )
      | inr h ↦ rw h (
          SentSome-step count (suc n) m buf wire _ (omega arith) (
            write_loop-SentSome again (suc n - m) (drop m buf) (count + m) answers
              (wire ++ take m buf)))
    ]

-- Whatever the kernel answers, `rio_write` of fewer than 2^31 bytes puts a prefix of the buffer on the
-- wire and nothing else, and where it returns, it returns the length of that prefix or -1.
pub rio_write-SentSome :
    (sz : ℕ) (buf : Bytes) (c : Conn)
    → sz < 0x8000_0000
    → SentSome 0 sz buf c.wire (rio_write sz buf c)
unfolding rio_write
rio_write-SentSome sz buf c small =
    rw (int_of_size-pos sz small) (write_loop-SentSome retry_rio sz buf 0 c.answers c.wire)

abbrev pub never : Errno → Bool
never e = false

-- Without failures `Write_s` is the loop of the other writers.
pub write_s_loop-write_loop :
    (whole : Bytes) (n done : ℕ) (answers : List SendAnswer) (wire : Bytes)
    → All (Able never) answers
    → write_s_loop whole n done answers wire
      ≡ write_loop never n (drop done whole) done answers wire
unfolding write_s_loop write_loop
write_s_loop-write_loop whole zero done answers wire able = refl
write_s_loop-write_loop whole (suc n) done [] wire able = refl
write_s_loop-write_loop whole (suc n) done (SendAnswer.failed e ∷ answers) wire able = cc (able.0)
write_s_loop-write_loop whole (suc n) done (room zero ∷ answers) wire able = absurd able.0
write_s_loop-write_loop whole (suc n) done (room (suc k) ∷ answers) wire able =
    let m = min (suc k) (suc n) in
    rw (min_pos k n, drop-drop done m whole)
      (write_s_loop-write_loop whole (suc n - m) (done + m) answers
        (wire ++ take m (drop done whole)) able.1)

-- A failure behind the first `q + 1` bytes makes `Write_s` send byte `q` a second time, and nothing
-- tells the caller: with room for all of the rest it returns `sz` as without the failure.
pub write_s-resends :
    (sz q : ℕ) (e : Errno) (buf wire : Bytes) (answers : List SendAnswer)
    → suc q < sz
    → All (Able never) answers
    → sz - q ≤ grants answers
    → (rest : List SendAnswer) × (write_s sz buf
          (conn (room (suc q) ∷ SendAnswer.failed e ∷ answers) wire)
        ≡ ok (pos sz, conn rest (wire ++ take (suc q) buf ++ take (sz - q) (drop q buf))))
unfolding write_s write_s_loop
write_s-resends zero q e buf wire answers h able enough = absurd (omega arith)
write_s-resends (suc n) q e buf wire answers h able enough =
    let wire' = wire ++ take (suc q) buf in
    let (rest, sent, more, budget) =
      write_loop-SentAll never (suc n - q) (drop q buf) q answers wire' able enough in
    let m : min (suc q) (suc n) ≡ suc q = omega arith in
    let at : 0 + suc q ≡ suc q = omega arith in
    let left : suc n - suc q ≡ suc (n - suc q) = omega arith in
    let back : suc (suc (n - suc q)) ≡ suc n - q = omega arith in
    let total : q + (suc n - q) ≡ suc n = omega arith in
    let some_room : (suc q == 0) ≡ false = ground arith in
    (
      rest,
      rw (m, some_room, at, left)
          (ap (λ j. write_s_loop buf j q answers wire') back
            ∙ write_s_loop-write_loop buf (suc n - q) q answers wire' able
            ∙ sent
            ∙ ap (λ j. ok (pos j, conn rest (wire' ++ take (suc n - q) (drop q buf)))) total),
    )
