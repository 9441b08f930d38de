-- ===== src/Io/Receive.antt =====
-- What the reading loops of http_module/http_module.h and inc/sock.h return.
use http_callback_serve_vers.Base.{
  ℕ, zero, suc, ◌+◌, ◌-◌, ◌<◌, false, List, [], ◌∷◌, ◌++◌, ◌≡◌, refl, ◌∙◌, ap, arith, Bytes, length,
  take, All, ok, fault, waiting, exit, ℤ, pos, negsuc, minus_one, int_of_size, sub_ℕ, append_assoc,
  append-nil, inl, inr, ◌⊎◌, lt→ltb, ◌==◌, map, take-join, length-append,
}
use http_callback_serve_vers.Io.{
  eintr, eagain, ewouldblock, other, ReadAnswer, got, Received, http_rcv_round, http_rcv_loop,
  http_rcv, readline_loop, readline, read_s_loop, read_s,
}

abbrev pub ZeroOrError : Received → Type 0
ZeroOrError (ok (r, stored, rest)) = (r ≡ pos 0) ⊎ (r ≡ minus_one)
ZeroOrError (fault f) = ⊥
ZeroOrError (exit m) = ⊥
ZeroOrError waiting = Unit

-- `cur_ptr` never moves.
http_rcv_loop-ZeroOrError :
    (nleft : ℤ) (stored : Bytes) (answers : List ReadAnswer)
    → ZeroOrError (http_rcv_loop nleft (pos 0) stored answers)
unfolding http_rcv_loop http_rcv_round
http_rcv_loop-ZeroOrError (negsuc k) stored answers = inl refl
http_rcv_loop-ZeroOrError (pos zero) stored answers = inl refl
http_rcv_loop-ZeroOrError (pos (suc n)) stored [] = tt
http_rcv_loop-ZeroOrError (pos (suc n)) stored (ReadAnswer.failed eintr ∷ answers) =
    http_rcv_loop-ZeroOrError (pos (suc n)) stored answers
http_rcv_loop-ZeroOrError (pos (suc n)) stored (ReadAnswer.failed eagain ∷ answers) = inr refl
http_rcv_loop-ZeroOrError (pos (suc n)) stored (ReadAnswer.failed ewouldblock ∷ answers) = inr refl
http_rcv_loop-ZeroOrError (pos (suc n)) stored (ReadAnswer.failed (other e) ∷ answers) = inr refl
http_rcv_loop-ZeroOrError (pos (suc n)) stored (got s ∷ answers) = inl refl

-- `http_rcv` never returns how many bytes it received: it returns 0 or -1, whatever the kernel answers.
pub http_rcv-ZeroOrError :
    (len : ℕ) (answers : List ReadAnswer) → ZeroOrError (http_rcv len answers)
unfolding http_rcv
http_rcv-ZeroOrError len answers = http_rcv_loop-ZeroOrError (int_of_size len) [] answers

-- One answer for each byte.
abbrev pub singles : Bytes → List ReadAnswer
singles = map (λ c. got (c ∷ []))

readline_loop-line :
    (cap k i : ℕ) (line t : Bytes) (rest : List ReadAnswer)
    → All (λ c. (c == 10) ≡ false) t
    → length t < k
    → length line + length t + 1 < cap
    → readline_loop cap k i line (singles t ++ got (10 ∷ []) ∷ rest)
      ≡ ok (sub_ℕ (i + length t) 1, line ++ t ++ 10 ∷ [], rest)
unfolding readline_loop
readline_loop-line cap zero i line t rest plain fuel space = absurd (omega arith)
readline_loop-line cap (suc k) i line [] rest plain fuel space =
    let e : i + 0 ≡ i = omega arith in
    rw (
      lt→ltb (length line) cap (omega arith),
      e,
      append-nil,
      lt→ltb (length (line ++ 10 ∷ [])) cap (omega (arith, length-append line (10 ∷ []))),
    )
readline_loop-line cap (suc k) i line (c ∷ t) rest plain fuel space =
    let e : i + 1 + length t ≡ i + suc (length t) = omega arith in
    rw (lt→ltb (length line) cap (omega arith), plain.0)
      (readline_loop-line cap k (i + 1) (line ++ c ∷ []) t rest plain.1 (omega arith)
          (omega (arith, length-append line (c ∷ [])))
        ∙ rw (e, append_assoc line (c ∷ []) t))

-- A line of `length t` bytes and its line feed that fits is stored whole, with the line feed, and
-- nothing behind it is read. The value returned is two less than the bytes stored: -1 for an empty
-- line.
pub readline_lem :
    (cap maxlen : ℕ) (t : Bytes) (rest : List ReadAnswer)
    → All (λ c. (c == 10) ≡ false) t
    → length t < maxlen
    → length t + 1 < cap
    → readline cap maxlen (singles t ++ got (10 ∷ []) ∷ rest)
      ≡ ok (sub_ℕ (length t) 1, t ++ 10 ∷ [], rest)
unfolding readline
readline_lem cap maxlen t rest plain fuel space =
    let e : 0 + length t ≡ length t = omega arith in
    readline_loop-line cap maxlen 0 [] t rest plain fuel (omega arith) ∙ rw e

-- The bytes that the kernel hands over before the end of the file or the first failure.
abbrev pub stream : List ReadAnswer → Bytes
stream [] = []
stream (got [] ∷ answers) = []
stream (got (c ∷ s) ∷ answers) = (c ∷ s) ++ stream answers
stream (ReadAnswer.failed e ∷ answers) = []

-- The end of the file or a failure comes.
abbrev pub Closes : List ReadAnswer → Type 0
Closes [] = ⊥
Closes (got [] ∷ answers) = Unit
Closes (got (c ∷ s) ∷ answers) = Closes answers
Closes (ReadAnswer.failed e ∷ answers) = Unit

abbrev pub Stores : Bytes → Received → Type 0
Stores s r = (rest : List ReadAnswer) × (r ≡ ok (pos (length s), s, rest))

read_s_loop-Stores :
    (n : ℕ) (stored : Bytes) (answers : List ReadAnswer)
    → Closes answers
    → Stores (stored ++ take n (stream answers)) (read_s_loop n stored answers)
unfolding read_s_loop
read_s_loop-Stores zero stored answers closes = (answers, rw append-nil)
read_s_loop-Stores (suc n) stored [] closes = absurd closes
read_s_loop-Stores (suc n) stored (ReadAnswer.failed e ∷ answers) closes = (answers, rw append-nil)
read_s_loop-Stores (suc n) stored (got [] ∷ answers) closes = (answers, rw append-nil)
read_s_loop-Stores (suc n) stored (got (c ∷ s) ∷ answers) closes =
    let part = c ∷ take n s in
    let (rest, e) = read_s_loop-Stores (suc n - length part) (stored ++ part) answers closes in
    let joined : stored ++ part ++ take (suc n - length part) (stream answers)
        ≡ stored ++ take (suc n) ((c ∷ s) ++ stream answers) =
      append_assoc stored part _
      ∙ ap (λ t. stored ++ t) (take-join (suc n) (c ∷ s) (stream answers)) in
    (rest, e ∙ ap (λ t. ok (pos (length t), t, rest)) joined)

-- `Read_s` stores the first `sz` bytes that arrive before the end of the file or a failure, in order,
-- and returns their number.
pub read_s-Stores :
    (sz : ℕ) (answers : List ReadAnswer)
    → Closes answers
    → Stores (take sz (stream answers)) (read_s sz answers)
unfolding read_s
read_s-Stores sz answers closes = read_s_loop-Stores sz [] answers closes
