-- ===== src/Tcp/Recv.antt =====
-- `onRecv` of inc/http_types.h: the first answer of the kernel decides.
use http_callback_serve_vers.Base.{
  ℕ, zero, suc, ◌+◌, ◌-◌, ◌≤◌, ◌<◌, List, [], ◌∷◌, ◌++◌, ◌≡◌, refl, ap, arith, Bytes, length, take,
  ok, fault, out_of_bounds, lt→ltb, le→ltb-false, All, take-length, ltb, Bool-cases, inl, inr, ◌⊎◌,
}
use http_callback_serve_vers.Io.{Errno, ReadAnswer, got}
use http_callback_serve_vers.Request.{bufsize}
use http_callback_serve_vers.Tcp.{read_count_buf, text_of, append_text, on_recv}

pub length-text_of : (s : Bytes) → length (text_of s) ≤ length s
unfolding text_of
length-text_of [] = omega arith
length-text_of (zero ∷ s) = omega arith
length-text_of (suc c ∷ s) = omega (arith, length-text_of s)

-- A text without a zero byte.
abbrev pub IsText : Bytes → Type 0
IsText = All (λ c. 0 < c)

pub text_of_text : (s : Bytes) → IsText s → text_of s ≡ s
unfolding text_of
text_of_text [] h = refl
text_of_text (zero ∷ s) h = absurd (omega arith)
text_of_text (suc c ∷ s) h = ap (◌∷◌ (suc c)) (text_of_text s h.1)

append_text-ok :
    (buf text : Bytes)
    → length text < read_count_buf
    → length buf + length text < bufsize
    → append_text buf text ≡ ok (buf ++ text)
append_text-ok buf text h k = rw (lt→ltb _ _ h, lt→ltb _ _ k)

append_text-cases :
    (buf text : Bytes)
    → (append_text buf text ≡ fault out_of_bounds) ⊎ (append_text buf text ≡ ok (buf ++ text))
append_text-cases buf text = elim (Bool-cases (ltb (length text) read_count_buf)) [
  | inr e ↦ inl (rw e)
  | inl e ↦ rw e (elim (Bool-cases (ltb (length buf + length text) bufsize)) [
    | inl f ↦ inr (rw f)
    | inr f ↦ inl (rw f)
  ])
]

on_recv_short_suc :
    (buf : Bytes) (n : ℕ) (answers : List ReadAnswer) (c : ℕ) (s : Bytes)
    → length s < n
    → on_recv buf (suc n) (got (c ∷ s) ∷ answers) ≡ fault out_of_bounds
unfolding on_recv
on_recv_short_suc buf n answers c s h =
    let whole : take n s ≡ s = take-length s n (omega arith) in
    let left : suc n - suc (length s) ≡ suc (n - suc (length s)) = omega arith in
    rw whole (elim (Bool-cases (ltb read_count_buf (suc (length s)))) [
      | inl e ↦ rw e
      | inr e ↦
          rw e
            (elim (append_text-cases buf (text_of (c ∷ s))) [ inl f ↦ rw f | inr f ↦ rw (f, left) ])
    ])

module _ (buf : Bytes) (len : ℕ) (answers : List ReadAnswer) where
  -- When the first `read` gives as many bytes as were asked for, fewer than `read_count_buf`, and
  -- they fit behind the string in `buf`, then `onRecv` returns their number and has appended their
  -- text up to the first zero byte.
  pub on_recv_full :
      (c : ℕ) (s : Bytes)
      → len ≡ suc (length s)
      → len < read_count_buf
      → length buf + len < bufsize
      → on_recv buf len (got (c ∷ s) ∷ answers) ≡ ok (len, buf ++ text_of (c ∷ s), answers)
  unfolding on_recv
  on_recv_full c s e h k =
      let whole : take (length s) s ≡ s = take-length s (length s) (omega arith) in
      let none_left : suc (length s) - suc (length s) ≡ 0 = omega arith in
      let short = length-text_of (c ∷ s) in
      let room = append_text-ok buf (text_of (c ∷ s)) (omega arith) (omega arith) in
      rw (e, whole, le→ltb-false read_count_buf (suc (length s)) (omega arith), room, none_left)

  -- When the first `read` gives some bytes but fewer than were asked for, `onRecv` writes outside its
  -- array `cur_ptr`, whatever comes next.
  pub on_recv_short :
      (c : ℕ) (s : Bytes)
      → suc (length s) < len
      → on_recv buf len (got (c ∷ s) ∷ answers) ≡ fault out_of_bounds
  on_recv_short c s h =
      let e : len ≡ suc (len - 1) = omega arith in
      rw e (on_recv_short_suc buf (len - 1) answers c s (omega arith))

  -- When the first `read` fails, `onRecv` writes outside its array too: it reports no error.
  pub on_recv_failed :
      (e : Errno) → 0 < len → on_recv buf len (ReadAnswer.failed e ∷ answers) ≡ fault out_of_bounds
  unfolding on_recv
  on_recv_failed e h = ground arith
