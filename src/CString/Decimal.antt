-- ===== src/CString/Decimal.antt =====
-- A number that is printed in decimal is read back.
use http_callback_serve_vers.Base.{
  ℕ, zero, suc, ◌+◌, ◌*◌, ◌-◌, ◌/◌, ◌%◌, ◌<◌, Bool, true, false, ◌&&◌, [], ◌∷◌, ◌++◌, ◌≡◌, refl,
  ◌∙◌, ap, arith, Bytes, ltb, leb, if◌then◌else◌, Bool-cases, inl, inr, ltb→lt,
}
use http_callback_serve_vers.CString.{decimal_onto, decimal}

abbrev pub is_digit : ℕ → Bool
is_digit c = leb 48 c && leb c 57

-- The number in front of a text, as `strtol` reads it, and what follows it.
abbrev pub read_decimal : ℕ → Bytes → ℕ × Bytes
read_decimal n [] = (n, [])
read_decimal n (c ∷ s) =
    let more = read_decimal (n * 10 + (c - 48)) s in if is_digit c then more else (n, c ∷ s)

digit-step :
    (n m : ℕ) (s : Bytes) → m < 10 → read_decimal n ((48 + m) ∷ s) ≡ read_decimal (n * 10 + m) s
digit-step n m s h =
    let digit : is_digit (48 + m) ≡ true = ground arith in
    let place : n * 10 + (48 + m - 48) ≡ n * 10 + m = omega arith in
    rw digit (ap (λ j. read_decimal j s) place)

read_decimal-decimal_onto :
    (k n : ℕ) (s : Bytes) → n < k → read_decimal 0 (decimal_onto k n s) ≡ read_decimal n s
unfolding decimal_onto
read_decimal-decimal_onto zero n s h = absurd (omega arith)
read_decimal-decimal_onto (suc k) n s h = elim (Bool-cases (ltb n 10)) [
  | inl f ↦
      let whole : 0 * 10 + n % 10 ≡ n = ground (arith, ltb→lt n 10 f) in
      rw f (digit-step 0 (n % 10) s (omega arith) ∙ ap (λ j. read_decimal j s) whole)
  | inr f ↦
      let whole : n / 10 * 10 + n % 10 ≡ n = omega arith in
      let fewer : n / 10 < k = ground arith in
      rw f (
        read_decimal-decimal_onto k (n / 10) ((48 + n % 10) ∷ s) fewer
        ∙ digit-step (n / 10) (n % 10) s (omega arith)
        ∙ ap (λ j. read_decimal j s) whole)
]

decimal_onto-append : (k n : ℕ) (s t : Bytes) → decimal_onto k n s ++ t ≡ decimal_onto k n (s ++ t)
unfolding decimal_onto
decimal_onto-append zero n s t = refl
decimal_onto-append (suc k) n s t =
    ground (arith, decimal_onto-append k (n / 10) ((48 + n % 10) ∷ s) t)

-- A number in front of a byte that is no digit.
pub read_decimal-decimal :
    (n c : ℕ) (s : Bytes) → is_digit c ≡ false → read_decimal 0 (decimal n ++ c ∷ s) ≡ (n, c ∷ s)
unfolding decimal
read_decimal-decimal n c s h =
    ap (read_decimal 0) (decimal_onto-append (suc n) n [] (c ∷ s))
    ∙ read_decimal-decimal_onto (suc n) n (c ∷ s) (omega arith)
    ∙ rw h refl
