-- ===== src/Common/Skip.antt =====
-- `skip` of inc/common.h, which is meant to move behind a separator. Its test calls `strcpy` and not
-- `strcmp`: each round writes the separator over the text.
use http_callback_serve_vers.Base.{
  Post, Post-map, OnlyBounds, lt→ltb, ℕ, zero, suc, ◌<◌, [], ◌∷◌, ◌++◌, if◌then◌else◌, ltb, ltb→lt,
  Bool-cases, Bytes, length, drop, Run, ok, fault, out_of_bounds, waiting, ◌≡◌, refl, arith, inl,
  inr, length-append, length-drop, and_then,
}

-- `strcpy` of the string `op` to the start of the memory `mem`.
abbrev pub strcpy : Bytes → Bytes → Run Bytes
strcpy op mem =
    if ltb (length op) (length mem)
    then ok (op ++ 0 ∷ drop (suc (length op)) mem)
    else fault out_of_bounds

-- What lies behind the first byte, and the loop's `start++`.
abbrev pub behind_first : Run Bytes → Run Bytes
behind_first (ok (c ∷ mem)) = ok mem
behind_first (ok []) = fault out_of_bounds
behind_first r = r

-- The `while` loop on the memory from `start` on, up to the end of the array. The fuel is one more than
-- its bytes.
unfoldable pub skip_loop : ℕ → Bytes → Bytes → Run Bytes
skip_loop zero op mem = waiting
skip_loop (suc k) op [] = fault out_of_bounds
skip_loop (suc k) op (zero ∷ mem) = ok (zero ∷ mem)
skip_loop (suc k) op (suc c ∷ mem) =
    and_then (behind_first (strcpy op (suc c ∷ mem))) (λ (rest : Bytes). skip_loop k op rest)

-- `skip(start, op)`: the memory from the pointer on that it returns. Behind the loop `*start` is zero.
unfoldable pub skip : Bytes → Bytes → Run Bytes
unfolding skip_loop
skip mem op = skip_loop (suc (length mem)) op mem

skip_loop-overflow :
    (k a b : ℕ) (op mem : Bytes) (x : ℕ)
    → length mem < k
    → skip_loop (suc k) (suc a ∷ suc b ∷ op) (suc x ∷ mem) ≡ fault out_of_bounds
unfolding skip_loop
skip_loop-overflow zero a b op mem x h = absurd (omega arith)
skip_loop-overflow (suc k) a b op mem x h =
    let sep = suc a ∷ suc b ∷ op in
    let left = op ++ 0 ∷ drop (suc (suc (length op))) mem in
    let size = length-append op (0 ∷ drop (suc (suc (length op))) mem) in
    let size' = length-drop (suc (suc (length op))) mem in
    elim (Bool-cases (ltb (length sep) (suc (length mem)))) [
      | inr long ↦ rw long refl
      | inl fits ↦
          let room = ltb→lt (length sep) (suc (length mem)) fits in
          rw fits (skip_loop-overflow k a b op left b (omega arith))
    ]

-- With a separator of two bytes or more and a text that is not empty, `skip` writes behind the end of the
-- array, however large it is: each round leaves the second byte of the separator to go on from.
pub skip-overflow :
    (a b x : ℕ) (op mem : Bytes) → skip (suc x ∷ mem) (suc a ∷ suc b ∷ op) ≡ fault out_of_bounds
unfolding skip
skip-overflow a b x op mem = skip_loop-overflow (suc (length mem)) a b op mem x (omega arith)

-- The memory behind the pointer starts with a terminator.
abbrev pub IsEmpty : Bytes → Type 0
IsEmpty mem = (rest : Bytes) × (mem ≡ 0 ∷ rest)

skip_loop-IsEmpty :
    (k : ℕ) (op mem : Bytes) → length mem < k → Post OnlyBounds IsEmpty (skip_loop k op mem)
unfolding skip_loop
skip_loop-IsEmpty zero op mem h = absurd (omega arith)
skip_loop-IsEmpty (suc k) op [] h = tt
skip_loop-IsEmpty (suc k) op (zero ∷ mem) h = (mem, refl)
skip_loop-IsEmpty (suc k) [] (suc c ∷ mem) h =
    rw (lt→ltb 0 (suc (length mem)) (omega arith)) (skip_loop-IsEmpty k [] mem (omega arith))
skip_loop-IsEmpty (suc k) (x ∷ op) (suc c ∷ mem) h =
    let left = op ++ 0 ∷ drop (suc (length op)) mem in
    let size = length-append op (0 ∷ drop (suc (length op)) mem) in
    let size' = length-drop (suc (length op)) mem in
    elim (Bool-cases (ltb (suc (length op)) (suc (length mem)))) [
      | inl fits ↦
          let room = ltb→lt (suc (length op)) (suc (length mem)) fits in
          rw fits (skip_loop-IsEmpty k (x ∷ op) left (omega arith))
      | inr long ↦ rw long tt
    ]

-- On every text and every separator `skip` returns or writes outside the array: its fuel suffices. Where it
-- returns, what it returns is the empty string: it never finds the separator.
pub skip-IsEmpty : (op mem : Bytes) → Post OnlyBounds IsEmpty (skip mem op)
unfolding skip
skip-IsEmpty op mem = skip_loop-IsEmpty (suc (length mem)) op mem (omega arith)

-- On every text and every separator `skip` returns or writes outside the array.
pub skip-Ends : (op mem : Bytes) → Post OnlyBounds (λ rest. Unit) (skip mem op)
skip-Ends op mem =
    Post-map OnlyBounds IsEmpty (λ rest. Unit) (skip mem op) (λ rest h. tt) (skip-IsEmpty op mem)
