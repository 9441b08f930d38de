-- ===== src/CString/Token.antt =====
-- `strtok` at a string that is put together from a token, a delimiter and a rest.
use http_callback_serve_vers.Base.{
  ℕ, ◌+◌, ◌≤◌, ◌<◌, true, false, [], ◌∷◌, ◌++◌, ◌≡◌, refl, arith, Option, none, some, Bytes, length,
  All, Bool-cases, inl, inr, ◌⊎◌, ap,
}
use http_callback_serve_vers.CString.{has_byte, skip_set, token, behind, strtok}

-- No byte of the string is in the set.
abbrev pub Free : Bytes → Bytes → Type 0
Free set = All (λ c. has_byte c set ≡ false)

pub token-append :
    (set t r : Bytes) (d : ℕ) → Free set t → has_byte d set ≡ true → token set (t ++ d ∷ r) ≡ t
unfolding token
token-append set [] r d f h = rw h
token-append set (c ∷ t) r d f h = rw f.0 (ap (◌∷◌ c) (token-append set t r d f.1 h))

pub behind-append :
    (set t r : Bytes) (d : ℕ) → Free set t → has_byte d set ≡ true → behind set (t ++ d ∷ r) ≡ r
unfolding behind
behind-append set [] r d f h = rw h
behind-append set (c ∷ t) r d f h = rw f.0 (behind-append set t r d f.1 h)

-- A token of at least one byte, with no delimiter in front and one behind.
pub strtok-append :
    (set : Bytes) (c : ℕ) (t r : Bytes) (d : ℕ)
    → has_byte c set ≡ false
    → Free set t
    → has_byte d set ≡ true
    → strtok set (c ∷ (t ++ d ∷ r)) ≡ (some (c ∷ t), r)
unfolding strtok
strtok-append set c t r d hc f h =
    rw (hc, hc, token-append set t r d f h, behind-append set t r d f h)

pub token-Free : (set t : Bytes) → Free set t → token set t ≡ t
unfolding token
token-Free set [] f = refl
token-Free set (c ∷ t) f = rw f.0 (ap (◌∷◌ c) (token-Free set t f.1))

pub behind-Free : (set t : Bytes) → Free set t → behind set t ≡ []
unfolding behind
behind-Free set [] f = refl
behind-Free set (c ∷ t) f = rw f.0 (behind-Free set t f.1)

-- A last token, with nothing behind it.
pub strtok-last :
    (set : Bytes) (c : ℕ) (t : Bytes)
    → has_byte c set ≡ false
    → Free set t
    → strtok set (c ∷ t) ≡ (some (c ∷ t), [])
unfolding strtok
strtok-last set c t hc f = rw (hc, hc, token-Free set t f, behind-Free set t f)

-- A delimiter in front is skipped.
pub strtok-skip :
    (set : Bytes) (d : ℕ) (r : Bytes) → has_byte d set ≡ true → strtok set (d ∷ r) ≡ strtok set r
unfolding strtok
strtok-skip set d r h = rw h

-- What is left behind the skipped delimiters begins with none of them, and is no longer.
skip_set-cases :
    (set s : Bytes)
    → (skip_set set s ≡ [])
      ⊎ ((c : ℕ) × (t : Bytes) × (skip_set set s ≡ c ∷ t)
          × (has_byte c set ≡ false)
          × (length t < length s))
unfolding skip_set
skip_set-cases set [] = inl refl
skip_set-cases set (c ∷ s) = elim (Bool-cases (has_byte c set)) [
  | inl hit ↦ rw hit (elim (skip_set-cases set s) [
    | inl e ↦ inl e
    | inr (d, t, e, f, h) ↦ inr (d, t, e, f, omega arith)
  ])
  | inr miss ↦ rw miss (inr (c, s, refl, miss, omega arith))
]

token-behind-length : (set s : Bytes) → length (token set s) + length (behind set s) ≤ length s
unfolding token behind
token-behind-length set [] = omega arith
token-behind-length set (c ∷ s) = ground (arith, token-behind-length set s)

-- A token has a byte, and the token and the rest are not longer than the string together.
abbrev pub Cut : ℕ → Option Bytes × Bytes → Type 0
Cut n (none, r) = length r ≤ n
Cut n (some p, r) = (0 < length p) × (length p + length r ≤ n)

pub strtok-Cut : (set s : Bytes) → Cut (length s) (strtok set s)
unfolding strtok
strtok-Cut set s = elim (skip_set-cases set s) [
  | inl e ↦ rw e (omega arith)
  | inr (c, t, e, f, h) ↦ rw e (rw f (omega arith, omega (arith, token-behind-length set t)))
]
