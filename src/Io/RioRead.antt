-- ===== src/Io/RioRead.antt =====
-- `rio_read` of utils/rio_r_w.h: the first call, and those behind it.
use http_callback_serve_vers.Base.{
  ℕ, zero, suc, ℤ, Run, and_then, refl, [], ◌++◌, ◌+◌, ◌-◌, ◌*◌, ◌≤◌, ◌<◌, List, ◌∷◌, ◌≡◌, arith,
  min, Bytes, length, take, ok, pos, take-length,
}
use http_callback_serve_vers.Io.{ReadAnswer, got, Rio, rio_readinit, rio_read}

-- The state behind a first call that asked for `sz` of the bytes `s`.
abbrev pub rio_after : Bytes → ℕ → Rio
rio_after s sz = record { nread = pos (length s - sz); ptr = sz; rio_buffer = s }

module _ (c : ℕ) (s : Bytes) (sz : ℕ) (answers : List ReadAnswer) where
  -- The first call on a fresh `rio_t` hands over the first `sz` bytes of what `read` stored.
  pub rio_read_first :
      length (c ∷ s) ≤ 4096
      → sz ≤ length (c ∷ s)
      → rio_read sz rio_readinit (got (c ∷ s) ∷ answers)
        ≡ ok (pos sz, take sz (c ∷ s), rio_after (c ∷ s) sz, answers)
  unfolding rio_read rio_readinit
  rio_read_first fits h =
      let e : min (length (c ∷ s)) sz ≡ sz = omega arith in
      let whole : 0 + sz ≡ sz = omega arith in rw (take-length s 4095 (omega arith), e, whole)

  -- Behind a first call of `rio_read` for `sz` bytes, on a buffer with twice as many, a second call for
  -- `sz` bytes copies from the start of the buffer again: it hands over the same bytes and not those
  -- that follow them, and counts them off as if it had gone on.
  pub rio_read_again :
      2 * sz ≤ length (c ∷ s)
      → 0 < sz
      → rio_read sz (rio_after (c ∷ s) sz) answers
        ≡ ok (
          pos sz,
          take sz (c ∷ s),
          record { nread = pos (length (c ∷ s) - sz - sz); ptr = sz + sz; rio_buffer = c ∷ s },
          answers,
        )
  unfolding rio_read
  rio_read_again h k =
      let left : length (c ∷ s) - sz ≡ suc (length s - sz) = omega arith in
      let e : min (suc (length s - sz)) sz ≡ sz = omega arith in rw (left, e)

-- `k` calls in a row for `sz` bytes each, and all bytes that they hand over.
unfoldable pub rio_reads : ℕ → ℕ → Rio → List ReadAnswer → Run (Bytes × Rio × List ReadAnswer)
rio_reads zero sz r answers = ok ([], r, answers)
rio_reads (suc k) sz r answers =
    and_then (rio_read sz r answers) (λ (x : ℤ × Bytes × Rio × List ReadAnswer).
      and_then (rio_reads k sz x.2 x.3)
        (λ (y : Bytes × Rio × List ReadAnswer). ok (x.1 ++ y.0, y.1, y.2)))

abbrev pub times : ℕ → Bytes → Bytes
times zero s = []
times (suc k) s = s ++ times k s

abbrev pub behind : ℕ → Bytes → ℕ → Rio
behind n s p = record { nread = pos n; ptr = p; rio_buffer = s }

rio_read-behind :
    (n p sz : ℕ) (s : Bytes) (answers : List ReadAnswer)
    → 0 < sz
    → sz ≤ n
    → rio_read sz (behind n s p) answers
      ≡ ok (pos sz, take sz s, behind (n - sz) s (p + sz), answers)
unfolding rio_read
rio_read-behind zero p sz s answers k h = absurd (omega arith)
rio_read-behind (suc n) p sz s answers k h = let e : min (suc n) sz ≡ sz = omega arith in rw e refl

rio_reads-behind :
    (k n p sz : ℕ) (s : Bytes) (answers : List ReadAnswer)
    → 0 < sz
    → k * sz ≤ n
    → rio_reads k sz (behind n s p) answers
      ≡ ok (times k (take sz s), behind (n - k * sz) s (p + k * sz), answers)
unfolding rio_reads
rio_reads-behind zero n p sz s answers h0 h =
    let e : n - 0 * sz ≡ n = omega arith in let e' : p + 0 * sz ≡ p = omega arith in rw (e, e') refl
rio_reads-behind (suc k) n p sz s answers h0 h =
    let first = rio_read-behind n p sz s answers h0 (omega arith) in
    let rest = rio_reads-behind k (n - sz) (p + sz) sz s answers h0 (omega arith) in
    let e : n - sz - k * sz ≡ n - suc k * sz = omega arith in
    let e' : p + sz + k * sz ≡ p + suc k * sz = omega arith in rw first (rw rest (rw (e, e') refl))

-- Calls of `rio_read` for `sz` bytes each on a fresh `rio_t`, for which the first `read` stores enough: every
-- call hands over the first `sz` bytes of the buffer, and not those that follow the last ones,
-- while `nread` and `ptr` count them off as if it had gone on.
pub rio_reads-times :
    (k sz c : ℕ) (s : Bytes) (answers : List ReadAnswer)
    → 0 < sz
    → suc k * sz ≤ length (c ∷ s)
    → length (c ∷ s) ≤ 4096
    → rio_reads (suc k) sz rio_readinit (got (c ∷ s) ∷ answers)
      ≡ ok (
        times (suc k) (take sz (c ∷ s)),
        behind (length (c ∷ s) - suc k * sz) (c ∷ s) (suc k * sz),
        answers,
      )
unfolding rio_reads
rio_reads-times k sz c s answers h0 h fits =
    let n = length (c ∷ s) in
    let rest = rio_reads-behind k (n - sz) sz sz (c ∷ s) answers h0 (omega arith) in
    let e : n - sz - k * sz ≡ n - suc k * sz = omega arith in
    let e' : sz + k * sz ≡ suc k * sz = omega arith in
    rw (rio_read_first c s sz answers fits (omega arith)) (rw rest (rw (e, e') refl))
