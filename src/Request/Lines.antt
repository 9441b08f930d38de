-- ===== src/Request/Lines.antt =====
-- `readline_buf` of inc/http_types.h at a line that ends in a carriage return and a line feed.
use http_callback_serve_vers.Base.{
  ℕ, zero, suc, ◌+◌, ◌-◌, ◌≤◌, false, [], ◌∷◌, ◌++◌, ◌≡◌, refl, ◌∙◌, ap, arith, Bytes, codes,
  length, length-append, ok, append_assoc, append-nil, ltb, if◌then◌else◌, ◌==◌,
}
use http_callback_serve_vers.CString.{lf, has_byte}
use http_callback_serve_vers.CString.Token.{Free}
use http_callback_serve_vers.Request.{line, drop_last, readline_loop, readline_buf}

drop_last-append : (s : Bytes) (c : ℕ) → drop_last (s ++ c ∷ []) ≡ s
drop_last-append [] c = refl
drop_last-append (x ∷ []) c = refl
drop_last-append (x ∷ y ∷ s) c = ap (◌∷◌ x) (drop_last-append (y ∷ s) c)

readline_loop-crlf :
    (k i : ℕ) (usr : Bytes) (seen : ℕ) (t rest : Bytes)
    → Free (lf ∷ []) t
    → length t + 2 ≤ k
    → readline_loop k i usr seen (t ++ 13 ∷ 10 ∷ rest)
      ≡ line (usr ++ t) (i + length t + 1) (i + length t + 2)
unfolding readline_loop has_byte
readline_loop-crlf zero i usr seen t rest f h = absurd (omega arith)
readline_loop-crlf (suc zero) i usr seen t rest f h = absurd (omega arith)
readline_loop-crlf (suc (suc k)) i usr seen [] rest f h =
    rw (drop_last-append usr 13, append-nil) (ground arith)
readline_loop-crlf (suc (suc k)) i usr seen (c ∷ t) rest f h =
    let e : (c == 10) ≡ false = ground (arith, f.0) in
    rw e (
      readline_loop-crlf (suc k) (i + 1) (usr ++ c ∷ []) c t rest f.1 (omega arith)
      ∙ rw append_assoc (ground arith))

-- A line with no line feed in it and no blank in front, that ends in a carriage return and a line
-- feed, is copied without the two, whatever `maxlen` is. The value returned counts the carriage
-- return, and `*buf` moves on to the byte behind the line feed.
pub readline_buf-crlf :
    (c : ℕ) (t rest : Bytes) (maxlen : ℕ)
    → has_byte c (codes " ") ≡ false
    → Free (lf ∷ []) t
    → readline_buf (c ∷ (t ++ 13 ∷ 10 ∷ rest)) maxlen
      ≡ ok (line (c ∷ t) (length t + 2) (length t + 3))
unfolding readline_buf
readline_buf-crlf c t rest maxlen h f =
    let s = c ∷ (t ++ 13 ∷ 10 ∷ rest) in
    let n = if ltb (length s) maxlen then maxlen else length s in
    let room : length t + 2 ≤ n - 1 = ground (arith, length-append t (13 ∷ 10 ∷ rest)) in
    let e = readline_loop-crlf (n - 1) 1 (c ∷ []) c t rest f room in rw (h, e) (ground arith)
