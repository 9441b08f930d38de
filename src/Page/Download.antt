-- ===== src/Page/Download.antt =====
-- `response_ok`: what the client gets of a file.
use http_callback_serve_vers.Base.{
  ℕ, zero, suc, ◌+◌, ◌/◌, ◌%◌, ◌^◌, ◌≤◌, ◌<◌, false, List, [], ◌∷◌, ◌++◌, ◌≡◌, refl, ◌∙◌, ap, arith,
  Bytes, codes, length, take, drop, All, length-append, length-drop, length-take, take-append-drop,
  take-length, ok, append_assoc, append-nil, pos, none, some, ltb, lt→ltb, Bool-cases, inl, inr,
  ◌==◌, ltb→lt,
}
use native.Mathlib.Nat.{pow-suc}
use http_callback_serve_vers.CString.{after_last, decimal, decimal_onto}
use http_callback_serve_vers.Io.{Conn, conn, SendAnswer, http_send, write_loop}
use http_callback_serve_vers.Accept.{buffsize}
use http_callback_serve_vers.Page.{OpenFile, say_bounded, say_name, body_loop, send_file}
use http_callback_serve_vers.Page.Delivers.{
  Roomy, drop-Roomy, Delivers, >>-Delivers, say_once-Delivers, http_send_at,
}

-- Digits: a number below 10^(d + 1) has at most d + 1.
length-decimal_onto :
    (d k n : ℕ) (out : Bytes) → n < 10 ^ suc d → length (decimal_onto k n out) ≤ suc d + length out
unfolding decimal_onto
length-decimal_onto d zero n out h = omega arith
length-decimal_onto zero (suc k) n out h = rw (lt→ltb n 10 h) (omega arith)
length-decimal_onto (suc d) (suc k) n out h = elim (Bool-cases (ltb n 10)) [
  | inl e ↦ rw e (omega arith)
  | inr e ↦ rw e (
      let out' = (b'0' + n % 10) ∷ out in
      let power = pow-suc 10 (suc d) in
      let small : n / 10 < 10 ^ suc d = omega (arith, power) in
      omega (arith, length-decimal_onto d k (n / 10) out' small))
]

pub length-decimal : (n : ℕ) → n < 2 ^ 63 → length (decimal n) ≤ 20
unfolding decimal
length-decimal n h = omega (arith, length-decimal_onto 19 (suc n) n [] (omega arith))

after_last-plain : (s : Bytes) → All (λ c. (c == b'/') ≡ false) s → after_last b'/' s ≡ none
unfolding after_last
after_last-plain [] h = refl
after_last-plain (c ∷ s) h = rw (after_last-plain s h.1, h.0)

pub after_last-append :
    (dir name : Bytes)
    → All (λ c. (c == b'/') ≡ false) name
    → after_last b'/' (dir ++ b'/' ∷ name) ≡ some name
unfolding after_last
after_last-append [] name h = rw (after_last-plain name h)
after_last-append (c ∷ dir) name h = rw (after_last-append dir name h)

-- One part of the file goes out whole, with at most one answer.
http_send_part :
    (s : Bytes) (c : Conn)
    → length s ≤ buffsize
    → Roomy buffsize c.answers
    → 1 ≤ length c.answers
    → (j : ℕ) × (http_send (length s) s c
        ≡ ok (pos (length s), conn (drop j c.answers) (c.wire ++ s)))
      × (j ≤ 1)
unfolding http_send write_loop
http_send_part [] c fits roomy enough = (0, rw append-nil, omega arith)
http_send_part (x ∷ s) c fits roomy enough = (
  1,
  http_send_at (suc (length s)) buffsize (x ∷ s) c.answers c.wire refl (omega arith) fits
      (omega arith) roomy enough,
  omega arith,
)

-- A file that `fread` reads to its end.
abbrev pub readable : Bytes → OpenFile
readable s = record { bytes = s; fails = false }

-- The body goes out whole, an array at a time.
body_loop-all :
    (k : ℕ) (s : Bytes) (c : Conn)
    → length s < k
    → Roomy buffsize c.answers
    → length s / buffsize + 1 ≤ length c.answers
    → (rest : List SendAnswer) × (body_loop false k s c ≡ ok (conn rest (c.wire ++ s)))
unfolding body_loop
body_loop-all zero s c fuel roomy enough = absurd (omega arith)
body_loop-all (suc k) s c fuel roomy enough =
    let part = take buffsize s in
    let size = length-take buffsize s in
    let (j, sent, one) = http_send_part part c (omega arith) roomy (omega arith) in
    let c' = conn (drop j c.answers) (c.wire ++ part) in
    elim (Bool-cases (ltb (length part) buffsize)) [
      | inl e ↦
          let short = ltb→lt (length part) buffsize e in
          let whole = take-length s buffsize (omega arith) in
          (
            drop j c.answers,
            rw (sent, e) (ap (λ w. ok (conn (drop j c.answers) (c.wire ++ w))) whole),
          )
      | inr e ↦
          let long : length part ≡ buffsize = ground arith in
          let (rest, done) =
            body_loop-all k (drop buffsize s) c' (omega (arith, length-drop buffsize s))
              (drop-Roomy j buffsize c.answers roomy)
              (omega (arith, length-drop buffsize s, length-drop j c.answers)) in
          (
            rest,
            rw (sent, e)
                (done
                  ∙ ap (λ w. ok (conn rest w))
                      (append_assoc c.wire part (drop buffsize s)
                        ∙ ap (λ w. c.wire ++ w) (take-append-drop buffsize s))),
          )
    ]

-- The header block of a download.
abbrev pub header_block : ℕ → Bytes → Bytes
header_block size name =
    codes "HTTP/1.0 200 OK \r\n"
    ++ (codes "Content-Length: " ++ decimal size ++ codes "\r\n")
    ++ codes "Content-Type: application/octet-stream\r\n"
    ++ (codes "Content-Disposition: filename=" ++ name ++ codes "\r\n")
    ++ codes "Connection: close\r\n\r\n"

say_name-Delivers :
    (name : Bytes)
    → length name < 990
    → Delivers buffsize
        (say_name (some name))
        1
        (codes "Content-Disposition: filename=" ++ name ++ codes "\r\n")
unfolding say_bounded
say_name-Delivers name h c roomy enough =
    let line = codes "Content-Disposition: filename=" ++ name ++ codes "\r\n" in
    let size = length-append (codes "Content-Disposition: filename=" ++ name) (codes "\r\n") in
    let size' = length-append (codes "Content-Disposition: filename=") name in
    rw (lt→ltb (length line) buffsize (omega arith))
      (say_once-Delivers buffsize line (omega arith) c roomy enough)

-- A file at a path with a slash, with a name of fewer than 990 bytes, arrives as a header block and its
-- bytes in order, where each answer has room for `buffsize` bytes and there are enough of them: five for
-- the lines and one for each begun part of the file. The header block gives as length what `stat` said,
-- and as name what follows the last slash.
pub send_file-header_block :
    (size : ℕ) (contents dir name : Bytes) (c : Conn)
    → size < 2 ^ 63
    → All (λ b. (b == b'/') ≡ false) name
    → length name < 990
    → Roomy buffsize c.answers
    → length contents / buffsize + 6 ≤ length c.answers
    → (rest : List SendAnswer) × (send_file size (some (readable contents)) (dir ++ b'/' ∷ name) c
        ≡ ok (conn rest (c.wire ++ header_block size name ++ contents)))
unfolding send_file
send_file-header_block size contents dir name c small plain short roomy enough =
    let digits = length-decimal size small in
    let length_line = codes "Content-Length: " ++ decimal size ++ codes "\r\n" in
    let e1 = length-append (codes "Content-Length: " ++ decimal size) (codes "\r\n") in
    let e2 = length-append (codes "Content-Length: ") (decimal size) in
    let lines =
      >>-Delivers
        (>>-Delivers
          (>>-Delivers
            (>>-Delivers (say_once-Delivers buffsize (codes "HTTP/1.0 200 OK \r\n") (omega arith))
              (say_once-Delivers buffsize length_line (omega arith)))
            (say_once-Delivers buffsize (codes "Content-Type: application/octet-stream\r\n")
              (omega arith)))
          (say_name-Delivers name short))
        (say_once-Delivers buffsize (codes "Connection: close\r\n\r\n") (omega arith)) in
    let sent = lines c roomy (omega arith) in
    let c' = conn (drop 5 c.answers) (c.wire ++ header_block size name) in
    let (rest, body) =
      body_loop-all (suc (length contents)) contents c' (omega arith)
        (drop-Roomy 5 buffsize c.answers roomy) (omega (arith, length-drop 5 c.answers)) in
    (rest, rw (after_last-append dir name plain) (rw sent body))
