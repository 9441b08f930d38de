-- ===== src/Request/Parse.antt =====
-- `analasy` reads back every request text that fits its buffer.
use http_callback_serve_vers.Base.{
  ℕ, zero, suc, ◌+◌, ◌<◌, true, false, List, [], ◌∷◌, ◌++◌, some, ◌≡◌, refl, ◌∙◌, arith, Bytes,
  codes, length, drop, All, length-append, ok, lt→ltb, append_assoc, append-nil,
}
use http_callback_serve_vers.CString.{crlf, has_byte, starts_with, strtok, token, behind}
use http_callback_serve_vers.CString.Scan.{starts_with-append}
use http_callback_serve_vers.CString.Token.{Free, strtok-append}
use http_callback_serve_vers.Request.{
  Slot, header, value, bufsize, copy_field, put_slot, put_pair, headers_loop, analasy,
}
use http_callback_serve_vers.Request.Print.{
  Header, IsHeader, IsWord, print_headers, print, slots_of, has_end, length-print_headers,
  length-print, length-le-print_headers,
}

pub copy_field-ok : (s : Bytes) → length s < bufsize → copy_field s ≡ ok s
unfolding copy_field
copy_field-ok s h = rw (lt→ltb (length s) bufsize h)

pub put_slot-ok :
    (slots : List Slot) (member : Bytes → Slot) (p : Bytes)
    → length slots < bufsize
    → length (drop 1 p) < bufsize
    → put_slot slots member p ≡ ok (slots ++ member (drop 1 p) ∷ [])
unfolding put_slot
put_slot-ok slots member p h k = rw (lt→ltb _ _ h, lt→ltb _ _ k)

pub put_pair-ok :
    (slots : List Slot) (a b : ℕ) (n v s : Bytes)
    → length slots + 1 < bufsize
    → length n < bufsize
    → length v < bufsize
    → put_pair slots (a ∷ n) (some (b ∷ v), s) ≡ ok (slots ++ header n ∷ value v ∷ [], s)
put_pair-ok slots a b n v s h hn hv = rw (put_slot-ok slots header (a ∷ n) (omega arith) hn) (
    rw
      (put_slot-ok (slots ++ header n ∷ []) value (b ∷ v)
        (omega (arith, length-append slots (header n ∷ []))) hv)
      (rw append_assoc))

-- The token with which the loop ends, behind any headers.
abbrev last_token : Bytes → Bytes
last_token body = 10 ∷ 13 ∷ 10 ∷ token (codes ":") body

strtok-last_token :
    (body : Bytes)
    → strtok (codes ":") (10 ∷ 13 ∷ 10 ∷ body) ≡ (some (last_token body), behind (codes ":") body)
unfolding strtok has_byte token
strtok-last_token body = refl

starts_with-Free : (n : Bytes) → Free crlf n → starts_with n crlf ≡ false
unfolding starts_with has_byte
starts_with-Free [] f = refl
starts_with-Free (c ∷ n) f = ground (arith, f.0)

headers_loop-print :
    (k : ℕ) (hs : List Header) (body : Bytes) (slots : List Slot)
    → All IsHeader hs
    → length hs < k
    → length slots + length (print_headers hs body) < bufsize
    → headers_loop k slots (10 ∷ print_headers hs body) ≡ ok (slots ++ slots_of hs, last_token body)
unfolding headers_loop has_byte
headers_loop-print zero hs body slots ok_hs fuel room = absurd (omega arith)
headers_loop-print (suc k) [] body slots ok_hs fuel room =
    rw (strtok-last_token body, starts_with-append crlf (token (codes ":") body)) (rw append-nil)
headers_loop-print (suc k) ((n, v) ∷ hs) body slots (h, ok_hs) fuel room =
    let size = length-print_headers n v hs body in
    let next = print_headers hs body in
    let name = strtok-append (codes ":") 10 n (32 ∷ (v ++ (13 ∷ 10 ∷ next))) 58 refl h.0 refl in
    let text = strtok-append crlf 32 v (10 ∷ next) 13 refl h.2 refl in
    let both = put_pair-ok slots 10 32 n v (10 ∷ next) (omega arith) (omega arith) (omega arith) in
    let more = slots ++ header n ∷ value v ∷ [] in
    rw (name, text, starts_with-Free n h.1, both)
      (headers_loop-print k hs body more ok_hs (omega arith)
          (omega (arith, length-append slots (header n ∷ value v ∷ [])))
        ∙ rw append_assoc)

-- The request line has a method and a URL with no blank, and a version with no line end. The
-- headers are well formed.
pub record IsRequest (m u v : Bytes) (hs : List Header) : Type 0 where
  pub method_word : IsWord (codes " ") m
  pub url_word : IsWord (codes " ") u
  pub version_word : IsWord crlf v
  pub headers : All IsHeader hs

strtok-word :
    (set t r : Bytes) (d : ℕ)
    → IsWord set t
    → has_byte d set ≡ true
    → strtok set (t ++ d ∷ r) ≡ (some t, r)
strtok-word set [] r d w h = absurd w
strtok-word set (c ∷ t) r d w h = strtok-append set c t r d w.0 w.1 h

-- A request text that fits the buffer of `bufsize` bytes is parsed into its method, URL and version
-- and, for each header, a slot with the name and the next slot with the value. The body is not read.
pub analasy-print :
    (m u v : Bytes) (hs : List Header) (body : Bytes)
    → IsRequest m u v hs
    → length (print m u v hs body) < bufsize
    → analasy true (print m u v hs body)
      ≡ ok (some (record { method = m; url = u; version = v; nhead = slots_of hs }))
unfolding analasy has_byte starts_with
analasy-print m u v hs body is room =
    let size = length-print m u v hs body in
    let next = print_headers hs body in
    let fm = copy_field-ok m (omega arith) in
    let fu = copy_field-ok u (omega arith) in
    let fv = copy_field-ok v (omega arith) in
    let tm =
      strtok-word (codes " ") m (u ++ (32 ∷ (v ++ (13 ∷ 10 ∷ next)))) 32 is.method_word refl in
    let tu = strtok-word (codes " ") u (v ++ (13 ∷ 10 ∷ next)) 32 is.url_word refl in
    let tv = strtok-word crlf v (10 ∷ next) 13 is.version_word refl in
    let loop =
      headers_loop-print (suc (length (print m u v hs body))) hs body [] is.headers
        (omega (arith, length-le-print_headers hs body)) (omega arith) in
    rw (has_end m u v hs body, tm, fm, tu, fu, tv, fv, loop)
