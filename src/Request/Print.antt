-- ===== src/Request/Print.antt =====
-- The text of a request, as a client writes it, for the theorems about inc/http_types.h.
use http_callback_serve_vers.Base.{
  ◌+◌, ◌≤◌, true, List, [], ◌∷◌, ◌++◌, ◌≡◌, arith, Bytes, codes, length, length-append,
}
use http_callback_serve_vers.CString.{crlf, has_substring}
use http_callback_serve_vers.CString.Scan.{has_substring_append_left, has_substring_self}
use http_callback_serve_vers.CString.Token.{Free}
use http_callback_serve_vers.Request.{Slot, header, value}

abbrev pub Header : Type 0
Header = Bytes × Bytes

-- Names hold no colon, and names and values no byte of a line's end.
abbrev pub IsHeader : Header → Type 0
IsHeader (n, v) = Free (codes ":") n × Free crlf n × Free crlf v

-- A text of at least one byte with none of the set.
abbrev pub IsWord : Bytes → Bytes → Type 0
IsWord set [] = ⊥
IsWord set (c ∷ t) = Free set (c ∷ t)

-- The header lines, the empty line and the body.
abbrev pub print_headers : List Header → Bytes → Bytes
print_headers [] body = 13 ∷ 10 ∷ body
print_headers ((n, v) ∷ hs) body = n ++ (58 ∷ 32 ∷ (v ++ (13 ∷ 10 ∷ print_headers hs body)))

abbrev pub print : (method url version : Bytes) → List Header → Bytes → Bytes
print method url version hs body =
    method ++ (32 ∷ (url ++ (32 ∷ (version ++ (13 ∷ 10 ∷ print_headers hs body)))))

-- The slots that stand for the headers: a name and its value in two neighbouring ones.
abbrev pub slots_of : List Header → List Slot
slots_of [] = []
slots_of ((n, v) ∷ hs) = header n ∷ value v ∷ slots_of hs

has_end_headers :
    (hs : List Header) (body : Bytes)
    → has_substring (13 ∷ 10 ∷ print_headers hs body) (crlf ++ crlf) ≡ true
has_end_headers [] body = has_substring_self (crlf ++ crlf) body
has_end_headers ((n, v) ∷ hs) body =
    has_substring_append_left (13 ∷ 10 ∷ n) _ (crlf ++ crlf)
      (has_substring_append_left (58 ∷ 32 ∷ v) _ (crlf ++ crlf) (has_end_headers hs body))

-- Every request text holds the empty line for which `analasy` looks first.
pub has_end :
    (m u v : Bytes) (hs : List Header) (body : Bytes)
    → has_substring (print m u v hs body) (crlf ++ crlf) ≡ true
has_end m u v hs body = has_substring_append_left m _ (crlf ++ crlf) (
    has_substring_append_left (32 ∷ u) _ (crlf ++ crlf)
      (has_substring_append_left (32 ∷ v) _ (crlf ++ crlf) (has_end_headers hs body)))

pub length-print_headers :
    (n v : Bytes) (hs : List Header) (body : Bytes)
    → length (print_headers ((n, v) ∷ hs) body)
      ≡ length n + length v + 4 + length (print_headers hs body)
length-print_headers n v hs body = omega (
  arith,
  length-append n (58 ∷ 32 ∷ (v ++ (13 ∷ 10 ∷ print_headers hs body))),
  length-append v (13 ∷ 10 ∷ print_headers hs body),
)

pub length-print :
    (m u v : Bytes) (hs : List Header) (body : Bytes)
    → length (print m u v hs body)
      ≡ length m + length u + length v + 4 + length (print_headers hs body)
length-print m u v hs body = omega (
  arith,
  length-append m (32 ∷ (u ++ (32 ∷ (v ++ (13 ∷ 10 ∷ print_headers hs body))))),
  length-append u (32 ∷ (v ++ (13 ∷ 10 ∷ print_headers hs body))),
  length-append v (13 ∷ 10 ∷ print_headers hs body),
)

pub length-le-print_headers :
    (hs : List Header) (body : Bytes) → length hs ≤ length (print_headers hs body)
length-le-print_headers [] body = omega arith
length-le-print_headers ((n, v) ∷ hs) body =
    omega (arith, length-print_headers n v hs body, length-le-print_headers hs body)
