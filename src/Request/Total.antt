-- ===== src/Request/Total.antt =====
-- `analasy` on every input: its loop ends, it writes inside its arrays, and it returns a null
-- pointer for a text without an empty line only.
use http_callback_serve_vers.Base.{
  ℕ, zero, suc, ◌+◌, ◌≤◌, ◌<◌, Bool, true, false, List, [], ◌∷◌, ◌++◌, Option, none, some, ◌≡◌,
  arith, Bytes, codes, length, drop, length-append, length-drop, Run, ok, fault, exit, waiting,
  null_pointer, out_of_bounds, Post, OnlyNull, Post-and_then, Bool-cases, inl, inr, if◌then◌else◌,
}
use http_callback_serve_vers.CString.{crlf, cr, starts_with, has_substring, strtok}
use http_callback_serve_vers.CString.Token.{Free, Cut, strtok-Cut, strtok-last}
use http_callback_serve_vers.Request.{
  Slot, header, value, HttpRequest, bufsize, copy_token, put_slot, put_pair, header_round,
  headers_loop, finish, parse_text, analasy,
}
use http_callback_serve_vers.Request.Parse.{copy_field-ok, put_slot-ok}

-- The run ends: with a result that satisfies `P`, or at a null pointer.
abbrev pub Ends : {A : Type 0} → (A → Type 0) → Run A → Type 0
Ends P r = Post OnlyNull P r

-- The loop left the token that begins, behind its first byte, with a line end.
abbrev Left : List Slot × Bytes → Type 0
Left r = starts_with (drop 1 r.1) crlf ≡ true

put_slot-Ends :
    (slots : List Slot) (member : Bytes → Slot) (p : Bytes)
    → length slots < bufsize
    → length p < bufsize
    → Ends (λ slots'. length slots' ≡ length slots + 1) (put_slot slots member p)
put_slot-Ends slots member p h k =
    rw (put_slot-ok slots member p h (omega (arith, length-drop 1 p)))
      (length-append slots (member (drop 1 p) ∷ []))

-- A full pair takes two slots, and its position is further on.
abbrev Grown : ℕ → ℕ → List Slot × Bytes → Type 0
Grown len size r = (length r.0 ≡ len + 2) × (length r.1 + 1 ≤ size)

put_pair-Ends :
    (slots : List Slot) (p : Bytes) (t : Option Bytes × Bytes) (size : ℕ)
    → Cut size t
    → length slots + 1 < bufsize
    → length p < bufsize
    → size < bufsize
    → Ends (Grown (length slots) size) (put_pair slots p t)
put_pair-Ends slots p (none, s) size cut h k l =
    Post-and_then OnlyNull _ _ (put_slot slots header p) _
      (put_slot-Ends slots header p (omega arith) k) (λ _ _. tt)
put_pair-Ends slots p (some q, s) size cut h k l =
    Post-and_then OnlyNull _ _ (put_slot slots header p) _
      (put_slot-Ends slots header p (omega arith) k)
      (λ slots' e.
        Post-and_then OnlyNull _ _ (put_slot slots' value q) _
          (put_slot-Ends slots' value q (omega arith) (omega arith))
          (λ slots'' e'. (omega arith, omega arith)))

header_round-Ends :
    (again : List Slot → Bytes → Run (List Slot × Bytes)) (slots : List Slot)
    (t : Option Bytes × Bytes) (size : ℕ)
    → ((slots' : List Slot) (s : Bytes)
        → length slots' + length s < bufsize
        → length s < size
        → Ends Left (again slots' s))
    → Cut size t
    → length slots + size < bufsize
    → Ends Left (header_round again slots t)
header_round-Ends again slots (none, s) size next cut h = tt
header_round-Ends again slots (some p, s) size next cut h =
    elim (Bool-cases (starts_with (drop 1 p) crlf)) [
      | inl e ↦ rw e e
      | inr e ↦ rw e (
          Post-and_then OnlyNull _ _ (put_pair slots p (strtok crlf s)) _
            (put_pair-Ends slots p (strtok crlf s) (length s) (strtok-Cut crlf s) (omega arith)
              (omega arith) (omega arith))
            (λ r g. next r.0 r.1 (omega arith) (omega arith)))
    ]

headers_loop-Ends :
    (k : ℕ) (slots : List Slot) (s : Bytes)
    → length s < k
    → length slots + length s < bufsize
    → Ends Left (headers_loop k slots s)
unfolding headers_loop
headers_loop-Ends zero slots s fuel room = absurd (omega arith)
headers_loop-Ends (suc k) slots s fuel room =
    header_round-Ends (headers_loop k) slots (strtok (codes ":") s) (length s)
      (λ slots' s' h l. headers_loop-Ends k slots' s' (omega arith) h) (strtok-Cut (codes ":") s)
      room

-- A copied token was in the string, and so is what follows.
copy_token-Ends :
    (t : Option Bytes × Bytes) (size : ℕ)
    → Cut size t
    → size < bufsize
    → Ends (λ r. length r.1 ≤ size) (copy_token t)
copy_token-Ends (none, s) size cut h = tt
copy_token-Ends (some p, s) size cut h = rw (copy_field-ok p (omega arith)) (omega arith)

starts_with-cr : (s : Bytes) → starts_with s crlf ≡ true → starts_with s (cr ∷ []) ≡ true
unfolding starts_with
starts_with-cr [] h = cc
starts_with-cr (c ∷ s) h = ground arith

abbrev IsParsed : Option HttpRequest → Type 0
IsParsed none = ⊥
IsParsed (some req) = Unit

finish-IsParsed :
    (req : HttpRequest) (p : Bytes) → starts_with (drop 1 p) crlf ≡ true → IsParsed (finish req p)
finish-IsParsed req p h = rw (starts_with-cr (drop 1 p) h) tt

parse_text-Ends : (buf : Bytes) → length buf < bufsize → Ends IsParsed (parse_text buf)
unfolding parse_text
parse_text-Ends buf room =
    let blank = codes " " in
    Post-and_then OnlyNull _ _ (copy_token (strtok blank buf)) _
      (copy_token-Ends (strtok blank buf) (length buf) (strtok-Cut blank buf) room)
      (λ m hm.
        Post-and_then OnlyNull _ _ (copy_token (strtok blank m.1)) _
          (copy_token-Ends (strtok blank m.1) (length m.1) (strtok-Cut blank m.1) (omega arith))
          (λ u hu.
            Post-and_then OnlyNull _ _ (copy_token (strtok crlf u.1)) _
              (copy_token-Ends (strtok crlf u.1) (length u.1) (strtok-Cut crlf u.1) (omega arith))
              (λ v hv.
                Post-and_then OnlyNull Left IsParsed (headers_loop (suc (length buf)) [] v.1) _
                  (headers_loop-Ends (suc (length buf)) [] v.1 (omega arith) (omega arith))
                  (λ r left. finish-IsParsed _ r.1 left))))

-- What a result says of the text.
abbrev pub Verdict : Bytes → Option HttpRequest → Type 0
Verdict buf none = has_substring buf (crlf ++ crlf) ≡ false
Verdict buf (some req) = has_substring buf (crlf ++ crlf) ≡ true

IsParsed-Verdict :
    (buf : Bytes) (r : Run (Option HttpRequest))
    → has_substring buf (crlf ++ crlf) ≡ true
    → Ends IsParsed r
    → Ends (Verdict buf) r
IsParsed-Verdict buf (ok none) e h = absurd h
IsParsed-Verdict buf (ok (some req)) e h = e
IsParsed-Verdict buf (fault null_pointer) e h = tt
IsParsed-Verdict buf (fault out_of_bounds) e h = h
IsParsed-Verdict buf (exit m) e h = h
IsParsed-Verdict buf waiting e h = h

-- On a text that fits the buffer, `analasy` ends: its fuel suffices, and it writes neither outside a
-- member nor outside `nhead`. It returns a request for a text with an empty line only, and a null
-- pointer for a text without one only; what is left is a read or write through a null pointer.
pub analasy-Ends :
    (got : Bool) (buf : Bytes) → length buf < bufsize → Ends (Verdict buf) (analasy got buf)
unfolding analasy
analasy-Ends got buf room = elim (Bool-cases (has_substring buf (crlf ++ crlf))) [
  | inr e ↦ rw e e
  | inl e ↦ rw e (parsed got e)
]
  where
    parsed :
        (g : Bool)
        → has_substring buf (crlf ++ crlf) ≡ true
        → Ends (Verdict buf) (if g then parse_text buf else fault null_pointer)
    parsed true e = IsParsed-Verdict buf (parse_text buf) e (parse_text-Ends buf room)
    parsed false e = tt

-- A text with an empty line and no blank in it makes `analasy` copy from a null pointer.
pub analasy-no_blank :
    (c : ℕ) (t : Bytes)
    → Free (codes " ") (c ∷ t)
    → length (c ∷ t) < bufsize
    → has_substring (c ∷ t) (crlf ++ crlf) ≡ true
    → analasy true (c ∷ t) ≡ fault null_pointer
unfolding analasy parse_text strtok
analasy-no_blank c t f room e =
    rw (e, strtok-last (codes " ") c t f.0 f.1, copy_field-ok (c ∷ t) room)
