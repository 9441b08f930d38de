-- ===== src/Request.antt =====
-- The request parser of inc/http_types.h: the structures that it fills, `analasy` with its loop over
-- the header lines, and `readline_buf`. Strings are the bytes before the terminating zero.
-- A member of `nhead` that nothing has written has no value in C: a `Slot` holds the one member
-- that the loop writes.
pub mod Print
pub mod Parse
pub mod Total
pub mod Lines
use http_callback_serve_vers.Base.{
  ℕ, zero, suc, ◌+◌, ◌-◌, Bool, true, false, ◌&&◌, List, [], ◌∷◌, ◌++◌, Option, none, some, ltb,
  ◌==◌, if◌then◌else◌, Bytes, codes, length, drop, get_elem?, Run, ok, fault, waiting, and_then,
  null_pointer, out_of_bounds, ℤ, pos, minus_one,
}
use http_callback_serve_vers.CString.{crlf, cr, lf, starts_with, has_substring, strtok, strspn}

-- BUFSIZE, as inc/http_types.h defines it anew.
abbrev pub bufsize : ℕ
bufsize = 4096

-- An element of `nhead`: the loop writes one of its two members.
pub data Slot : Type 0 where
  header : Bytes → Slot
  value : Bytes → Slot

pub record HttpRequest : Type 0 where
  pub method : Bytes
  pub url : Bytes
  pub version : Bytes
  pub nhead : List Slot

-- `strcpy` into a member of `bufsize` bytes.
unfoldable pub copy_field : Bytes → Run Bytes
copy_field s = if ltb (length s) bufsize then ok s else fault out_of_bounds

-- `strcpy(headline->member, p)` of what `strtok` returned.
abbrev pub copy_token : Option Bytes × Bytes → Run (Bytes × Bytes)
copy_token (none, s) = fault null_pointer
copy_token (some p, s) = and_then (copy_field p) (λ q. ok (q, s))

-- `strcpy(headline->nhead[i++].member, p + 1)`: `i` is the number of slots written so far.
unfoldable pub put_slot : List Slot → (Bytes → Slot) → Bytes → Run (List Slot)
unfolding copy_field
put_slot slots member p =
    if ltb (length slots) bufsize
    then and_then (copy_field (drop 1 p)) (λ s. ok (slots ++ member s ∷ []))
    else fault out_of_bounds

-- The second half of a round: `p` is the header's token, `t` what `strtok` returned for the value.
abbrev pub put_pair : List Slot → Bytes → Option Bytes × Bytes → Run (List Slot × Bytes)
put_pair slots p (none, s) = and_then (put_slot slots header p) (λ _. fault null_pointer)
put_pair slots p (some q, s) =
    and_then (put_slot slots header p)
      (λ slots'. and_then (put_slot slots' value q) (λ slots''. ok (slots'', s)))

-- What a round makes of the token that ends at a colon: the loop ends with the slots and the
-- token, or goes on.
abbrev pub header_round :
    (List Slot → Bytes → Run (List Slot × Bytes))
    → List Slot
    → Option Bytes × Bytes
    → Run (List Slot × Bytes)
header_round again slots (none, s) = fault null_pointer
header_round again slots (some p, s) =
    let rest =
      and_then (put_pair slots p (strtok crlf s)) (λ (r : List Slot × Bytes). again r.0 r.1) in
    if starts_with (drop 1 p) crlf then ok (slots, p) else rest

-- `while (1)`: the argument is the position that `strtok` saved.
unfoldable pub headers_loop : ℕ → List Slot → Bytes → Run (List Slot × Bytes)
unfolding put_slot
headers_loop zero slots s = waiting
headers_loop (suc k) slots s =
    header_round (λ slots' s'. headers_loop k slots' s') slots (strtok (codes ":") s)

-- The test behind the loop.
abbrev pub finish : HttpRequest → Bytes → Option HttpRequest
finish req p = if starts_with (drop 1 p) (cr ∷ []) then some req else none

-- The part of `analasy` behind its checks: the request line, the loop, and the test behind it. The
-- fuel is one more than the bytes of the text, since each round consumes some.
unfoldable pub parse_text : Bytes → Run (Option HttpRequest)
unfolding copy_field
parse_text buf = and_then (copy_token (strtok (codes " ") buf)) (λ (m : Bytes × Bytes).
    and_then (copy_token (strtok (codes " ") m.1)) (λ (u : Bytes × Bytes).
      and_then (copy_token (strtok crlf u.1)) (λ (v : Bytes × Bytes).
        and_then (headers_loop (suc (length buf)) [] v.1) (λ (r : List Slot × Bytes).
          ok (finish (record { method = m.0; url = u.0; version = v.0; nhead = r.0 }) r.1)))))

-- `analasy(buf)`; the flag says whether `malloc` returned an object.
unfoldable pub analasy : Bool → Bytes → Run (Option HttpRequest)
unfolding parse_text
analasy got buf =
    if has_substring buf (crlf ++ crlf)
    then if got then parse_text buf else fault null_pointer
    else ok none

-- What `readline_buf` leaves in `usr`, what it returns, and by how much it moves `*buf` on behind
-- the blanks that it skips.
pub record Line : Type 0 where
  pub text : Bytes
  pub result : ℕ
  pub advance : ℕ

abbrev pub line : Bytes → ℕ → ℕ → Line
line t r a = record { text = t; result = r; advance = a }

abbrev pub drop_last : Bytes → Bytes
drop_last [] = []
drop_last (x ∷ []) = []
drop_last (x ∷ y ∷ r) = x ∷ drop_last (y ∷ r)

-- The `for` loop: the rounds left, `i`, the bytes in `usr`, the byte before the position, and the
-- bytes from the position on.
unfoldable pub readline_loop : ℕ → ℕ → Bytes → ℕ → Bytes → Line
unfolding starts_with
readline_loop zero i usr seen s = line usr i (i + 1)
readline_loop (suc k) i usr seen [] = line usr i (i + 1)
readline_loop (suc k) i usr seen (c ∷ s) =
    let rest = readline_loop k (i + 1) (usr ++ c ∷ []) c s in
    if c == lf && seen == cr
    then line (drop_last usr) i (i + 1)
    else if c == lf && starts_with s (cr ∷ [])
    then line usr 0 0
    else rest

-- The string behind the blanks. An empty one has its terminator copied, and the loop reads on
-- behind it.
abbrev pub readline_at : ℕ → Bytes → Run Line
readline_at maxlen [] = if ltb 1 maxlen then fault out_of_bounds else ok (line [] 1 2)
readline_at maxlen (c ∷ s) = ok (readline_loop (maxlen - 1) 1 (c ∷ []) c s)

-- `readline_buf(&buf, usr, maxlen)` for pointers that are not null and `maxlen` below 2^31.
unfoldable pub readline_buf : Bytes → ℕ → Run Line
unfolding readline_loop strspn
readline_buf buf maxlen =
    let len = length buf in
    readline_at (if ltb len maxlen then maxlen else len) (drop (strspn buf (codes " ")) buf)
