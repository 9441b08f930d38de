-- ===== src/Config/Fuel.antt =====
-- The loop of `file_param` ends: the fuel that it is given is enough for every file.
use http_callback_serve_vers.Base.{
  ◌≡◌, refl, null_pointer, ℕ, zero, suc, ◌-◌, ◌≤◌, ◌<◌, ◌==◌, [], ◌∷◌, Option, none, some, Bytes,
  codes, drop, Run, ok, fault, exit, waiting, and_then, arith, length, Bool-cases, inl, inr,
}
use http_callback_serve_vers.CString.{strspn, strtok}
use http_callback_serve_vers.Tcp.{text_of}
use http_callback_serve_vers.Config.{
  SockPair, with_port, with_ip, read_pair, bufsize, fgets_line, pair_loop, file_param,
}

abbrev pub Finishes : Run SockPair → Type 0
Finishes (ok p) = Unit
Finishes (fault f) = f ≡ null_pointer
Finishes (exit m) = Unit
Finishes waiting = ⊥

and_then-Finishes :
    (r : Run SockPair) (next : SockPair → Run SockPair)
    → Finishes r
    → ((p : SockPair) → Finishes (next p))
    → Finishes (and_then r next)
and_then-Finishes (ok p) next h k = k p
and_then-Finishes (fault f) next h k = h
and_then-Finishes (exit m) next h k = tt
and_then-Finishes waiting next h k = absurd h

with_port-Finishes : (ip : Bytes) (r : Option Bytes × Bytes) → Finishes (with_port ip r)
with_port-Finishes ip (none, s) = refl
with_port-Finishes ip (some port, s) = tt

with_ip-Finishes : (r : Option Bytes × Bytes) → Finishes (with_ip r)
with_ip-Finishes (none, s) = refl
with_ip-Finishes (some ip, s) = with_port-Finishes ip (strtok (codes "@") s)

read_pair-Finishes : (info : Bytes) → Finishes (read_pair info)
unfolding read_pair
read_pair-Finishes info =
    let blanks = strspn info (codes " ") in
    let signs = strspn (drop blanks info) (codes "@") in
    with_ip-Finishes (strtok (codes ":") (drop signs info))

fgets_line-length : (k : ℕ) (text : Bytes) → length (fgets_line k text).1 ≤ length text
unfolding fgets_line
fgets_line-length zero text = omega arith
fgets_line-length (suc k) [] = omega arith
fgets_line-length (suc k) (c ∷ text) = elim (Bool-cases (c == 10)) [
  | inl e ↦ rw e (omega arith)
  | inr e ↦ rw e (omega (arith, fgets_line-length k text))
]

-- `fgets` takes a byte at least, if there is one.
fgets_line-shorter :
    (k c : ℕ) (text : Bytes) → length (fgets_line (suc k) (c ∷ text)).1 < length (c ∷ text)
unfolding fgets_line
fgets_line-shorter k c text = elim (Bool-cases (c == 10)) [
  | inl e ↦ rw e (omega arith)
  | inr e ↦ rw e (omega (arith, fgets_line-length k text))
]

lt_step : (a b k : ℕ) → a < b → b < suc k → a < k
lt_step a b k h l = omega arith

pair_loop-Finishes :
    (k : ℕ) (text : Bytes) (pair : SockPair) → length text < k → Finishes (pair_loop k text pair)
unfolding pair_loop
pair_loop-Finishes zero text pair h = absurd (omega arith)
pair_loop-Finishes (suc k) [] pair h = tt
pair_loop-Finishes (suc k) (c ∷ text) pair h =
    let (info, rest) = fgets_line (bufsize - 1) (c ∷ text) in
    let less = fgets_line-shorter (bufsize - 2) c text in
    let fuel = lt_step (length rest) (length (c ∷ text)) k less h in
    and_then-Finishes (read_pair (text_of info)) (λ p. pair_loop k rest p)
      (read_pair-Finishes (text_of info)) (λ p. pair_loop-Finishes k rest p fuel)

-- Whatever the configuration file holds, `file_param` returns, exits, or copies from a
-- null pointer: its loop ends.
pub file_param-Finishes : (text : Option Bytes) (pair : SockPair) → Finishes (file_param text pair)
unfolding file_param
file_param-Finishes none pair = tt
file_param-Finishes (some text) pair =
    pair_loop-Finishes (suc (length text)) text pair (omega arith)
