-- ===== src/Config/Address.antt =====
-- Round trip of the configuration file that utils/utils.h reads.
use http_callback_serve_vers.Base.{
  ℕ, zero, suc, ◌-◌, ◌<◌, ◌==◌, false, List, [], ◌∷◌, ◌++◌, some, Bytes, codes, ok, and_then, ◌≡◌,
  refl, sym, ◌∙◌, ap, arith, All, All-append, length, length-append, append_assoc, subst,
}
use http_callback_serve_vers.CString.{has_byte, strspn}
use http_callback_serve_vers.CString.Token.{Free, strtok-append}
use http_callback_serve_vers.Tcp.{text_of}
use http_callback_serve_vers.Tcp.Recv.{IsText, text_of_text}
use http_callback_serve_vers.Config.{
  SockPair, sock_pair, read_pair, bufsize, fgets_line, pair_loop, file_param, init_sockpair,
}

-- A line of the configuration file, as the README gives it: `@address:port@`.
abbrev pub config_line : Bytes × Bytes → Bytes
config_line (ip, port) = 64 ∷ (ip ++ (58 ∷ (port ++ (64 ∷ 10 ∷ []))))

-- A file of such lines.
abbrev pub config_file : List (Bytes × Bytes) → Bytes
config_file [] = []
config_file (a ∷ addresses) = config_line a ++ config_file addresses

-- No byte is a line feed or zero.
abbrev pub IsLine : Bytes → Type 0
IsLine s = All (λ c. (c == 10) ≡ false) s × IsText s

-- The two strings are not empty, the address holds neither a colon nor the sign at its start, the port
-- holds no sign, and the line fits the buffer that it is read into.
abbrev pub IsAddress : Bytes × Bytes → Type 0
IsAddress ([], port) = ⊥
IsAddress (c ∷ ip, []) = ⊥
IsAddress (c ∷ ip, d ∷ port) =
    (has_byte c (codes "@") ≡ false)
    × Free (codes ":") (c ∷ ip)
    × Free (codes "@") (d ∷ port)
    × IsLine (c ∷ ip)
    × IsLine (d ∷ port)
    × (length (config_line (c ∷ ip, d ∷ port)) < bufsize)

read_pair-config_line :
    (a : Bytes × Bytes) → IsAddress a → read_pair (config_line a) ≡ ok (sock_pair a.0 a.1)
unfolding read_pair strspn has_byte
read_pair-config_line ([], port) h = absurd h
read_pair-config_line (c ∷ ip, []) h = absurd h
read_pair-config_line (c ∷ ip, d ∷ port) (hc, (hi, his), (hp, hps), _, _, _) = rw hc (
    rw (strtok-append (codes ":") c ip (d ∷ (port ++ (64 ∷ 10 ∷ []))) 58 hi his refl)
      (rw (strtok-append (codes "@") d port (10 ∷ []) 64 hp hps refl) refl))

-- A line that fits is taken whole.
fgets_line-whole :
    (k : ℕ) (t rest : Bytes)
    → All (λ c. (c == 10) ≡ false) t
    → length t < k
    → fgets_line k (t ++ 10 ∷ rest) ≡ (t ++ 10 ∷ [], rest)
unfolding fgets_line
fgets_line-whole zero t rest plain room = absurd (omega arith)
fgets_line-whole (suc k) [] rest plain room = refl
fgets_line-whole (suc k) (c ∷ t) rest (h, plain) room =
    rw (h, fgets_line-whole k t rest plain (omega arith)) refl

-- The line without its line feed.
abbrev config_text : Bytes × Bytes → Bytes
config_text (ip, port) = 64 ∷ (ip ++ (58 ∷ (port ++ (64 ∷ []))))

line_feed-append : (t rest : Bytes) → (t ++ 10 ∷ []) ++ rest ≡ t ++ 10 ∷ rest
line_feed-append t rest = append_assoc t (10 ∷ []) rest

config_line-text : (ip port : Bytes) → config_line (ip, port) ≡ config_text (ip, port) ++ 10 ∷ []
config_line-text ip port =
    ap (λ l. 64 ∷ l)
      (ap (λ l. ip ++ 58 ∷ l) (sym (append_assoc port (64 ∷ []) (10 ∷ [])))
        ∙ sym (append_assoc ip (58 ∷ (port ++ 64 ∷ [])) (10 ∷ [])))

All-config_text :
    (P : ℕ → Type 0) (ip port : Bytes)
    → P 64
    → P 58
    → All P ip
    → All P port
    → All P (config_text (ip, port))
All-config_text P ip port sign colon h k = (
  sign,
  All-append P ip (58 ∷ (port ++ 64 ∷ [])) h (colon, All-append P port (64 ∷ []) k (sign, tt)),
)

-- `fgets` takes the line from the file, and the zero byte behind it ends the string.
fgets_line-config_line :
    (ip port rest : Bytes)
    → IsLine ip
    → IsLine port
    → length (config_line (ip, port)) < bufsize
    → (fgets_line (bufsize - 1) (config_line (ip, port) ++ rest) ≡ (config_line (ip, port), rest))
      × (text_of (config_line (ip, port)) ≡ config_line (ip, port))
fgets_line-config_line ip port rest h k room =
    let t = config_text (ip, port) in
    let line = config_line-text ip port in
    let plain = All-config_text (λ c. (c == 10) ≡ false) ip port refl refl h.0 k.0 in
    let text : IsText (t ++ 10 ∷ []) =
      All-append (λ c. 0 < c) t (10 ∷ [])
        (All-config_text (λ c. 0 < c) ip port (omega arith) (omega arith) h.1 k.1)
        (omega arith, tt) in
    let size = ap length line in
    let small : length t < bufsize - 1 = omega (arith, length-append t (10 ∷ [])) in
    (
      ap (λ l. fgets_line (bufsize - 1) (l ++ rest)) line
          ∙ ap (fgets_line (bufsize - 1)) (line_feed-append t rest)
          ∙ fgets_line-whole (bufsize - 1) t rest plain small
          ∙ ap (λ l. (l, rest)) (sym line),
      text_of_text (config_line (ip, port)) (subst IsText (sym line) text),
    )

pair_loop-config_line :
    (k : ℕ) (a : Bytes × Bytes) (rest : Bytes) (pair : SockPair)
    → IsAddress a
    → pair_loop (suc k) (config_line a ++ rest) pair ≡ pair_loop k rest (sock_pair a.0 a.1)
unfolding pair_loop
pair_loop-config_line k ([], port) rest pair h = absurd h
pair_loop-config_line k (c ∷ ip, []) rest pair h = absurd h
pair_loop-config_line k (c ∷ ip, d ∷ port) rest pair h =
    let (_, _, _, line, line', room) = h in
    let (taken, text) = fgets_line-config_line (c ∷ ip) (d ∷ port) rest line line' room in
    let next = λ (p : SockPair). pair_loop k rest p in
    ap (λ r. and_then (read_pair (text_of r.0)) (λ (p : SockPair). pair_loop k r.1 p)) taken
    ∙ ap (λ s. and_then (read_pair s) next) text
    ∙ ap (λ r. and_then r next) (read_pair-config_line (c ∷ ip, d ∷ port) h)

pair_loop-last :
    (k : ℕ) (earlier : List (Bytes × Bytes)) (a : Bytes × Bytes) (pair : SockPair)
    → All IsAddress earlier
    → IsAddress a
    → length (config_file (earlier ++ a ∷ [])) < k
    → pair_loop k (config_file (earlier ++ a ∷ [])) pair ≡ ok (sock_pair a.0 a.1)
unfolding pair_loop
pair_loop-last zero earlier a pair hs h fuel = absurd (omega arith)
pair_loop-last (suc zero) [] a pair hs h fuel =
    absurd (omega (arith, length-append (config_line a) []))
pair_loop-last (suc (suc k)) [] a pair hs h fuel = pair_loop-config_line (suc k) a [] pair h
pair_loop-last (suc k) (b ∷ earlier) a pair (hb, hs) h fuel =
    let rest = config_file (earlier ++ a ∷ []) in
    let less : length rest < k = omega (arith, length-append (config_line b) rest) in
    pair_loop-config_line k b rest pair hb
    ∙ pair_loop-last k earlier a (sock_pair b.0 b.1) hs h less

-- A configuration file of lines `@address:port@` is read to the address and the port of its last line,
-- where both `calloc` calls succeed and each line, with its line feed, fits `info`: it has fewer than
-- BUFSIZE bytes. No address or port is empty or holds a line feed or a zero byte, an address neither
-- holds a colon nor begins with the sign, and a port holds no sign.
pub init_sockpair-config_line :
    (x y : Bytes) (earlier : List (Bytes × Bytes)) (a : Bytes × Bytes)
    → All IsAddress earlier
    → IsAddress a
    → init_sockpair (some x) (some y) (some (config_file (earlier ++ a ∷ [])))
      ≡ ok (sock_pair a.0 a.1)
unfolding init_sockpair file_param
init_sockpair-config_line x y earlier a hs h =
    pair_loop-last (suc (length (config_file (earlier ++ a ∷ [])))) earlier a (sock_pair [] []) hs h
      (omega arith)
