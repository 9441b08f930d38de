-- ===== src/CString.antt =====
-- The functions of the C library's string.h, strings.h and ctype.h that the sources call, over the
-- bytes of a string before its terminating zero.
pub mod Token
pub mod Decimal
pub mod Scan
use http_callback_serve_vers.Base.{
  ℕ, zero, suc, ◌+◌, ◌-◌, ◌/◌, ◌%◌, Bool, true, false, ◌&&◌, ◌||◌, List, [], ◌∷◌, ◌++◌, Option,
  none, some, leb, ltb, ◌==◌, if◌then◌else◌, Bytes, codes,
}

abbrev pub cr : ℕ
cr = 13

abbrev pub lf : ℕ
lf = 10

abbrev pub crlf : Bytes
crlf = 13 ∷ 10 ∷ []

-- `isspace` in the C locale.
unfoldable pub is_space : ℕ → Bool
is_space c = c == 32 || (leb 9 c && leb c 13)

-- `tolower` in the C locale.
unfoldable pub to_lower : ℕ → ℕ
to_lower c = if leb b'A' c && leb c b'Z' then c + 32 else c

-- `strcasecmp(s, t) == 0`.
unfoldable pub strcasecmp_eq : Bytes → Bytes → Bool
unfolding to_lower
strcasecmp_eq [] [] = true
strcasecmp_eq (a ∷ s) (b ∷ t) = to_lower a == to_lower b && strcasecmp_eq s t
strcasecmp_eq _ _ = false

-- `strncmp(s, t, strlen(t)) == 0`.
unfoldable pub starts_with : Bytes → Bytes → Bool
starts_with s [] = true
starts_with [] (b ∷ t) = false
starts_with (a ∷ s) (b ∷ t) = a == b && starts_with s t

-- `strstr(s, t) != NULL`.
unfoldable pub has_substring : Bytes → Bytes → Bool
unfolding starts_with
has_substring [] t = starts_with [] t
has_substring (a ∷ s) t = starts_with (a ∷ s) t || has_substring s t

-- Whether `strchr(set, c)` finds `c` among the bytes before the terminator.
unfoldable pub has_byte : ℕ → Bytes → Bool
has_byte c [] = false
has_byte c (d ∷ ds) = c == d || has_byte c ds

-- `strspn(s, set)`.
unfoldable pub strspn : Bytes → Bytes → ℕ
unfolding has_byte
strspn [] set = 0
strspn (c ∷ s) set = let n = strspn s set in if has_byte c set then suc n else 0

-- The three parts into which `strtok` cuts: the delimiters that it skips, the token, and what
-- follows the delimiter behind the token.
unfoldable pub skip_set : Bytes → Bytes → Bytes
unfolding has_byte
skip_set set [] = []
skip_set set (c ∷ s) = let r = skip_set set s in if has_byte c set then r else c ∷ s

unfoldable pub token : Bytes → Bytes → Bytes
unfolding has_byte
token set [] = []
token set (c ∷ s) = let r = token set s in if has_byte c set then [] else c ∷ r

unfoldable pub behind : Bytes → Bytes → Bytes
unfolding has_byte
behind set [] = []
behind set (c ∷ s) = let r = behind set s in if has_byte c set then s else r

-- `strtok`: the token, or a null pointer where only delimiters are left, and the saved position.
abbrev pub token_or_null : Bytes → Bytes → Option Bytes × Bytes
token_or_null set [] = (none, [])
token_or_null set (c ∷ s) = (some (token set (c ∷ s)), behind set (c ∷ s))

unfoldable pub strtok : Bytes → Bytes → Option Bytes × Bytes
unfolding skip_set token behind
strtok set s = token_or_null set (skip_set set s)

-- `strrchr(s, c) + 1`: what follows the last `c`, and a null pointer where there is none.
unfoldable pub after_last : ℕ → Bytes → Option Bytes
after_last c [] = none
after_last c (d ∷ s) =
    let here : Option Bytes = if d == c then some s else none in
    elim (after_last c s) [ none ↦ here | some r ↦ some r ]

abbrev pub last_byte : Bytes → ℕ → ℕ
last_byte [] d = d
last_byte (c ∷ s) d = last_byte s c

-- `%d` of a number that is not negative: digits in front of those already written.
unfoldable pub decimal_onto : ℕ → ℕ → Bytes → Bytes
decimal_onto zero n out = out
decimal_onto (suc k) n out =
    let out' = (b'0' + n % 10) ∷ out in
    let more = decimal_onto k (n / 10) out' in if ltb n 10 then out' else more

unfoldable pub decimal : ℕ → Bytes
unfolding decimal_onto
decimal n = decimal_onto (suc n) n []
