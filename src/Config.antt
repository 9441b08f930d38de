-- ===== src/Config.antt =====
-- utils/utils.h: `file_param`, which reads the address to listen on from the configuration file,
-- `get_file_length`, and the checked calls. What the file system and `malloc` answer is an argument.
pub mod Address
pub mod Fuel
use http_callback_serve_vers.Base.{
  Bool, true, false, List, [], ◌∷◌, Option, none, some, Bytes, codes, drop, length, ℕ, zero, suc,
  ◌-◌, ◌==◌, if◌then◌else◌, waiting, Run, ok, exit, fault, null_pointer, and_then, ℤ, pos, negsuc,
}
use http_callback_serve_vers.CString.{strspn, strtok}
use http_callback_serve_vers.Tcp.{text_of}
use http_callback_serve_vers.Common.{check_sign, check_pointer}

abbrev pub fdopen : {A : Type 0} → Option A → Run A
fdopen = check_pointer (codes "fdopen")

abbrev pub fgets : {A : Type 0} → Option A → Run A
fgets = check_pointer (codes "fgets error")

abbrev pub malloc : {A : Type 0} → Option A → Run A
malloc = check_pointer (codes "malloc error")

abbrev pub calloc : {A : Type 0} → Option A → Run A
calloc = check_pointer (codes "calloc error")

-- `Realloc`, from the pointer that `realloc` gives: what it returns, and whether it frees the old memory.
abbrev pub realloc : {A : Type 0} → Option A → Option A × Bool
realloc none = (none, true)
realloc (some p) = (some p, false)

abbrev pub pipe : ℤ → Run ℤ
pipe = check_sign (codes "pipe error:")

abbrev pub dup : ℤ → Run ℤ
dup = check_sign (codes "dup error:")

abbrev pub fork : ℤ → Run ℤ
fork = check_sign (codes "fork error:")

-- `get_file_length(path, len)`, from the results of `open` and of `fstat`: behind a success the labels
-- of the errors follow.
unfoldable pub get_file_length : ℤ → ℤ → Run ℤ
get_file_length (negsuc e) status = exit (codes "open error")
get_file_length (pos fd) (negsuc e) = exit (codes "fstat error")
get_file_length (pos fd) (pos n) = exit (codes "open error")

-- `sock_pair`: the two strings.
pub record SockPair : Type 0 where
  pub ip_addr : Bytes
  pub port : Bytes

abbrev pub sock_pair : Bytes → Bytes → SockPair
sock_pair a p = record { ip_addr = a; port = p }

abbrev pub with_port : Bytes → Option Bytes × Bytes → Run SockPair
with_port ip (none, s) = fault null_pointer
with_port ip (some port, s) = ok (sock_pair ip port)

abbrev pub with_ip : Option Bytes × Bytes → Run SockPair
with_ip (none, s) = fault null_pointer
with_ip (some ip, s) = with_port ip (strtok (codes "@") s)

-- One round of the loop, for the string that `fgets` put into `info`. The second `strspn` starts behind
-- the blanks, but its result is counted from the start of `info`.
unfoldable pub read_pair : Bytes → Run SockPair
unfolding strspn strtok
read_pair info =
    let blanks = strspn info (codes " ") in
    let signs = strspn (drop blanks info) (codes "@") in
    with_ip (strtok (codes ":") (drop signs info))

-- BUFSIZE of this file.
abbrev pub bufsize : ℕ
bufsize = 1024

-- What `fgets` takes from a file when there is room for `k` bytes and the zero byte behind them: the
-- bytes through the next line feed, `k` of them at most. With it, the bytes that are left.
unfoldable pub fgets_line : ℕ → Bytes → Bytes × Bytes
fgets_line zero text = ([], text)
fgets_line (suc k) [] = ([], [])
fgets_line (suc k) (c ∷ text) =
    let (line, rest) = fgets_line k text in if c == 10 then (c ∷ [], text) else (c ∷ line, rest)

-- `while ((fgets(info, BUFSIZE, fp)) != NULL)` over the bytes of the file that are left: each line, or
-- part of a long line, overwrites the pair. The fuel is one more than these bytes.
unfoldable pub pair_loop : ℕ → Bytes → SockPair → Run SockPair
unfolding fgets_line read_pair text_of
pair_loop zero text pair = waiting
pair_loop (suc k) [] pair = ok pair
pair_loop (suc k) (c ∷ text) pair =
    let (info, rest) = fgets_line (bufsize - 1) (c ∷ text) in
    let next = λ (p : SockPair). pair_loop k rest p in and_then (read_pair (text_of info)) next

-- `file_param(st_sockpair)`, from the bytes of the file that `fopen` opens, or nothing.
unfoldable pub file_param : Option Bytes → SockPair → Run SockPair
unfolding pair_loop
file_param none pair = exit (codes "open failed")
file_param (some text) pair = pair_loop (suc (length text)) text pair

-- `Init_sockpair()`: two cleared buffers, and `file_param` on them.
unfoldable pub init_sockpair : Option Bytes → Option Bytes → Option Bytes → Run SockPair
unfolding file_param
init_sockpair a p config =
    and_then (calloc a)
      (λ (_ : Bytes). and_then (calloc p) (λ (_ : Bytes). file_param config (sock_pair [] [])))
