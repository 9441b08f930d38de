-- ===== src/Common.antt =====
-- The checked calls of inc/common.h: each makes a call and ends the process where the call fails. The
-- argument is what the call gives; `errno` and the arguments of the call are left out.
pub mod Skip
use http_callback_serve_vers.Base.{
  Bool, true, false, List, [], ◌∷◌, Option, none, some, if◌then◌else◌, Bytes, codes, Run, ok, exit,
  ℤ, pos, minus_one, eq_ℤ, is_neg, not, ◌≡◌, refl, ℕ, All, arith,
}
use http_callback_serve_vers.Io.{ReadAnswer, Received, Conn, Sent}
use http_callback_serve_vers.Io

-- `if ((rval = f()) < 0) err_dump(msg)`, and the tests `== -1` and `!= 0`.
abbrev pub check_sign : Bytes → ℤ → Run ℤ
check_sign msg r = if is_neg r then exit msg else ok r

abbrev pub check_minus_one : Bytes → ℤ → Run ℤ
check_minus_one msg r = if eq_ℤ r minus_one then exit msg else ok r

abbrev pub check_zero : Bytes → ℤ → Run ℤ
check_zero msg r = if eq_ℤ r (pos 0) then ok r else exit msg

-- `if ((p = f()) == NULL) err_dump(msg)`.
abbrev pub check_pointer : {A : Type 0} → Bytes → Option A → Run A
check_pointer msg none = exit msg
check_pointer msg (some p) = ok p

-- What became of the standard stream: the result, whether `dup2` was called, and the descriptor closed.
pub record Redirected : Type 0 where
  pub result : ℤ
  pub called : Bool
  pub closed : List ℤ

abbrev pub redirected : Bool → List ℤ → Redirected
redirected b c = record { result = pos 0; called = b; closed = c }

-- The part of `dup2_stdin` and `dup2_stdout` under the test, from the stream, what `dup2` returns, and
-- the message.
abbrev pub redirect : ℤ → Bytes → ℤ → ℤ → Run Redirected
redirect stream msg fd r = if eq_ℤ r stream then ok (redirected true (fd ∷ [])) else exit msg

-- `dup2_stdin(fd)`.
unfoldable pub dup2_stdin : ℤ → ℤ → Run Redirected
dup2_stdin fd r =
    if not (eq_ℤ fd (pos 0))
    then redirect (pos 0) (codes "dup2 stdin_fileno") fd r
    else ok (redirected false [])

-- `dup2_stdout(fd)`, which tests for the stream itself.
unfoldable pub dup2_stdout : ℤ → ℤ → Run Redirected
dup2_stdout fd r =
    if eq_ℤ fd (pos 1)
    then redirect (pos 1) (codes "dup2 stdout ") fd r
    else ok (redirected false [])

abbrev pub getpwuid : {A : Type 0} → Option A → Run A
getpwuid = check_pointer (codes "getpwuid")

abbrev pub getpwnam : {A : Type 0} → Option A → Run A
getpwnam = check_pointer (codes "getpwuid")

abbrev pub getpwent : {A : Type 0} → Option A → Run A
getpwent = check_pointer (codes "getpwent")

abbrev pub getgrent : {A : Type 0} → Option A → Run A
getgrent = check_pointer (codes "getprent")

abbrev pub fork : ℤ → Run ℤ
fork = check_sign (codes "fork error!")

abbrev pub close : ℤ → Run ℤ
close = check_zero (codes "close")

abbrev pub pipe : ℤ → Run ℤ
pipe = check_minus_one (codes "pipe error")

abbrev pub socket : ℤ → Run ℤ
socket = check_sign (codes "socket error!")

abbrev pub connect : ℤ → Run ℤ
connect = check_sign (codes "connect error")

abbrev pub bind : ℤ → Run ℤ
bind = check_minus_one (codes "bind error")

abbrev pub listen : ℤ → Run ℤ
listen = check_sign (codes "listen error")

abbrev pub ser_accept : ℤ → Run ℤ
ser_accept = check_sign (codes "accept")

abbrev pub accept : ℤ → Run ℤ
accept = check_sign (codes "accept error!")

abbrev pub malloc : {A : Type 0} → Option A → Run A
malloc = check_pointer (codes "malloc error!")

abbrev pub open_file : ℤ → Run ℤ
open_file = check_sign (codes "open error")

abbrev pub stat : ℤ → Run ℤ
stat = check_sign (codes "stat file failed")

abbrev pub fcntl : ℤ → Run ℤ
fcntl = check_minus_one (codes "fcntl error")

abbrev pub munmap : ℤ → Run ℤ
munmap = check_zero (codes "munmap error")

abbrev pub msync : ℤ → Run ℤ
msync = check_zero (codes "msync error")

abbrev pub mprotect : ℤ → Run ℤ
mprotect = check_zero (codes "mprotect error")

abbrev pub shm_open : ℤ → Run ℤ
shm_open = check_sign (codes "shm_open error!")

abbrev pub shm_unlink : ℤ → Run ℤ
shm_unlink = check_sign (codes "shm_unlink error!")

abbrev pub ftruncate : ℤ → Run ℤ
ftruncate = check_sign (codes "Ftruncate error!")

abbrev pub setsid : ℤ → Run ℤ
setsid = check_minus_one (codes "setsid")

abbrev pub getrlimit : ℤ → Run ℤ
getrlimit = check_minus_one (codes "getrlimit")

abbrev pub setrlimit : ℤ → Run ℤ
setrlimit = check_minus_one (codes "setlimit")

-- `Read_s` and `Write_s`, which stand here and in inc/sock.h.
abbrev pub read_s : ℕ → List ReadAnswer → Received
read_s sz answers = Io.read_s sz answers

abbrev pub write_s : ℕ → Bytes → Conn → Sent
write_s sz buf c = Io.write_s sz buf c

-- `Mmap`, from the pointer that `mmap` gives, or nothing for MAP_FAILED.
abbrev pub mmap : {A : Type 0} → Option A → Run A
mmap = check_pointer (codes "mmap error!")

-- The calls that give a number, and those that give 0, with their messages.
abbrev pub number_calls : List ((ℤ → Run ℤ) × Bytes)
number_calls =
    (fork, codes "fork error!")
    ∷ (pipe, codes "pipe error")
    ∷ (socket, codes "socket error!")
    ∷ (connect, codes "connect error")
    ∷ (bind, codes "bind error")
    ∷ (listen, codes "listen error")
    ∷ (ser_accept, codes "accept")
    ∷ (accept, codes "accept error!")
    ∷ (open_file, codes "open error")
    ∷ (stat, codes "stat file failed")
    ∷ (fcntl, codes "fcntl error")
    ∷ (shm_open, codes "shm_open error!")
    ∷ (shm_unlink, codes "shm_unlink error!")
    ∷ (ftruncate, codes "Ftruncate error!")
    ∷ (setsid, codes "setsid")
    ∷ (getrlimit, codes "getrlimit")
    ∷ (setrlimit, codes "setlimit")
    ∷ []

abbrev pub zero_calls : List ((ℤ → Run ℤ) × Bytes)
zero_calls =
    (close, codes "close")
    ∷ (munmap, codes "munmap error")
    ∷ (msync, codes "msync error")
    ∷ (mprotect, codes "mprotect error")
    ∷ []

-- A call that is documented to give -1 or a number from 0 on: every wrapper in the list returns the
-- number, and ends the process with its own message on -1, whichever of the two tests it makes.
pub number_calls-checked :
    (n : ℕ) → All (λ c. (c.0 (pos n) ≡ ok (pos n)) × (c.0 minus_one ≡ exit c.1)) number_calls
number_calls-checked n = ground arith

-- A descriptor that is not the stream itself: `dup2_stdin` makes it the standard input and closes it,
-- where `dup2` succeeds. `dup2_stdout` neither calls `dup2` nor closes anything, for any descriptor
-- but 1, and closes the standard output for that one.
pub dup2_stdin-dup2_stdout :
    (fd : ℕ)
    → (eq_ℤ (pos fd) (pos 0) ≡ false)
    → (eq_ℤ (pos fd) (pos 1) ≡ false)
    → (r : ℤ)
    → (dup2_stdin (pos fd) (pos 0) ≡ ok (redirected true (pos fd ∷ [])))
      × (dup2_stdout (pos fd) r ≡ ok (redirected false []))
      × (dup2_stdout (pos 1) (pos 1) ≡ ok (redirected true (pos 1 ∷ [])))
unfolding dup2_stdin dup2_stdout
dup2_stdin-dup2_stdout fd h1 h2 r = rw h1 (rw h2 (refl, refl, refl))
