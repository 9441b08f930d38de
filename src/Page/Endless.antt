-- ===== src/Page/Endless.antt =====
-- The loop of `response_ok` in http_module/http_module.h over a file whose reading fails.
use http_callback_serve_vers.Base.{
  ℕ, zero, suc, ◌+◌, ◌-◌, Bool, Option, true, false, List, [], ◌∷◌, ◌++◌, ltb, ◌==◌, min, Bytes,
  codes, length, take, drop, Run, ok, fault, exit, waiting, and_then, ℤ, pos, negsuc, int_of_size,
  ◌≡◌, refl, ap, inl, inr, arith, Bool-cases, All, some, lt→ltb, ◌<◌, length-append,
}
use http_callback_serve_vers.Io.{
  Errno, SendAnswer, room, Conn, write_loop, write_all, retry_send, http_send, send_once,
}
use http_callback_serve_vers.Accept.{buffsize}
use http_callback_serve_vers.CString.{after_last}
use http_callback_serve_vers.Log.{Tm, Disk}
use http_callback_serve_vers.Page.{
  OpenFile, say_once, say_bounded, say_name, body_loop, send_file, response_ok, entries_for,
  read_failed,
}
use http_callback_serve_vers.Page.Download.{after_last-append}

-- A file that `fopen` opens, and whose reading fails behind these bytes: a directory has none.
abbrev pub failing : Bytes → OpenFile
failing s = record { bytes = s; fails = true }

-- The call returns, or the kernel has not answered yet.
abbrev pub Flows : {A : Type 0} → Run A → Type 0
Flows (ok a) = Unit
Flows (fault f) = ⊥
Flows (exit m) = ⊥
Flows waiting = Unit

and_then-waiting :
    {A B : Type 0} (m : Run A) (k : A → Run B)
    → Flows m
    → ((a : A) → k a ≡ waiting)
    → and_then m k ≡ waiting
and_then-waiting (ok a) k h f = f a
and_then-waiting (fault x) k h f = absurd h
and_then-waiting (exit m) k h f = absurd h
and_then-waiting waiting k h f = refl

write_loop-Flows :
    (again : Errno → Bool) (n count : ℕ) (rest : Bytes) (answers : List SendAnswer) (wire : Bytes)
    → Flows (write_loop again n rest count answers wire)
unfolding write_loop
write_loop-Flows again zero count rest answers wire = tt
write_loop-Flows again (suc n) count rest [] wire = tt
write_loop-Flows again (suc n) count rest (SendAnswer.failed e ∷ answers) wire =
    elim (Bool-cases (again e)) [
      | inl h ↦ rw h (write_loop-Flows again (suc n) count rest answers wire)
      | inr h ↦ rw h tt
    ]
write_loop-Flows again (suc n) count rest (room k ∷ answers) wire =
    let m = min k (suc n) in
    elim (Bool-cases (m == 0)) [
      | inl h ↦ rw h tt
      | inr h ↦ rw h (
          write_loop-Flows again (suc n - m) (count + m) (drop m rest) answers
            (wire ++ take m rest))
    ]

write_all-Flows :
    (again : Errno → Bool) (len : ℤ) (buf : Bytes) (c : Conn) → Flows (write_all again len buf c)
write_all-Flows again (pos n) buf c = write_loop-Flows again n 0 buf c.answers c.wire
write_all-Flows again (negsuc n) buf c = tt

-- After no number of rounds has the loop returned.
pub body_loop-waiting : (k : ℕ) (rest : Bytes) (c : Conn) → body_loop true k rest c ≡ waiting
unfolding body_loop http_send
body_loop-waiting zero rest c = refl
body_loop-waiting (suc k) rest c =
    let part = take buffsize rest in
    and_then-waiting (http_send (length part) part c) _
      (write_all-Flows retry_send (int_of_size (length part)) part c)
      (λ r. elim (Bool-cases (ltb (length part) buffsize)) [
        | inl h ↦ rw h (body_loop-waiting k (drop buffsize rest) r.1)
        | inr h ↦ rw h (body_loop-waiting k (drop buffsize rest) r.1)
      ])

send_once-Flows :
    (answers : List SendAnswer) (len : ℕ) (buf wire : Bytes)
    → Flows (send_once answers len buf wire)
unfolding send_once
send_once-Flows [] len buf wire = tt
send_once-Flows (SendAnswer.failed e ∷ answers) len buf wire = tt
send_once-Flows (room k ∷ answers) len buf wire = tt

Flows-and_then :
    {A B : Type 0} (m : Run A) (k : A → Run B)
    → Flows m
    → ((a : A) → Flows (k a))
    → Flows (and_then m k)
Flows-and_then (ok a) k h f = f a
Flows-and_then (fault x) k h f = h
Flows-and_then (exit m) k h f = h
Flows-and_then waiting k h f = tt

say_once-Flows : (line : Bytes) (c : Conn) → Flows (say_once line c)
unfolding say_once
say_once-Flows line c =
    Flows-and_then (send_once c.answers (length line) line c.wire) _
      (send_once-Flows c.answers (length line) line c.wire) (λ r. tt)

say_name-Flows : (name : Bytes) → length name < 990 → (c : Conn) → Flows (say_name (some name) c)
unfolding say_bounded
say_name-Flows name h c =
    let line = codes "Content-Disposition: filename=" ++ name ++ codes "\r\n" in
    let size = length-append (codes "Content-Disposition: filename=" ++ name) (codes "\r\n") in
    let size' = length-append (codes "Content-Disposition: filename=") name in
    rw (lt→ltb (length line) buffsize (omega arith)) (say_once-Flows line c)

-- The download of a file with a name of fewer than 990 bytes whose reading fails, be it in the middle or at
-- the start as for a directory: whatever the kernel answers, `send_file` does not return, for its
-- loop has not returned after any number of rounds.
pub send_file-endless :
    (k size : ℕ) (s rest dir name : Bytes) (c c' : Conn)
    → All (λ b. (b == b'/') ≡ false) name
    → length name < 990
    → (send_file size (some (failing s)) (dir ++ b'/' ∷ name) c ≡ waiting)
      × (body_loop true k rest c' ≡ waiting)
unfolding send_file
send_file-endless k size s rest dir name c c' plain short = (
  rw (after_last-append dir name plain) (
      and_then-waiting _ _
        (Flows-and_then _ _
          (Flows-and_then _ _
            (Flows-and_then _ _ (Flows-and_then _ _ (say_once-Flows _ c) (say_once-Flows _))
              (say_once-Flows _))
            (say_name-Flows name short))
          (say_once-Flows _))
        (body_loop-waiting (suc (length s)) s)),
  body_loop-waiting k rest c',
)

-- The log is never reached.
pub response_ok-waiting :
    (log_opens : Bool) (lt : Tm) (disk : Disk) (size : ℕ) (opened : Option OpenFile) (path : Bytes)
    (c : Conn)
    → send_file size opened path c ≡ waiting
    → response_ok log_opens lt size opened path c disk ≡ waiting
unfolding response_ok
response_ok-waiting log_opens lt disk size opened path c e =
    ap
      (λ m. and_then m (λ (c' : Conn).
        and_then (entries_for log_opens (read_failed opened) lt disk (after_last b'/' path))
          (λ (d : Disk). ok (c', d))))
      e
