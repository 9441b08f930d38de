-- ===== src/Diagnostics.antt =====
-- How the code reports a failure and ends the process: inc/unix_error.h, inc/http_error.h, and the macros
-- `err_exit`, `err_dump`, `check` and `error_msg` of inc/common.h, inc/http_ipc.h and utils/utils.h. The
-- outcome `exit` of a run carries the message alone; this is the text around it.
use http_callback_serve_vers.Base.{ℕ, [], ◌∷◌, ◌++◌, Bytes, codes, ◌≡◌, refl, sym, append-nil, All}
use http_callback_serve_vers.CString.{decimal}

-- What the process leaves: its exit status, and what it wrote to the standard error.
pub record Report : Type 0 where
  pub status : ℕ
  pub text : Bytes

-- `__TIME__`, `__FILE__`, `__func__` and `__LINE__`, and `errno` with its text from `strerror`.
pub record Place : Type 0 where
  pub time : Bytes
  pub file : Bytes
  pub func : Bytes
  pub line : ℕ
  pub errno : ℕ
  pub strerror : Bytes

unfoldable pub perror : Bytes → Bytes → Bytes
perror [] strerror = strerror ++ codes "\n"
perror (c ∷ msg) strerror = (c ∷ msg) ++ (codes ": " ++ strerror ++ codes "\n")

perror-message :
    (msg strerror : Bytes) → (a : Bytes) × (b : Bytes) × (perror msg strerror ≡ a ++ msg ++ b)
unfolding perror
perror-message [] strerror = ([], strerror ++ codes "\n", refl)
perror-message (c ∷ msg) strerror = ([], codes ": " ++ strerror ++ codes "\n", refl)

-- `unix_error(msg)` of inc/unix_error.h.
unfoldable pub unix_error : Place → Bytes → Report
unix_error at msg = record { status = 0; text = msg ++ (codes ":" ++ at.strerror ++ codes "\n") }

-- The part that `unix_error` of inc/http_error.h and `check` have in common.
abbrev pub at_line : Place → Bytes → Bytes → Bytes
at_line at msg rest =
    codes "time:"
    ++ at.time
    ++ codes ":error::"
    ++ msg
    ++ (codes "::"
        ++ at.strerror
        ++ codes "::line number:"
        ++ decimal at.line
        ++ codes ":function:"
        ++ at.func
        ++ rest)

-- `unix_error(msg)` of inc/http_error.h.
unfoldable pub http_unix_error : Place → Bytes → Report
http_unix_error at msg = record { status = 0; text = at_line at msg (codes "\n") }

unfoldable pub check : Place → Bytes → Report
check at msg = record {
  status = 0;
  text = at_line at msg (codes "::filename:" ++ at.file ++ codes "\n");
}

unfoldable pub err_exit : Place → Bytes → Report
unfolding perror
err_exit at msg = record { status = 0; text = perror msg at.strerror }

unfoldable pub err_dump : Place → Bytes → Report
err_dump at msg = record { status = 0; text = at.strerror ++ codes " " ++ msg }

-- `error_msg(msg)` with no further arguments, which does not end the process.
unfoldable pub error_msg : Place → Bytes → Bytes
error_msg at msg =
    codes "["
    ++ at.file
    ++ codes ":"
    ++ at.func
    ++ codes ":"
    ++ decimal at.line
    ++ codes "][error "
    ++ decimal at.errno
    ++ codes ":"
    ++ at.strerror
    ++ codes "]"
    ++ msg
    ++ codes "\r\n"

abbrev pub Tells : Bytes → Report → Type 0
Tells msg r = (r.status ≡ 0) × (a : Bytes) × (b : Bytes) × (r.text ≡ a ++ msg ++ b)

-- Whichever of them reports a failure: the text has the message in it, and the parent process is told
-- that all went well.
pub reports-Tells :
    (at : Place) (msg : Bytes)
    → All (Tells msg) (
        unix_error at msg
        ∷ http_unix_error at msg
        ∷ check at msg
        ∷ err_exit at msg
        ∷ err_dump at msg
        ∷ [])
unfolding unix_error http_unix_error check err_exit err_dump
reports-Tells at msg =
    let (before_msg, behind_msg, perrored) = perror-message msg at.strerror in
    let before = codes "time:" ++ at.time ++ codes ":error::" in
    (
      (refl, [], codes ":" ++ at.strerror ++ codes "\n", refl),
      (
        (refl, before, _, refl),
        (
          (refl, before, _, refl),
          (
            (refl, before_msg, behind_msg, perrored),
            (
              (
                refl,
                at.strerror ++ codes " ",
                [],
                sym (append-nil (at.strerror ++ codes " " ++ msg)),
              ),
              tt,
            ),
          ),
        ),
      ),
    )
