-- ===== src/Tests/EscapeTests.antt =====
-- A test of a URL that climbs out of the directory, over a file system that tells files by their names.
use http_callback_serve_vers.Base.{
  true, List, [], ◌∷◌, ◌++◌, Option, none, some, if◌then◌else◌, Bytes, codes, ok, ◌≡◌, refl, sym,
  ◌∙◌, ap, arith, inl, inr, Option-cases,
}
use http_callback_serve_vers.CString.{after_last, is_space, strcasecmp_eq}
use http_callback_serve_vers.Io.{SendAnswer, conn}
use http_callback_serve_vers.Request.{HttpRequest}
use http_callback_serve_vers.Accept.{Kind, directory, file}
use http_callback_serve_vers.Log.{same_bytes}
use http_callback_serve_vers.Page.Download.{readable, header_block}
use http_callback_serve_vers.Handler.{Files, http_module_handler_response}
use http_callback_serve_vers.Handler.Answers.{IsAsked}
use http_callback_serve_vers.Handler.Escape.{GoesUp, path_of, handler_escape}
use http_callback_serve_vers.Tests.ServeTests.{noon, asked, wide}

abbrev by_name : Option Bytes → Kind
by_name none = directory
by_name (some name) = if same_bytes name (codes "passwd") then file else directory

abbrev machine : Files
machine = record {
  stat = λ p. some (by_name (after_last b'/' p));
  size = λ p. 9;
  contents = λ p. some (readable (codes "root:x:0:"));
  log_opens = true;
  now = noon;
  log = λ p. [];
}

-- Only what follows counts.
after_last-behind : (s t : Bytes) → after_last b'/' (s ++ b'/' ∷ t) ≡ after_last b'/' (b'/' ∷ t)
unfolding after_last
after_last-behind [] t = refl
after_last-behind (x ∷ s) t = elim (Option-cases (after_last b'/' t)) [
  | inl h ↦ rw (after_last-behind s t, h) refl
  | inr (r, h) ↦ rw (after_last-behind s t, h) refl
]

machine-GoesUp : GoesUp machine
machine-GoesUp front back name rest e =
    let s = path_of front ++ b'/' ∷ name in
    let last =
      after_last-behind s (codes "../" ++ rest)
      ∙ after_last-behind (codes "/..") rest
      ∙ sym (after_last-behind (path_of front) rest) in
    record { same_stat = ap (λ o. some (by_name o)) last; same_size = refl; same_contents = refl }

abbrev password_file : HttpRequest
password_file = record asked { url = codes "/../../../../etc/passwd" }

password_file-IsAsked : IsAsked password_file [] 32
unfolding is_space
password_file-IsAsked = ground arith

handler_escape_example :
    (left : List SendAnswer) × (http_module_handler_response machine
        (32 ∷ codes "junk")
        []
        password_file
        wide
      ≡ ok (conn left (header_block 9 (codes "passwd") ++ codes "root:x:0:")))
unfolding strcasecmp_eq after_last same_bytes
handler_escape_example =
    handler_escape machine [] password_file [] 32 (codes "junk") password_file-IsAsked wide
      (codes "etc/passwd") (codes "/etc") b'p' (codes "asswd") (codes "root:x:0:") machine-GoesUp
      refl refl refl refl refl refl (ground arith) (omega arith) (omega arith) (omega arith)
      (omega arith)
