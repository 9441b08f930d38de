-- ===== src/Handler/Reply.antt =====
-- `http_module_handler_response` of http_module/http_module.h against a description of the answer to each
-- request.
use http_callback_serve_vers.Base.{
  ℕ, true, false, [], ◌∷◌, ◌++◌, Option, none, some, ◌≡◌, ◌∙◌, ap, and_then, refl, arith, Bytes,
  Run, ok, waiting, Bool-cases, inl, inr, if◌then◌else◌, All, ◌==◌, length, ◌<◌,
}
use http_callback_serve_vers.Io.{Conn}
use http_callback_serve_vers.Log.{Disk}
use http_callback_serve_vers.Request.{HttpRequest}
use http_callback_serve_vers.Accept.{Kind, is_method, buffsize}
use http_callback_serve_vers.Accept.Locate.{asked_path, found, locate-found}
use http_callback_serve_vers.Page.{unknow, error_method}
use http_callback_serve_vers.Page.Endless.{failing, send_file-endless, response_ok-waiting}
use http_callback_serve_vers.Handler.{Files, respond, answer, http_module_handler_response}
use http_callback_serve_vers.Handler.Answers.{IsAsked, handler_split}

-- The page for what the file system has at the path, which for a directory is sent as a file would be.
abbrev pub reply_to : Files → Bytes → Option Kind → Conn → Run Conn
reply_to files url none = unknow
reply_to files url (some kind) = respond files (found url (some kind)).path

abbrev pub reply : Files → HttpRequest → Conn → Run Conn
reply files req c =
    if is_method req.method
    then reply_to files req.url (files.stat (asked_path req.url)) c
    else error_method c

answer-found :
    (files : Files) (memory url : Bytes) (kind : Option Kind) (c : Conn)
    → answer files memory (found url kind) c ≡ reply_to files url kind c
answer-found files memory url none c = refl
answer-found files memory url (some Kind.file) c = refl
answer-found files memory url (some Kind.directory) c = refl

module _ (files : Files) (memory : Bytes) (req : HttpRequest) (clean : Bytes) (d : ℕ) (more : Bytes)
    (asked : IsAsked req clean d) (c : Conn) where
  -- The answer depends on the method, the URL and the file system only: a method other than GET and POST
  -- gets the page of `error_method`, a name that does not exist that of `unknow`, and all else is
  -- sent by `response_ok`. Method and URL are plain words that fit their arrays together with what
  -- the stack holds behind them.
  pub handler_reply :
      http_module_handler_response files (clean ++ d ∷ more) memory req c ≡ reply files req c
  handler_reply =
      let looked = locate-found files.stat buffsize req.url (omega (arith, asked.fits)) in
      handler_split files memory req clean d more asked c
      ∙ elim (Bool-cases (is_method req.method)) [
        | inl h ↦
            rw (h, looked) (answer-found files memory req.url (files.stat (asked_path req.url)) c)
        | inr h ↦ rw h refl
      ]

  -- GET or POST of a file or a directory that `fopen` opens, and whose reading fails.
  pub handler_endless :
      (kind : Kind) (s dir name : Bytes)
      → is_method req.method ≡ true
      → files.stat (asked_path req.url) ≡ some kind
      → (found req.url (some kind)).path ≡ dir ++ b'/' ∷ name
      → files.contents (dir ++ b'/' ∷ name) ≡ some (failing s)
      → All (λ b. (b == b'/') ≡ false) name
      → length name < 990
      → http_module_handler_response files (clean ++ d ∷ more) memory req c ≡ waiting
  handler_endless kind s dir name known present path opened plain short =
      let size = files.size (dir ++ b'/' ∷ name) in
      handler_reply
      ∙ rw (known, present, path)
          (rw opened (
            ap (λ m. and_then m (λ (r : Conn × Disk). ok r.0))
              (response_ok-waiting files.log_opens files.now files.log size _ _ c
                (send_file-endless 0 size s [] dir name c c plain short).0)))
