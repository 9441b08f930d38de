-- ===== src/Handler/Answers.antt =====
-- What a client gets for a request that was parsed.
use http_callback_serve_vers.Base.{
  ℕ, ◌+◌, ◌/◌, ◌^◌, ◌≤◌, ◌<◌, true, false, List, ◌∷◌, ◌++◌, ◌≡◌, ◌∙◌, refl, ap, arith, Bytes,
  length, All, length-append, Run, ok, and_then, lt→ltb, none, some, ◌==◌, if◌then◌else◌,
}
use http_callback_serve_vers.CString.{is_space, strcasecmp_eq}
use http_callback_serve_vers.Tcp.Recv.{IsText}
use http_callback_serve_vers.Io.{Conn, conn, SendAnswer}
use http_callback_serve_vers.Request.{HttpRequest}
use http_callback_serve_vers.Accept.{
  file, Accepted, accepted, is_method, partsize, buffsize, locate, http_error_method,
}
use http_callback_serve_vers.Accept.Split.{IsSolid, accept_request-split}
use http_callback_serve_vers.Accept.Locate.{asked_path, locate-found}
use http_callback_serve_vers.Page.{response_ok, unknow, error_method}
use http_callback_serve_vers.Page.Delivers.{Roomy}
use http_callback_serve_vers.Page.Download.{
  readable, header_block, after_last-append, send_file-header_block,
}
use http_callback_serve_vers.Log.{Disk, log_out, log_err, log_download}
use http_callback_serve_vers.Handler.{Files, respond, answer, http_module_handler_response}

-- The method and the URL are plain words, and behind them the array of `accept_request` holds `clean`,
-- with no white space, then a white space, so soon that the URL still fits its own array.
pub record IsAsked (req : HttpRequest) (clean : Bytes) (d : ℕ) : Type 0 where
  pub method_text : IsText req.method
  pub method_solid : IsSolid req.method
  pub method_short : length req.method < partsize
  pub url_text : IsText req.url
  pub url_solid : IsSolid req.url
  pub clean_solid : IsSolid clean
  pub space : is_space d ≡ true
  pub fits : length req.url + 1 + length clean < partsize

-- `response_ok` for a file that is read to its end, where the log opens.
pub respond-header_block :
    (files : Files) (p dir name contents : Bytes) (c : Conn)
    → files.log_opens ≡ true
    → files.contents p ≡ some (readable contents)
    → p ≡ dir ++ b'/' ∷ name
    → All (λ b. (b == b'/') ≡ false) name
    → length name < 990
    → files.size p < 2 ^ 63
    → Roomy buffsize c.answers
    → length contents / buffsize + 6 ≤ length c.answers
    → (rest : List SendAnswer) × (respond files p c
        ≡ ok (conn rest (c.wire ++ header_block (files.size p) name ++ contents)))
unfolding response_ok log_download log_err log_out strcasecmp_eq
respond-header_block files p dir name contents c opens opened path plain short small roomy enough =
    let (rest, sent) =
      send_file-header_block (files.size p) contents dir name c small plain short roomy enough in
    let left : Bytes → Run Conn = λ q.
      and_then (response_ok true files.now (files.size p) (some (readable contents)) q c files.log)
        (λ (r : Conn × Disk). ok r.0) in
    (rest, rw (opens, opened) (ap left path ∙ rw sent (rw (after_last-append dir name plain) refl)))

module _ (files : Files) (memory : Bytes) (req : HttpRequest) (clean : Bytes) (d : ℕ) (more : Bytes)
    (asked : IsAsked req clean d) (c : Conn) where
  pub handler_split :
      http_module_handler_response files (clean ++ d ∷ more) memory req c
      ≡ and_then
          (if is_method req.method
            then locate files.stat buffsize req.url
            else ok (accepted http_error_method (req.method ++ 32 ∷ req.url)))
          (λ (a : Accepted). answer files memory a c)
  unfolding http_module_handler_response
  handler_split =
      let size = length-append req.method (32 ∷ req.url) in
      rw
        (lt→ltb (length (req.method ++ 32 ∷ req.url)) buffsize
          (omega (arith, size, asked.method_short, asked.fits)))
        (ap (λ (r : Run Accepted). and_then r (λ (a : Accepted). answer files memory a c))
          (accept_request-split req.method req.url asked.method_text asked.method_solid
            asked.method_short asked.url_text asked.url_solid files.stat buffsize clean d more
            asked.clean_solid asked.space asked.fits))

  -- A request with another method than GET and POST gets the page of `error_method`, where method and
  -- URL are plain words that fit their arrays together with what the stack holds behind them.
  pub handler_other_method :
      is_method req.method ≡ false
      → http_module_handler_response files (clean ++ d ∷ more) memory req c ≡ error_method c
  handler_other_method other = handler_split ∙ rw other

  -- GET or POST of a name that does not exist gets the page of `unknow`, where method and URL are plain
  -- words that fit their arrays together with what the stack holds behind them.
  pub handler_missing :
      is_method req.method ≡ true
      → files.stat (asked_path req.url) ≡ none
      → http_module_handler_response files (clean ++ d ∷ more) memory req c ≡ unknow c
  handler_missing known missing =
      let looked = locate-found files.stat buffsize req.url (omega (arith, asked.fits)) in
      handler_split ∙ rw (known, looked, missing)

  -- GET or POST of a file gets the header block and the bytes of that file, where its name has fewer than
  -- 990 bytes, its size as `stat` reports it is below 2^63, and the kernel takes each part at once,
  -- and the log opens.
  -- Method and URL are plain words that fit their arrays together with what the stack holds behind them.
  pub handler_download :
      (dir name contents : Bytes)
      → files.log_opens ≡ true
      → is_method req.method ≡ true
      → files.stat (asked_path req.url) ≡ some file
      → files.contents (asked_path req.url) ≡ some (readable contents)
      → asked_path req.url ≡ dir ++ b'/' ∷ name
      → All (λ b. (b == b'/') ≡ false) name
      → length name < 990
      → files.size (asked_path req.url) < 2 ^ 63
      → Roomy buffsize c.answers
      → length contents / buffsize + 6 ≤ length c.answers
      → (rest : List SendAnswer) × (http_module_handler_response files
            (clean ++ d ∷ more)
            memory
            req
            c
          ≡ ok (
              conn rest
                (c.wire ++ header_block (files.size (asked_path req.url)) name ++ contents)))
  handler_download dir name contents opens known present opened path plain short small roomy
        enough =
      let looked = locate-found files.stat buffsize req.url (omega (arith, asked.fits)) in
      let (rest, sent) =
        respond-header_block files (asked_path req.url) dir name contents c opens opened path plain
          short small roomy enough in
      (rest, handler_split ∙ rw (known, looked, present) sent)
