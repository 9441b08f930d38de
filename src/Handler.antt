-- ===== src/Handler.antt =====
-- `http_module_handler_response` of http_module/http_module.h, which answers a parsed request.
pub mod Answers
pub mod Reply
pub mod Escape
use http_callback_serve_vers.Base.{
  ℕ, Bool, true, false, List, [], ◌∷◌, ◌++◌, Option, ltb, ◌==◌, if◌then◌else◌, Bytes, length, Run,
  ok, fault, and_then, out_of_bounds,
}
use http_callback_serve_vers.Io.{Conn}
use http_callback_serve_vers.Request.{HttpRequest}
use http_callback_serve_vers.Accept.{
  Stat, Accepted, accept_request, buffsize, http_error_not_find, http_error_method,
  http_error_request, http_success,
}
use http_callback_serve_vers.Log.{Tm, Disk}
use http_callback_serve_vers.Page.{OpenFile, response_ok, unknow, error_method, wrong_path}

-- The file system that the handler asks: what `stat` says of a path, the size it reports, and what
-- `fopen` opens; whether it opens the log, the time, and the files of the log.
pub record Files : Type 0 where
  pub stat : Stat
  pub size : Bytes → ℕ
  pub contents : Bytes → Option OpenFile
  pub log_opens : Bool
  pub now : Tm
  pub log : Disk

-- `response_ok(clientfd, localPath)`: the connection behind it. The entries of the log are those of
-- `Page.response_ok`; nothing reads them, and they are dropped here.
abbrev pub respond : Files → Bytes → Conn → Run Conn
respond files path c =
    and_then
      (response_ok files.log_opens files.now (files.size path) (files.contents path) path c
        files.log)
      (λ (r : Conn × Disk). ok r.0)

-- The chain of tests behind `accept_request`; any other status sends nothing.
abbrev pub answer : Files → Bytes → Accepted → Conn → Run Conn
answer files memory a c =
    if a.status == http_success
    then respond files a.path c
    else if a.status == http_error_not_find
    then unknow c
    else if a.status == http_error_method
    then error_method c
    else if a.status == http_error_request
    then wrong_path memory c
    else ok c

-- `http_module_handler_response(req, clientfd)`. `junk` and `memory` are what the arrays of
-- `accept_request` and of the page hold at first.
unfoldable pub http_module_handler_response : Files → Bytes → Bytes → HttpRequest → Conn → Run Conn
http_module_handler_response files junk memory req c =
    let name = req.method ++ 32 ∷ req.url in
    if ltb (length name) buffsize
    then and_then (accept_request files.stat buffsize junk name)
        (λ (a : Accepted). answer files memory a c)
    else fault out_of_bounds
