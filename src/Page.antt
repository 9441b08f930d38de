-- ===== src/Page.antt =====
-- The answers of http_module/http_module.h: `response_ok` and the error pages. An action takes the
-- connection to the connection behind it; the results of `send` and `http_send` are dropped, as the
-- source drops them. Diagnostic prints are left out.
pub mod Delivers
pub mod Texts
pub mod Download
pub mod Endless
use http_callback_serve_vers.Base.{
  ℕ, zero, suc, ◌+◌, ◌-◌, Bool, true, false, List, [], ◌∷◌, ◌++◌, Option, none, some, ltb,
  if◌then◌else◌, Bytes, codes, length, take, drop, Run, ok, fault, waiting, and_then, out_of_bounds,
  null_pointer, ℤ, not, ◌&&◌,
}
use http_callback_serve_vers.CString.{after_last, decimal}
use http_callback_serve_vers.Io.{Conn, http_send, send_once}
use http_callback_serve_vers.Accept.{buffsize}
use http_callback_serve_vers.Log.{Tm, Disk, log_download}

abbrev pub Action : Type 0
Action = Conn → Run Conn

infixl 5 ◌>>◌
abbrev pub ◌>>◌ : Action → Action → Action
◌>>◌ m k c = and_then (m c) k

-- `sprintf(buf, …); http_send(sockfd, buf, strlen(buf))`.
unfoldable pub say : Bytes → Action
say line c = and_then (http_send (length line) line c) (λ (r : ℤ × Conn). ok r.1)

-- `sprintf(buf, …); send(sockfd, buf, strlen(buf), 0)`.
unfoldable pub say_once : Bytes → Action
say_once line c =
    and_then (send_once c.answers (length line) line c.wire) (λ (r : ℤ × Conn). ok r.1)

-- SERVER_TYPE.
abbrev pub server_type : Bytes
server_type = codes "httpd of file get and sent system"

-- `unknow(sockfd)`: 404.
unfoldable pub unknow : Action
unknow =
    say (codes "HTTP/1.0 404 NOT FOUND\r\n")
    >> say server_type
    >> say (codes "Content-Type: text/html\r\n")
    >> say_once (codes "Connection: close\r\n")
    >> say (codes "\r\n")
    >> say (codes "<HTML><TITLE>Not Found</TITLE>\r\n")
    >> say (codes "<BODY><P>The server could not fulfill\r\n")
    >> say (codes "your request because the resource specified\r\n")
    >> say (codes "is unavailable or nonexistent.\r\n")
    >> say (codes "</BODY></HTML>\r\n")

-- `error_method(sockfd)`: 501.
unfoldable pub error_method : Action
error_method =
    say_once (codes "HTTP/1.0 501 Method Not Implemented\r\n")
    >> say_once server_type
    >> say_once (codes "Content-Type: text/html\r\n")
    >> say_once (codes "\r\n")
    >> say_once (codes "<HTML><HEAD><TITLE>Method Not Implemented\r\n")
    >> say_once (codes "</TITLE></HEAD>\r\n")
    >> say_once (codes "<BODY><P>HTTP request method not supported.\r\n")
    >> say_once (codes "</BODY></HTML>\r\n")

-- `sprintf(buf, line)`: the line, its terminator, and what stood behind in the array.
abbrev pub print_into : Bytes → Bytes → Bytes
print_into memory line = line ++ 0 ∷ drop (suc (length line)) memory

-- `sprintf(buf, line); http_send(sockfd, buf, sizeof(buf))`, once for each line: the whole array goes
-- out each time.
unfoldable pub say_arrays : List Bytes → Bytes → Action
say_arrays [] memory c = ok c
say_arrays (line ∷ lines) memory c =
    let memory' = print_into memory line in
    and_then (http_send buffsize memory' c) (λ (r : ℤ × Conn). say_arrays lines memory' r.1)

-- The five pages that are sent so. The argument is what the array holds at first.
unfoldable pub bad_request : Bytes → Action
bad_request = say_arrays (
    codes "HTTP/1.0 400 BAD REQUEST\r\n"
    ∷ codes "Content-type: text/html\r\n"
    ∷ codes "\r\n"
    ∷ codes "<P>Your browser sent a bad request, "
    ∷ codes "such as a POST without a Content-Length.\r\n"
    ∷ [])

unfoldable pub conti_request : Bytes → Action
conti_request = say_arrays (
    codes "HTTP/1.0 100 REQUEST not full\r\n"
    ∷ codes "Content-type: text/html\r\n"
    ∷ codes "\r\n"
    ∷ codes "<P>Your browser sent a missing data, "
    ∷ codes "such as a POST without a Content-Length.\r\n"
    ∷ [])

unfoldable pub wrong_path : Bytes → Action
wrong_path = say_arrays (
    codes "HTTP/1.0 303 BAD PATH\r\n"
    ∷ codes "Content-type: text/html\r\n"
    ∷ codes "\r\n"
    ∷ codes "<P>Your browser sent a wrong localpath, "
    ∷ codes "such as a POST without a Content-Length.\r\n"
    ∷ [])

unfoldable pub toolong_url : Bytes → Action
toolong_url = say_arrays (
    codes "HTTP/1.0 411 BAD REQUEST\r\n"
    ∷ codes "Content-type: text/html\r\n"
    ∷ codes "\r\n"
    ∷ codes "<P>Your browser sent a so long request that cant read full, "
    ∷ codes "such as a POST without a Content-Length.\r\n"
    ∷ [])

unfoldable pub bad_http : Bytes → Action
bad_http = say_arrays (
    codes "HTTP/1.0 505 BAD REQUEST\r\n"
    ∷ codes "Content-type: text/html\r\n"
    ∷ codes "\r\n"
    ∷ codes "<P>Your http is not fit, "
    ∷ codes "such as a POST without a Content-Length.\r\n"
    ∷ [])

-- What `fread` gives from an open file: these bytes, and then the end, or a failure for good, as from a
-- directory.
pub record OpenFile : Type 0 where
  pub bytes : Bytes
  pub fails : Bool

-- `while(!feof(localFp))` over the bytes that are left: a short `fread` sets the end of the file, unless it
-- failed, where `feof` never holds. The fuel is one more than the bytes of the file; for a file that
-- fails no fuel is enough.
unfoldable pub body_loop : Bool → ℕ → Bytes → Action
body_loop fails zero rest c = waiting
body_loop fails (suc k) rest c =
    let part = take buffsize rest in
    let next = λ (c' : Conn). body_loop fails k (drop buffsize rest) c' in
    and_then (http_send (length part) part c)
      (λ (r : ℤ × Conn). if ltb (length part) buffsize && not fails then ok r.1 else next r.1)

-- `sprintf` into an array of BUFFER_SIZE bytes, and `send`.
unfoldable pub say_bounded : Bytes → Action
say_bounded line c = if ltb (length line) buffsize then say_once line c else fault out_of_bounds

-- The line with the name, which `strrchr` has found, or which is read at address 1.
abbrev pub say_name : Option Bytes → Action
say_name none c = fault null_pointer
say_name (some name) c =
    say_bounded (codes "Content-Disposition: filename=" ++ name ++ codes "\r\n") c

-- The loop over the file, which `fopen` has opened, or `feof` on a null pointer.
abbrev pub send_body : Option OpenFile → Action
send_body none c = fault null_pointer
send_body (some opened) c = body_loop opened.fails (suc (length opened.bytes)) opened.bytes c

-- `response_ok(sockFd, pathName)` up to the end of its loop, for the size that `stat` reports and what
-- `fopen` opens, or nothing.
unfoldable pub send_file : ℕ → Option OpenFile → Bytes → Action
unfolding body_loop say_bounded
send_file size opened path =
    say_once (codes "HTTP/1.0 200 OK \r\n")
    >> say_once (codes "Content-Length: " ++ decimal size ++ codes "\r\n")
    >> say_once (codes "Content-Type: application/octet-stream\r\n")
    >> say_name (after_last b'/' path)
    >> say_once (codes "Connection: close\r\n\r\n")
    >> send_body opened

abbrev pub read_failed : Option OpenFile → Bool
read_failed none = false
read_failed (some opened) = opened.fails

-- The entries for the name that `strrchr` found, in a file system where `log_opens` says whether `fopen`
-- opens the log: if not, `fprintf` writes through a null pointer.
abbrev pub entries_for : Bool → Bool → Tm → Disk → Option Bytes → Run Disk
entries_for log_opens failed lt disk none = fault null_pointer
entries_for log_opens failed lt disk (some name) = log_download log_opens failed lt name disk

-- `response_ok(sockFd, pathName)` as a whole, at the time that `localtime` gives: what it leaves on the
-- connection and in the files of the log.
unfoldable pub response_ok :
    Bool → Tm → ℕ → Option OpenFile → Bytes → Conn → Disk → Run (Conn × Disk)
unfolding send_file log_download
response_ok log_opens lt size opened path c disk =
    and_then (send_file size opened path c) (λ (c' : Conn).
      and_then (entries_for log_opens (read_failed opened) lt disk (after_last b'/' path))
        (λ (d : Disk). ok (c', d)))
