-- ===== src/Page/Texts.antt =====
-- The error pages as they arrive.
use http_callback_serve_vers.Base.{
  suc, ◌+◌, ◌*◌, ◌≤◌, ◌<◌, List, [], ◌∷◌, ◌++◌, ◌≡◌, refl, sym, ◌∙◌, ap, arith, Bytes, codes,
  length, drop, drop-drop, All, length-append, length-drop, ok, append_assoc, append-nil,
}
use http_callback_serve_vers.Io.{Conn, conn}
use http_callback_serve_vers.Accept.{buffsize}
use http_callback_serve_vers.Page.{
  Action, unknow, error_method, print_into, say_arrays, bad_request, conti_request, wrong_path,
  toolong_url, bad_http,
}
use http_callback_serve_vers.Page.Delivers.{
  Roomy, drop-Roomy, Delivers, >>-Delivers, say-Delivers, say_once-Delivers, http_send_at,
}

-- The page of `unknow`. There is no line end behind the server's name: it runs into the header that
-- follows.
abbrev pub not_found_page : Bytes
not_found_page =
    codes "HTTP/1.0 404 NOT FOUND\r\n"
    ++ codes "httpd of file get and sent system"
    ++ codes "Content-Type: text/html\r\n"
    ++ codes "Connection: close\r\n"
    ++ codes "\r\n"
    ++ codes "<HTML><TITLE>Not Found</TITLE>\r\n"
    ++ codes "<BODY><P>The server could not fulfill\r\n"
    ++ codes "your request because the resource specified\r\n"
    ++ codes "is unavailable or nonexistent.\r\n"
    ++ codes "</BODY></HTML>\r\n"

unknow-Delivers : Delivers 64 unknow 10 not_found_page
unfolding unknow
unknow-Delivers =
    (>>-Delivers
      (>>-Delivers
        (>>-Delivers
          (>>-Delivers
            (>>-Delivers
              (>>-Delivers
                (>>-Delivers
                  (>>-Delivers
                    (>>-Delivers
                      (say-Delivers 64 (codes "HTTP/1.0 404 NOT FOUND\r\n") (omega arith)
                        (omega arith))
                      (say-Delivers 64 (codes "httpd of file get and sent system") (omega arith)
                        (omega arith)))
                    (say-Delivers 64 (codes "Content-Type: text/html\r\n") (omega arith)
                      (omega arith)))
                  (say_once-Delivers 64 (codes "Connection: close\r\n") (omega arith)))
                (say-Delivers 64 (codes "\r\n") (omega arith) (omega arith)))
              (say-Delivers 64 (codes "<HTML><TITLE>Not Found</TITLE>\r\n") (omega arith)
                (omega arith)))
            (say-Delivers 64 (codes "<BODY><P>The server could not fulfill\r\n") (omega arith)
              (omega arith)))
          (say-Delivers 64 (codes "your request because the resource specified\r\n") (omega arith)
            (omega arith)))
        (say-Delivers 64 (codes "is unavailable or nonexistent.\r\n") (omega arith) (omega arith)))
      (say-Delivers 64 (codes "</BODY></HTML>\r\n") (omega arith) (omega arith)))

-- The page of `error_method`, with status 501 and the same missing line end.
abbrev pub method_page : Bytes
method_page =
    codes "HTTP/1.0 501 Method Not Implemented\r\n"
    ++ codes "httpd of file get and sent system"
    ++ codes "Content-Type: text/html\r\n"
    ++ codes "\r\n"
    ++ codes "<HTML><HEAD><TITLE>Method Not Implemented\r\n"
    ++ codes "</TITLE></HEAD>\r\n"
    ++ codes "<BODY><P>HTTP request method not supported.\r\n"
    ++ codes "</BODY></HTML>\r\n"

error_method-Delivers : Delivers 64 error_method 8 method_page
unfolding error_method
error_method-Delivers =
    (>>-Delivers
      (>>-Delivers
        (>>-Delivers
          (>>-Delivers
            (>>-Delivers
              (>>-Delivers
                (>>-Delivers
                  (say_once-Delivers 64 (codes "HTTP/1.0 501 Method Not Implemented\r\n")
                    (omega arith))
                  (say_once-Delivers 64 (codes "httpd of file get and sent system") (omega arith)))
                (say_once-Delivers 64 (codes "Content-Type: text/html\r\n") (omega arith)))
              (say_once-Delivers 64 (codes "\r\n") (omega arith)))
            (say_once-Delivers 64 (codes "<HTML><HEAD><TITLE>Method Not Implemented\r\n")
              (omega arith)))
          (say_once-Delivers 64 (codes "</TITLE></HEAD>\r\n") (omega arith)))
        (say_once-Delivers 64 (codes "<BODY><P>HTTP request method not supported.\r\n")
          (omega arith)))
      (say_once-Delivers 64 (codes "</BODY></HTML>\r\n") (omega arith)))

-- On a connection with room for 64 bytes in each of its answers, of which there are ten or more, `unknow`
-- takes ten of them and sends its page whole, and nothing else.
pub unknow-page :
    (c : Conn)
    → Roomy 64 c.answers
    → 10 ≤ length c.answers
    → unknow c ≡ ok (conn (drop 10 c.answers) (c.wire ++ not_found_page))
unknow-page c roomy enough = unknow-Delivers c roomy enough

-- On a connection with room for 64 bytes in each of its answers, of which there are eight or more,
-- `error_method` takes eight of them and sends its page whole, and nothing else.
pub error_method-page :
    (c : Conn)
    → Roomy 64 c.answers
    → 8 ≤ length c.answers
    → error_method c ≡ ok (conn (drop 8 c.answers) (c.wire ++ method_page))
error_method-page c roomy enough = error_method-Delivers c roomy enough

-- The arrays that go out, one for each line.
abbrev pub arrays : List Bytes → Bytes → Bytes
arrays [] memory = []
arrays (line ∷ lines) memory = print_into memory line ++ arrays lines (print_into memory line)

length-print_into :
    (memory line : Bytes)
    → length memory ≡ buffsize
    → length line < buffsize
    → length (print_into memory line) ≡ buffsize
length-print_into memory line e h = omega (
  arith,
  length-append line (0 ∷ drop (suc (length line)) memory),
  length-drop (suc (length line)) memory,
)

length-arrays :
    (lines : List Bytes) (memory : Bytes)
    → All (λ line. length line < buffsize) lines
    → length memory ≡ buffsize
    → length (arrays lines memory) ≡ length lines * buffsize
length-arrays [] memory small e = omega arith
length-arrays (line ∷ lines) memory small e =
    let here = length-print_into memory line e small.0 in
    let more = length-arrays lines (print_into memory line) small.1 here in
    omega (arith, length-append (print_into memory line) (arrays lines (print_into memory line)))

say_arrays-arrays :
    (lines : List Bytes) (memory : Bytes) (c : Conn)
    → All (λ line. length line < buffsize) lines
    → length memory ≡ buffsize
    → Roomy buffsize c.answers
    → length lines ≤ length c.answers
    → say_arrays lines memory c
      ≡ ok (conn (drop (length lines) c.answers) (c.wire ++ arrays lines memory))
unfolding say_arrays
say_arrays-arrays [] memory c small e roomy enough = rw append-nil
say_arrays-arrays (line ∷ lines) memory c small e roomy enough =
    let array = print_into memory line in
    let here = length-print_into memory line e small.0 in
    let sent =
      http_send_at buffsize buffsize array c.answers c.wire here (omega arith) (omega arith)
        (omega arith) roomy (omega arith) in
    let c' = conn (drop 1 c.answers) (c.wire ++ array) in
    let one : 1 + length lines ≡ suc (length lines) = omega arith in
    rw sent (
      say_arrays-arrays lines array c' small.1 here (drop-Roomy 1 buffsize c.answers roomy)
        (omega (arith, length-drop 1 c.answers))
      ∙ rw (
        drop-drop 1 (length lines) c.answers,
        one,
        append_assoc c.wire array (arrays lines array),
      ))

-- The page took five answers and sent these lines, one array of `buffsize` bytes for each: the text of
-- the line, a zero byte, and what the array held behind it, at first the bytes of `memory`.
abbrev pub sent_arrays : List Bytes → Bytes → Bytes
sent_arrays [] memory = []
sent_arrays (line ∷ lines) memory =
    let array = line ++ 0 ∷ drop (suc (length line)) memory in array ++ sent_arrays lines array

abbrev pub SentArrays : (Bytes → Action) → List Bytes → Bytes → Conn → Type 0
SentArrays page lines memory c =
    (page memory c ≡ ok (conn (drop 5 c.answers) (c.wire ++ sent_arrays lines memory)))
    × (length (sent_arrays lines memory) ≡ 5 * buffsize)

sent_arrays-arrays :
    (lines : List Bytes) (memory : Bytes) → arrays lines memory ≡ sent_arrays lines memory
sent_arrays-arrays [] memory = refl
sent_arrays-arrays (line ∷ lines) memory =
    ap (λ l. print_into memory line ++ l) (sent_arrays-arrays lines (print_into memory line))

page-SentArrays :
    (lines : List Bytes) (memory : Bytes) (c : Conn)
    → All (λ l. length l < buffsize) lines
    → length lines ≡ 5
    → length memory ≡ buffsize
    → Roomy buffsize c.answers
    → 5 ≤ length c.answers
    → SentArrays (say_arrays lines) lines memory c
page-SentArrays lines memory c small five e roomy enough =
    let same = sent_arrays-arrays lines memory in
    (
      say_arrays-arrays lines memory c small e roomy (omega arith)
          ∙ ap (λ j. ok (conn (drop j c.answers) (c.wire ++ arrays lines memory))) five
          ∙ ap (λ w. ok (conn (drop 5 c.answers) (c.wire ++ w))) same,
      sym (ap length same) ∙ length-arrays lines memory small e ∙ ap (λ n. n * buffsize) five,
    )

-- The lines of such a page: the status, the type of the content, an empty line, what is wrong, and an
-- advice that is the same on all.
abbrev pub page_lines : Bytes → Bytes → List Bytes
page_lines status wrong =
    status
    ∷ codes "Content-type: text/html\r\n"
    ∷ codes "\r\n"
    ∷ wrong
    ∷ codes "such as a POST without a Content-Length.\r\n"
    ∷ []

-- The pages for 400, 100, 303, 411 and 505 each send five whole arrays of `buffsize` bytes, on a connection
-- with room for that many in each of five answers or more. Each array is the text of a line, a zero
-- byte, and what the array held behind it: the bytes on the stack, under the lines sent before. The
-- lines are the status line, the type, an empty line, and two lines of text.
pub pages-SentArrays :
    (memory : Bytes) (c : Conn)
    → length memory ≡ buffsize
    → Roomy buffsize c.answers
    → 5 ≤ length c.answers
    → SentArrays bad_request
        (page_lines
          (codes "HTTP/1.0 400 BAD REQUEST\r\n")
          (codes "<P>Your browser sent a bad request, "))
        memory
        c
      × SentArrays conti_request
          (page_lines
            (codes "HTTP/1.0 100 REQUEST not full\r\n")
            (codes "<P>Your browser sent a missing data, "))
          memory
          c
      × SentArrays wrong_path
          (page_lines
            (codes "HTTP/1.0 303 BAD PATH\r\n")
            (codes "<P>Your browser sent a wrong localpath, "))
          memory
          c
      × SentArrays toolong_url
          (page_lines
            (codes "HTTP/1.0 411 BAD REQUEST\r\n")
            (codes "<P>Your browser sent a so long request that cant read full, "))
          memory
          c
      × SentArrays bad_http
          (page_lines (codes "HTTP/1.0 505 BAD REQUEST\r\n") (codes "<P>Your http is not fit, "))
          memory
          c
unfolding bad_request conti_request wrong_path toolong_url bad_http
pages-SentArrays memory c e roomy enough = (
  page-SentArrays _ memory c (omega arith) refl e roomy enough,
  page-SentArrays _ memory c (omega arith) refl e roomy enough,
  page-SentArrays _ memory c (omega arith) refl e roomy enough,
  page-SentArrays _ memory c (omega arith) refl e roomy enough,
  page-SentArrays _ memory c (omega arith) refl e roomy enough,
)
