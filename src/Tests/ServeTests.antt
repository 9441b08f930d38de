-- ===== src/Tests/ServeTests.antt =====
-- Tests of the path lookup, the pages and the response handler.
use http_callback_serve_vers.Base.{
  true, codes, drop, replicate, ◌≡◌, refl, arith, List, [], ok, fault, out_of_bounds, none, some,
  Post, OnlyBounds,
}
use http_callback_serve_vers.CString.{is_space, strcasecmp_eq}
use http_callback_serve_vers.Io.{SendAnswer, room, Conn, conn}
use http_callback_serve_vers.Request.{HttpRequest}
use http_callback_serve_vers.Accept.{directory, file, Stat, accept_request, locate}
use http_callback_serve_vers.Accept.Split.{accept_request-split, accept_request-overrun}
use http_callback_serve_vers.Accept.Status.{KnownStatus, accept_request-KnownStatus}
use http_callback_serve_vers.Page.{
  error_method, bad_request, conti_request, wrong_path, toolong_url, bad_http,
}
use http_callback_serve_vers.Page.Texts.{
  method_page, error_method-page, SentArrays, page_lines, pages-SentArrays,
}
use http_callback_serve_vers.Page.Download.{readable}
use http_callback_serve_vers.Log.{Tm}
use http_callback_serve_vers.Handler.{Files}
use http_callback_serve_vers.Handler.Answers.{IsAsked}

abbrev pub roomy : List SendAnswer
roomy = replicate 12 (room 2000)

abbrev pub wide : Conn
wide = conn roomy []

abbrev pub all_files : Stat
all_files p = some file

abbrev pub all_directories : Stat
all_directories p = some directory

abbrev pub no_files : Stat
no_files p = none

accept_request-split_example :
    accept_request all_files 1024 (codes " rest") (codes "get /a.txt")
    ≡ locate all_files 1024 (codes "/a.txt")
unfolding is_space strcasecmp_eq
accept_request-split_example =
    accept_request-split (codes "get") (codes "/a.txt") (omega arith) (ground arith) (omega arith)
      (omega arith) (ground arith) all_files 1024 [] 32 (codes "rest") tt refl (omega arith)

accept_request-overrun_example :
    accept_request all_files 1024 (replicate 600 120) (codes "GET /a.txt") ≡ fault out_of_bounds
unfolding is_space
accept_request-overrun_example =
    accept_request-overrun (codes "GET") (codes "/a.txt") (omega arith) (ground arith) (omega arith)
      (omega arith) (ground arith) all_files 1024 (replicate 600 120) [] (ground arith)
      (omega arith)

accept_request-KnownStatus_example :
    Post OnlyBounds KnownStatus (accept_request no_files 1024 (codes " ") (codes "GET /"))
accept_request-KnownStatus_example =
    accept_request-KnownStatus no_files 1024 (codes " ") (codes "GET /")

abbrev pub asked : HttpRequest
asked = record {
  method = codes "GET";
  url = codes "/a.txt";
  version = codes "HTTP/1.1";
  nhead = [];
}

abbrev pub deleting : HttpRequest
deleting = record asked { method = codes "DELETE" }

error_method-page_example : error_method wide ≡ ok (conn (drop 8 roomy) method_page)
error_method-page_example = error_method-page wide (omega arith) (omega arith)

pages-SentArrays_example :
    SentArrays bad_request
      (page_lines
        (codes "HTTP/1.0 400 BAD REQUEST\r\n")
        (codes "<P>Your browser sent a bad request, "))
      (replicate 1024 170)
      wide
    × SentArrays conti_request
        (page_lines
          (codes "HTTP/1.0 100 REQUEST not full\r\n")
          (codes "<P>Your browser sent a missing data, "))
        (replicate 1024 170)
        wide
    × SentArrays wrong_path
        (page_lines
          (codes "HTTP/1.0 303 BAD PATH\r\n")
          (codes "<P>Your browser sent a wrong localpath, "))
        (replicate 1024 170)
        wide
    × SentArrays toolong_url
        (page_lines
          (codes "HTTP/1.0 411 BAD REQUEST\r\n")
          (codes "<P>Your browser sent a so long request that cant read full, "))
        (replicate 1024 170)
        wide
    × SentArrays bad_http
        (page_lines (codes "HTTP/1.0 505 BAD REQUEST\r\n") (codes "<P>Your http is not fit, "))
        (replicate 1024 170)
        wide
pages-SentArrays_example =
    pages-SentArrays (replicate 1024 170) wide refl (omega arith) (omega arith)

abbrev pub noon : Tm
noon = record { tm_year = 118; tm_mon = 4; tm_mday = 10; tm_hour = 12; tm_min = 0; tm_sec = 0 }

abbrev pub disk : Files
disk = record {
  stat = all_files;
  size = λ p. 5;
  contents = λ p. some (readable (codes "hello"));
  log_opens = true;
  now = noon;
  log = λ p. [];
}

pub asked-IsAsked : IsAsked asked [] 32
unfolding is_space
asked-IsAsked = ground arith

pub deleting-IsAsked : IsAsked deleting [] 32
unfolding is_space
deleting-IsAsked = ground arith
