-- ===== src/Tests/RequestTests.antt =====
-- Tests of the request parser and of the connection objects.
use http_callback_serve_vers.Base.{
  Bytes, codes, ◌≡◌, refl, arith, List, [], ◌∷◌, ok, some, Option, none, true, pos, replicate, ℤ,
}
use http_callback_serve_vers.CString.{has_byte, has_substring, strtok}
use http_callback_serve_vers.Io.{got}
use http_callback_serve_vers.Request.{analasy, headers_loop, HttpRequest}
use http_callback_serve_vers.Request.Print.{Header, print, slots_of}
use http_callback_serve_vers.Request.Parse.{IsRequest, analasy-print}
use http_callback_serve_vers.Request.Total.{Ends, Verdict, analasy-Ends}
use http_callback_serve_vers.Tcp.{on_recv, http_tcp_alloc}
use http_callback_serve_vers.Tcp.Callback.{tcp, http_tcp_alloc-some}

abbrev pub get : Bytes
get = codes "GET"

abbrev pub url : Bytes
url = codes "/a.txt"

abbrev pub version : Bytes
version = codes "HTTP/1.1"

abbrev pub hs : List Header
hs = (codes "Host", codes "localhost:80") ∷ (codes "Accept", codes "text/html") ∷ []

abbrev pub parsed : HttpRequest
parsed = record { method = get; url = url; version = version; nhead = slots_of hs }

pub sample-IsRequest : IsRequest get url version hs
unfolding has_byte
sample-IsRequest = ground arith

-- A browser's text runs through the parser.
analasy_runs : analasy true (print get url version hs (codes "body: 1")) ≡ ok (some parsed)
unfolding analasy has_substring strtok headers_loop
analasy_runs = refl

analasy_no_end : analasy true (codes "GET / HTTP/1.1\r\nHost: x\r\n") ≡ ok none
unfolding analasy has_substring
analasy_no_end = refl

analasy-print_example : analasy true (print get url version hs (codes "body: 1")) ≡ ok (some parsed)
analasy-print_example =
    analasy-print get url version hs (codes "body: 1") sample-IsRequest (omega arith)

analasy-Ends_example :
    Ends (Verdict (codes "GET / HTTP/1.1\r\nHost")) (analasy true (codes "GET / HTTP/1.1\r\nHost"))
analasy-Ends_example = analasy-Ends true (codes "GET / HTTP/1.1\r\nHost") (omega arith)

-- A request text of one hundred bytes.
abbrev pub filler : Bytes
filler = replicate 38 b'x'

abbrev pub hundred : Bytes
hundred = print get url version hs filler

on_recv_full_example : on_recv [] 3 (got (codes "abc") ∷ []) ≡ ok (3, codes "abc", [])
unfolding on_recv
on_recv_full_example = refl

http_tcp_alloc-some_example :
    (true ≡ true)
    × (true ≡ true)
    × (◌≡◌ {A = ℤ} (pos 7) (pos 7))
    × (◌≡◌ {A = Option Bytes} none none)
    × ((s : Bytes) × (some [] ≡ some s)
        × ((tcp (pos 7) [] []).http_contxt ≡ record { buf = s; parse_req = analasy }))
unfolding http_tcp_alloc
http_tcp_alloc-some_example =
    http_tcp_alloc-some (pos 7) true true (some []) none
      (record {
        fd = pos 7;
        http_contxt = (tcp (pos 7) [] []).http_contxt;
        callback = (tcp (pos 7) [] []).callback;
        buf = none;
      })
      refl
