-- ===== src/Tests/IoTests.antt =====
-- Tests of the reading and writing loops.
use http_callback_serve_vers.Base.{
  codes, drop, ◌++◌, ◌≡◌, refl, arith, List, [], ◌∷◌, ok, pos, minus_one,
}
use http_callback_serve_vers.Io.{
  rio_readinit, eintr, eagain, SendAnswer, room, got, conn, retry_send, http_send, rio_write,
  http_rcv, readline, read_s, write_s,
}
use http_callback_serve_vers.Io.Send.{
  SentAll, SentSome, http_send-SentAll, rio_write-SentSome, write_s-resends,
}
use http_callback_serve_vers.Io.Receive.{
  ZeroOrError, http_rcv-ZeroOrError, singles, readline_lem, Stores, read_s-Stores,
}
use http_callback_serve_vers.Io.RioRead.{rio_reads, rio_reads-times}

abbrev busy : List SendAnswer
busy =
    room 2
    ∷ SendAnswer.failed eagain
    ∷ room 1
    ∷ SendAnswer.failed eintr
    ∷ room 9
    ∷ room 9
    ∷ room 1
    ∷ []

http_send_runs :
    http_send 5 (codes "hello") (conn busy [])
    ≡ ok (pos 5, conn (room 9 ∷ room 1 ∷ []) (codes "hello"))
unfolding http_send
http_send_runs = refl

http_send-SentAll_example :
    SentAll retry_send 0 5 (codes "hello") busy [] (http_send 5 (codes "hello") (conn busy []))
http_send-SentAll_example =
    http_send-SentAll 5 (codes "hello") (conn busy []) (omega arith) (ground arith) (omega arith)

rio_write-SentSome_example :
    SentSome 0 5 (codes "hello") [] (rio_write 5 (codes "hello") (conn busy []))
rio_write-SentSome_example = rio_write-SentSome 5 (codes "hello") (conn busy []) (omega arith)

rio_write_stops :
    rio_write 5 (codes "hello") (conn busy []) ≡ ok (minus_one, conn (drop 2 busy) (codes "he"))
unfolding rio_write
rio_write_stops = refl

write_s-resends_example :
    (rest : List SendAnswer) × (write_s 5
        (codes "hello")
        (conn (room 2 ∷ SendAnswer.failed eagain ∷ room 2 ∷ room 2 ∷ room 1 ∷ room 1 ∷ []) [])
      ≡ ok (pos 5, conn rest (codes "he" ++ codes "ello")))
write_s-resends_example =
    write_s-resends 5 1 eagain (codes "hello") [] (room 2 ∷ room 2 ∷ room 1 ∷ room 1 ∷ [])
      (omega arith) (tt, (tt, (tt, (tt, tt)))) (omega arith)

http_rcv_runs : http_rcv 5 (got (codes "hello") ∷ []) ≡ ok (pos 0, codes "hello", [])
unfolding http_rcv
http_rcv_runs = refl

http_rcv-ZeroOrError_example : ZeroOrError (http_rcv 5 (got (codes "hello") ∷ []))
http_rcv-ZeroOrError_example = http_rcv-ZeroOrError 5 (got (codes "hello") ∷ [])

readline_example :
    readline 100 50 (singles (codes "abc") ++ got (10 ∷ []) ∷ []) ≡ ok (pos 2, codes "abc\n", [])
readline_example = readline_lem 100 50 (codes "abc") [] (ground arith) (omega arith) (omega arith)

read_s-Stores_example :
    Stores (codes "abcd") (read_s 4 (got (codes "ab") ∷ got (codes "cde") ∷ got [] ∷ []))
read_s-Stores_example = read_s-Stores 4 (got (codes "ab") ∷ got (codes "cde") ∷ got [] ∷ []) tt

rio_reads-times_example :
    rio_reads 3 1 rio_readinit (got (codes "abcd") ∷ [])
    ≡ ok (codes "aaa", record { nread = pos 1; ptr = 3; rio_buffer = codes "abcd" }, [])
rio_reads-times_example =
    rio_reads-times 2 1 b'a' (codes "bcd") [] (omega arith) (omega arith) (omega arith)
