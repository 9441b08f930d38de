-- ===== src/Tests/EpollTests.antt =====
-- Tests of the event loop, the error page and `skip`.
use http_callback_serve_vers.Base.{
  ℕ, ℤ, true, false, List, [], ◌∷◌, codes, fault, out_of_bounds, pos, ◌≡◌, Post, OnlyBounds,
}
use http_callback_serve_vers.Io.{room}
use http_callback_serve_vers.Epoll.{Loop, Event, do_epoll}
use http_callback_serve_vers.Epoll.Silent.{Quiet, do_epoll-Quiet}
use http_callback_serve_vers.Common.Skip.{skip, skip-overflow}
use http_callback_serve_vers.Tests.ServeTests.{all_files}

abbrev wires : ℤ → List ℕ
wires d = codes "sent"

abbrev at_start : Loop
at_start = record {
  epollfd = pos 0;
  flag_x = 0;
  buf = codes "left over";
  wires = wires;
  calls = [];
}

abbrev may_write : Event
may_write = record { readable = false; writable = true; fd = pos 7; answer = room 100; junk = [] }

abbrev may_read : Event
may_read = record may_write { readable = true; junk = codes " a b" }

do_epoll-Quiet_example : Post OnlyBounds (Quiet wires) (
    do_epoll all_files
      (pos 3)
      (pos 4)
      ((may_write ∷ []) ∷ (may_write ∷ may_read ∷ []) ∷ [])
      at_start)
do_epoll-Quiet_example =
    do_epoll-Quiet all_files (pos 3) 4 ((may_write ∷ []) ∷ (may_write ∷ may_read ∷ []) ∷ [])
      at_start

skip-overflow_example : skip (codes "ab") (codes "::") ≡ fault out_of_bounds
skip-overflow_example = skip-overflow 57 57 96 [] (codes "b")
