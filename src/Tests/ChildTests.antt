-- ===== src/Tests/ChildTests.antt =====
-- Tests of the socket calls and of the child process.
use http_callback_serve_vers.Base.{
  replicate, null_pointer, Bytes, ◌++◌, ℕ, suc, true, false, List, [], ◌∷◌, Option, none, some,
  codes, ok, exit, fault, ℤ, pos, negsuc, minus_one, ◌≡◌, refl, arith, All,
}
use http_callback_serve_vers.Io.{got, other, ReadAnswer}
use http_callback_serve_vers.Tcp.{http_tcp_alloc}
use http_callback_serve_vers.Tcp.Callback.{tcp}
use http_callback_serve_vers.Common.{
  number_calls-checked, number_calls, dup2_stdin-dup2_stdout, dup2_stdin, dup2_stdout, redirected,
}
use http_callback_serve_vers.Sock.{Attempt, Endpoint, open_clientfd, Cmsg, rights}
use http_callback_serve_vers.Sock.Opened.{open_clientfd-connected}
use http_callback_serve_vers.CString.{has_byte, has_substring}
use http_callback_serve_vers.Child.{Answers, Child, Object, serve, object_at}
use http_callback_serve_vers.Child.Steps.{incoming, Received}
use http_callback_serve_vers.Child.Crash.{no_blank, serve-Fatal}
use http_callback_serve_vers.Tests.ServeTests.{disk, wide}

abbrev attempts : List Attempt
attempts =
    record { socket_result = negsuc 0; connect_result = pos 0 }
    ∷ record { socket_result = pos 5; connect_result = minus_one }
    ∷ record { socket_result = pos 6; connect_result = pos 0 }
    ∷ []

open_clientfd-connected_example : open_clientfd (pos 0) attempts (3 ∷ []) ≡ ok (pos 6, 6 ∷ 3 ∷ [])
open_clientfd-connected_example = open_clientfd-connected 0 attempts (3 ∷ [])

abbrev pub nowhere : Endpoint
nowhere = record { socket_result = negsuc 0; setsockopt_result = pos 0; bind_result = pos 0 }

abbrev pub taken : Endpoint
taken = record { socket_result = pos 4; setsockopt_result = pos 0; bind_result = minus_one }

abbrev pub install : ℤ → ℤ
install (pos n) = pos (suc n)
install (negsuc n) = negsuc n

abbrev pub deliver : Option Cmsg → Option Cmsg
deliver none = none
deliver (some c) = some (record c { cmsg_data = install c.cmsg_data })

number_calls-checked_example :
    All (λ c. (c.0 (pos 3) ≡ ok (pos 3)) × (c.0 minus_one ≡ exit c.1)) number_calls
number_calls-checked_example = number_calls-checked 3

dup2_stdin-dup2_stdout_example :
    (dup2_stdin (pos 5) (pos 0) ≡ ok (redirected true (pos 5 ∷ [])))
    × (dup2_stdout (pos 5) minus_one ≡ ok (redirected false []))
    × (dup2_stdout (pos 1) (pos 1) ≡ ok (redirected true (pos 1 ∷ [])))
dup2_stdin-dup2_stdout_example = dup2_stdin-dup2_stdout 5 refl refl minus_one

-- Every `malloc` and every other call succeeds, and the new client is descriptor `new`.
abbrev pub granted : ℕ → ℕ → Answers
granted new address = record {
  size = pos 2;
  error = other 0;
  control = some (rights (pos new));
  got_item = true;
  got_context = true;
  context_buf = some [];
  item_buf = some [];
  got_request = true;
  address = address;
  flags = pos 0;
  set_flags = pos 0;
}

pub granted-Received : (new address : ℕ) → Received (granted new address) (pos new) [] []
unfolding http_tcp_alloc
granted-Received new address = record {
  got_bytes = (2, refl);
  got_rights = refl;
  allocated = refl;
  got_flags = (0, refl);
  flags_set = (0, refl);
}

abbrev pub start : Object → List ReadAnswer → Child
start o answers = record {
  clientfd = pos 8;
  heap = (4096, o) ∷ [];
  sockets = λ d. wide;
  inbox = λ d. answers;
  calls = [];
}

-- A hundred bytes with an empty line at their end, and no blank.
abbrev solid : Bytes
solid = replicate 95 b'x' ++ codes "\r\n\r\n"

serve-Fatal_example :
    serve disk [] []
      (pos 4)
      (((granted 0 0, incoming 4096) ∷ []) ∷ [])
      (start (Object.tcp (tcp (pos 8) [] [])) (got (b'x' ∷ solid) ∷ []))
    ≡ fault null_pointer
unfolding object_at has_substring has_byte
serve-Fatal_example =
    serve-Fatal disk [] [] (pos 4) (granted 0 0) 4096 (pos 8) [] [] b'x' solid [] [] []
      (start (Object.tcp (tcp (pos 8) [] [])) (got (b'x' ∷ solid) ∷ [])) null_pointer refl refl refl
      refl (no_blank refl (omega arith) (omega arith) (ground arith) refl)
