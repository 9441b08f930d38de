-- ===== src/Tests/MainTests.antt =====
-- Tests of the main process.
use http_callback_serve_vers.Base.{
  Bytes, replicate, null_pointer, ◌++◌, codes, some, true, false, [], ◌∷◌, ok, pos, minus_one, ◌≡◌,
  refl, arith, fault, out_of_bounds,
}
use http_callback_serve_vers.CString.{has_byte}
use http_callback_serve_vers.Config.{init_sockpair, sock_pair, read_pair, file_param}
use http_callback_serve_vers.Config.Fuel.{Finishes, file_param-Finishes}
use http_callback_serve_vers.Config.Address.{init_sockpair-config_line}
use http_callback_serve_vers.Serve.{Main, MainEvent, main_batch, pipe_loop}
use http_callback_serve_vers.Serve.Passed.{arrivals}

abbrev pub idle : Main
idle = record { clientfd = pos 0; passed = []; g_count = 0; freed = false; calls = [] }

abbrev pub knock : MainEvent
knock = record {
  failed = false;
  readable = true;
  writable = false;
  fd = pos 3;
  accepts = arrivals (6 ∷ 7 ∷ []);
  sends = pos 2 ∷ pos 2 ∷ pos 2 ∷ [];
}

abbrev odd_event : MainEvent
odd_event = record {
  failed = false;
  readable = false;
  writable = false;
  fd = pos 9;
  accepts = [];
  sends = [];
}

-- An event of no kind frees the array of events, which the next round reads.
main_batch_freed : main_batch (pos 3) (odd_event ∷ knock ∷ []) idle ≡ fault out_of_bounds
unfolding main_batch
main_batch_freed = refl

pipe_loop_retries : pipe_loop (minus_one ∷ pos 0 ∷ []) ≡ ok []
unfolding pipe_loop
pipe_loop_retries = refl

init_sockpair-config_line_example :
    init_sockpair (some []) (some []) (some (codes "@127.0.0.1:8080@\n"))
    ≡ ok (sock_pair (codes "127.0.0.1") (codes "8080"))
unfolding has_byte
init_sockpair-config_line_example =
    init_sockpair-config_line [] [] [] (codes "127.0.0.1", codes "8080") tt (ground arith)

-- A blank in front of the sign is counted as one.
read_pair_blank :
    read_pair (codes " @127.0.0.1:8080@\n") ≡ ok (sock_pair (codes "@127.0.0.1") (codes "8080"))
unfolding read_pair
read_pair_blank = refl

-- A line that is longer than the buffer is read in parts, and the second one has no colon and no sign.
abbrev long_line : Bytes
long_line = codes "@1:2@" ++ replicate 1030 97

file_param-Finishes_example : Finishes (file_param (some long_line) (sock_pair [] []))
file_param-Finishes_example = file_param-Finishes (some long_line) (sock_pair [] [])

file_param_long : file_param (some long_line) (sock_pair [] []) ≡ fault null_pointer
unfolding file_param
file_param_long = refl
