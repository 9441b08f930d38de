-- ===== src/Tests/StartTests.antt =====
-- A test of `start` with clients at two events.
use http_callback_serve_vers.Base.{
  ℕ, List, [], ◌∷◌, ◌++◌, length, ok, pos, minus_one, true, map, refl, arith, ◌≡◌,
}
use http_callback_serve_vers.Sock.{Endpoint}
use http_callback_serve_vers.Pool.{Pool, proc_pool}
use http_callback_serve_vers.Pool.Fill.{forked, worker}
use http_callback_serve_vers.Serve.{Boot, Main, start, watch_in}
use http_callback_serve_vers.Serve.Started.{Knock, Booted, HasPassed, start-HasPassed}
use http_callback_serve_vers.Tests.ChildTests.{nowhere}
use http_callback_serve_vers.Tests.MainTests.{idle, knock}
use http_callback_serve_vers.Tests.PoolTests.{S, ten}

abbrev free_port : Endpoint
free_port = record { socket_result = pos 3; setsockopt_result = pos 0; bind_result = pos 0 }

-- One pid more than `start` asks for.
abbrev eleven : List ℕ
eleven = ten ++ 21 ∷ []

abbrev boot : Boot
boot = record {
  pipes = minus_one ∷ pos 0 ∷ [];
  mallocs = λ j. true;
  forks = map forked eleven;
  resolved = pos 0;
  addresses = nowhere ∷ free_port ∷ nowhere ∷ [];
  listened = pos 0;
  flags = pos 2;
  set_flags = pos 0;
  reused = pos 0;
  got_events = true;
  created = pos 4;
}

boot-Booted : Booted boot eleven 3
boot-Booted = record {
  piped = (0 ∷ [], 0, [], refl);
  allocated = λ j. refl;
  forks = refl;
  ten = omega arith;
  resolved = (0, refl);
  opened = (nowhere ∷ [], nowhere ∷ [], free_port, 0, refl, ((0, refl), tt), refl, refl, refl);
  listened = (0, refl);
  got_flags = (2, refl);
  flags_set = (0, refl);
  reused = refl;
  got_events = refl;
  created = (4, refl);
}

abbrev two : List ℕ
two = 6 ∷ 7 ∷ []

knock-Knock : Knock (pos 3) knock (6 ∷ 7 ∷ [])
knock-Knock = record {
  not_failed = refl;
  is_listenfd = refl;
  waiting_clients = refl;
  all_pass = (refl, (refl, (refl, tt)));
  enough = omega arith;
}

start-HasPassed_example :
    (p : Pool S) × (m' : Main) × (start S boot
        ((knock ∷ []) ∷ (knock ∷ []) ∷ [])
        []
        (proc_pool S)
        idle
      ≡ ok (p, m'))
    × (p.head ≡ map worker ten)
    × (length p.head ≡ 10)
    × (p.n_proc ≡ pos 10)
    × HasPassed (6 ∷ 7 ∷ 6 ∷ 7 ∷ []) (record idle { calls = watch_in (pos 3) ∷ [] }) m'
start-HasPassed_example =
    start-HasPassed S boot eleven 3 ((knock ∷ []) ∷ (knock ∷ []) ∷ []) (6 ∷ 7 ∷ 6 ∷ 7 ∷ []) [] idle
      boot-Booted refl
      (
        two,
        two,
        refl,
        (two, [], refl, knock-Knock, refl),
        (two, [], refl, (two, [], refl, knock-Knock, refl), refl),
      )
