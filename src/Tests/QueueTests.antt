-- ===== src/Tests/QueueTests.antt =====
-- Tests of the message queues, over a kernel with one queue.
use http_callback_serve_vers.Base.{
  ℕ, List, [], ◌∷◌, ◌++◌, Option, none, some, ok, ℤ, pos, minus_one, ◌≡◌, refl, ap, codes, exit,
}
use http_callback_serve_vers.Pool.SList.{erase_first}
use http_callback_serve_vers.Queue.{Msg, Kernel, wanted, first_wanted, create_queue}

abbrev taken : ℕ → List Msg → Option Msg → Option (ℤ × Msg × List Msg)
taken type ms none = none
taken type ms (some m) = some (pos 0, m, erase_first (wanted type) ms)

abbrev one_queue : Kernel
one_queue = record {
  State = List Msg;
  queued = λ s q. s;
  msgsnd = λ q m s. (pos 0, s ++ m ∷ []);
  msgrcv = λ q type s. taken type s (first_wanted type s);
  msgctl_rmid = λ q s. (pos 0, []);
  queued-msgsnd = λ q m s h. refl;
  queued-msgrcv = λ q type s m h. (0, erase_first (wanted type) s, ap (taken type s) h, refl);
}

abbrev hello : Msg
hello = record { mtype = 1; mcontext = codes "hello"; pid = pos 3 }

abbrev bye : Msg
bye = record { mtype = 2; mcontext = codes "bye"; pid = pos 3 }

create_queue_runs :
    create_queue (λ i. pos i) (λ key. key)
    ≡ ok (record { main_master = pos 1; master_child = pos 2; errors = pos 3 })
unfolding create_queue
create_queue_runs = refl

create_queue_fails : create_queue (λ i. pos i) (λ key. minus_one) ≡ exit (codes "msgget")
unfolding create_queue
create_queue_fails = refl
