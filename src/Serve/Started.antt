-- ===== src/Serve/Started.antt =====
-- `start` of src/core/epoll_circle.h from its first call on: the pool, the listening socket, and the
-- clients of all events behind it.
use http_callback_serve_vers.Base.{
  ℕ, suc, ◌≤◌, ◌+◌, true, false, List, [], ◌∷◌, ◌++◌, map, ok, ℤ, pos, negsuc, minus_one, eq_ℤ, ◌≡◌,
  refl, ap, sym, ◌∙◌, append_assoc, append-nil, All, length, length-append, length-take, take, drop,
  zero, inl, arith, subst,
}
use http_callback_serve_vers.Sock.{Fds, Endpoint, open_listenfd}
use http_callback_serve_vers.Sock.Opened.{NoSocket, open_listenfd-settled}
use http_callback_serve_vers.Pool.{Slots, Pool, nproc_max_num, proc_pool}
use http_callback_serve_vers.Pool.Fill.{forked, worker, length_workers, init_manager_proc-workers}
use http_callback_serve_vers.Serve.{
  Boot, Main, MainEvent, watch_in, pipe_loop, main_event, main_batch, main_loop, prepare, start,
}
use http_callback_serve_vers.Serve.Passed.{arrivals, fds, Passes, after, main_event-passed}

-- An event of the listening socket, with these clients waiting.
pub record Knock (listenfd : ℤ) (e : MainEvent) (ns : List ℕ) : Type 0 where
  pub not_failed : e.failed ≡ false
  pub is_listenfd : eq_ℤ e.fd listenfd ≡ true
  pub waiting_clients : e.accepts ≡ arrivals ns
  pub all_pass : All Passes e.sends
  pub enough : length ns ≤ length e.sends

module _ (listenfd : ℤ) where
  -- The events of a batch, and of all batches, with the clients that wait at them, in order.
  abbrev pub Knocks : List MainEvent → List ℕ → Type 0
  Knocks [] ns = ns ≡ []
  Knocks (e ∷ events) ns =
      (first : List ℕ) × (others : List ℕ) × (ns ≡ first ++ others)
      × Knock listenfd e first
      × Knocks events others

  abbrev pub AllKnocks : List (List MainEvent) → List ℕ → Type 0
  AllKnocks [] ns = ns ≡ []
  AllKnocks (events ∷ batches) ns =
      (first : List ℕ) × (others : List ℕ) × (ns ≡ first ++ others)
      × Knocks events first
      × AllKnocks batches others

-- The clients were passed and counted, and nothing else changed but `clientfd`.
pub record HasPassed (ns : List ℕ) (m m' : Main) : Type 0 where
  pub passed : m'.passed ≡ m.passed ++ fds ns
  pub counted : m'.g_count ≡ m.g_count + length ns
  pub kept : m'.freed ≡ m.freed
  pub no_calls : m'.calls ≡ m.calls

fds-append : (xs ys : List ℕ) → fds (xs ++ ys) ≡ fds xs ++ fds ys
fds-append [] ys = refl
fds-append (x ∷ xs) ys = ap (◌∷◌ (pos (suc x))) (fds-append xs ys)

HasPassed-nil : (m : Main) → HasPassed [] m m
HasPassed-nil m = record {
  passed = sym (append-nil m.passed);
  counted = omega arith;
  kept = refl;
  no_calls = refl;
}

HasPassed-append :
    (xs ys : List ℕ) (m m1 m2 : Main)
    → HasPassed xs m m1
    → HasPassed ys m1 m2
    → HasPassed (xs ++ ys) m m2
HasPassed-append xs ys m m1 m2 h k = record {
  passed =
      k.passed
      ∙ ap (λ l. l ++ fds ys) h.passed
      ∙ append_assoc m.passed (fds xs) (fds ys)
      ∙ ap (λ l. m.passed ++ l) (sym (fds-append xs ys));
  counted = omega (arith, h.counted, k.counted, length-append xs ys);
  kept = k.kept ∙ h.kept;
  no_calls = k.no_calls ∙ h.no_calls;
}

module _ (listenfd : ℤ) where
  main_batch_step :
      (e : MainEvent) (events : List MainEvent) (m m1 : Main)
      → m.freed ≡ false
      → main_event listenfd e m ≡ ok m1
      → main_batch listenfd (e ∷ events) m ≡ main_batch listenfd events m1
  unfolding main_batch
  main_batch_step e events m m1 h run = rw run (rw h refl)

  main_batch-HasPassed :
      (events : List MainEvent) (ns : List ℕ) (m : Main)
      → m.freed ≡ false
      → Knocks listenfd events ns
      → (m' : Main) × (main_batch listenfd events m ≡ ok m') × HasPassed ns m m'
  unfolding main_batch
  main_batch-HasPassed [] ns m h k =
      (m, refl, subst (λ l. HasPassed l m m) (sym k) (HasPassed-nil m))
  main_batch-HasPassed (e ∷ events) ns m h (first, others, split, k, ks) =
      let m1 = after first m in
      let run =
        main_event-passed listenfd first e m k.not_failed k.is_listenfd k.waiting_clients k.all_pass
          k.enough in
      let (m', run', rest) = main_batch-HasPassed events others m1 h ks in
      let done : HasPassed first m m1 = record {
        passed = refl;
        counted = refl;
        kept = refl;
        no_calls = refl;
      } in
      (
        m',
        main_batch_step e events m m1 h run ∙ run',
        subst (λ l. HasPassed l m m') (sym split) (HasPassed-append first others m m1 m' done rest),
      )

  main_loop-HasPassed :
      (batches : List (List MainEvent)) (ns : List ℕ) (m : Main)
      → m.freed ≡ false
      → AllKnocks listenfd batches ns
      → (m' : Main) × (main_loop listenfd batches m ≡ ok m') × HasPassed ns m m'
  unfolding main_loop
  main_loop-HasPassed [] ns m h k =
      (m, refl, subst (λ l. HasPassed l m m) (sym k) (HasPassed-nil m))
  main_loop-HasPassed (events ∷ batches) ns m h (first, others, split, k, ks) =
      let (m1, run, done) = main_batch-HasPassed events first m h k in
      let (m', run', rest) = main_loop-HasPassed batches others m1 (done.kept ∙ h) ks in
      (
        m',
        rw run run',
        subst (λ l. HasPassed l m m') (sym split) (HasPassed-append first others m m1 m' done rest),
      )

pipe_loop-retried :
    (tries : List ℕ) (n : ℕ) (pipes : List ℤ)
    → pipe_loop (map negsuc tries ++ pos n ∷ pipes) ≡ ok pipes
unfolding pipe_loop
pipe_loop-retried [] n pipes = refl
pipe_loop-retried (k ∷ tries) n pipes = pipe_loop-retried tries n pipes

-- While `start` sets up, `socketpair` succeeds in the end, and no other call fails, but those of `socket`
-- for the first addresses. The calls of `fork`, as many as there are, would give the parent these
-- pids, ten at least.
pub record Booted (b : Boot) (workers : List ℕ) (fd : ℕ) : Type 0 where
  pub piped :
      (tries : List ℕ) × (n : ℕ) × (pipes : List ℤ) × (b.pipes ≡ map negsuc tries ++ pos n ∷ pipes)
  pub allocated : (j : ℕ) → b.mallocs j ≡ true
  pub forks : b.forks ≡ map forked workers
  pub ten : nproc_max_num ≤ length workers
  pub resolved : (n : ℕ) × (b.resolved ≡ pos n)
  pub opened :
      (skipped addrs : List Endpoint) × (a : Endpoint) × (o : ℕ) × (b.addresses
        ≡ skipped ++ a ∷ addrs)
      × All NoSocket skipped
      × (a.socket_result ≡ pos fd)
      × (a.setsockopt_result ≡ pos o)
      × (a.bind_result ≡ pos 0)
  pub listened : (n : ℕ) × (b.listened ≡ pos n)
  pub got_flags : (n : ℕ) × (b.flags ≡ pos n)
  pub flags_set : (n : ℕ) × (b.set_flags ≡ pos n)
  pub reused : eq_ℤ b.reused minus_one ≡ false
  pub got_events : b.got_events ≡ true
  pub created : (n : ℕ) × (b.created ≡ pos n)

open_listenfd-Booted :
    (b : Boot) (workers : List ℕ) (fd : ℕ) (fds : Fds)
    → Booted b workers fd
    → open_listenfd b.resolved b.addresses b.listened fds ≡ ok (pos fd, fd ∷ fds)
open_listenfd-Booted b workers fd fds h =
    let (skipped, addrs, a, o, addresses, none, socket, option, bound) = h.opened in
    rw (h.resolved.1, addresses, h.listened.1)
      (open_listenfd-settled h.resolved.0 fd o (pos h.listened.0) skipped addrs a fds none socket
          option (inl bound)
        ∙ rw bound refl)

prepare-Booted :
    (b : Boot) (workers : List ℕ) (fd : ℕ)
    → Booted b workers fd
    → (n : ℕ) × (prepare b ≡ ok (pos n))
prepare-Booted b workers fd h =
    (h.created.0, rw (h.got_flags.1, h.flags_set.1, h.reused, h.got_events, h.created.1) refl)

forked-split :
    (k : ℕ) (ws : List ℕ) → map forked ws ≡ map forked (take k ws) ++ map forked (drop k ws)
forked-split zero ws = refl
forked-split (suc k) [] = refl
forked-split (suc k) (w ∷ ws) = ap (◌∷◌ (forked w)) (forked-split k ws)

module _ (S : Slots) where
  open S use {entries}

  -- If the set-up succeeds, if need be with `socketpair` and `socket` failing first, and `fork` would
  -- give the parent at least ten pids in turn, `start` listens on the first socket it gets, with ten
  -- children, which have the first ten pids in order and all their descriptors left. Then every
  -- client that waits at any event of that socket is passed to the children, once and in order,
  -- however the events are split into batches. No client is descriptor 0, and each `sendmsg`
  -- passes something.
  pub start-HasPassed :
      (b : Boot) (workers : List ℕ) (fd : ℕ) (batches : List (List MainEvent)) (ns : List ℕ)
      (fds0 : Fds) (m : Main)
      → Booted b workers fd
      → m.freed ≡ false
      → AllKnocks (pos fd) batches ns
      → (p : Pool S) × (m' : Main) × (start S b batches fds0 (proc_pool S) m ≡ ok (p, m'))
        × (entries p.head ≡ map worker (take nproc_max_num workers))
        × (length (entries p.head) ≡ nproc_max_num)
        × (p.n_proc ≡ pos 10)
        × HasPassed ns (record m { calls = m.calls ++ watch_in (pos fd) ∷ [] }) m'
  unfolding start
  start-HasPassed b workers fd batches ns fds0 m h live knocks =
      let (tries, k, pipes, piped) = h.piped in
      let size : length (take nproc_max_num workers) ≡ nproc_max_num =
        omega (arith, h.ten, length-take nproc_max_num workers) in
      let forks = h.forks ∙ forked-split nproc_max_num workers in
      let (p, filled, staff, count) =
        init_manager_proc-workers S b.mallocs (take nproc_max_num workers)
          (map forked (drop nproc_max_num workers)) h.allocated size in
      let watched = record m { calls = m.calls ++ watch_in (pos fd) ∷ [] } in
      let (n, ready) = prepare-Booted b workers fd h in
      let (m', run, done) = main_loop-HasPassed (pos fd) batches ns watched live knocks in
      (
        p,
        m',
        rw (piped, pipe_loop-retried tries k pipes)
            (rw (forks, filled)
              (rw (open_listenfd-Booted b workers fd fds0 h) (rw ready (rw run refl)))),
        staff,
        ap length staff ∙ length_workers (take nproc_max_num workers) ∙ size,
        count,
        done,
      )
