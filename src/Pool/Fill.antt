-- ===== src/Pool/Fill.antt =====
-- `create_proc_pool` and `init_manager_proc`: the pool at the start of the server.
use http_callback_serve_vers.Base.{
  ℕ, zero, suc, Bool, true, false, List, [], ◌∷◌, ◌++◌, map, ◌≡◌, refl, sym, ◌∙◌, ap, length,
  replicate, All, ok, ℤ, pos, minus_one, suc_ℤ, append_assoc, append-nil, some,
}
use http_callback_serve_vers.Pool.SList.{modify_at, modify_at-append, position, position-append}
use http_callback_serve_vers.Pool.{
  Processor, Slots, fresh, proc_alloc, has_pid, nproc_max_num, Pool, proc_pool, create_loop,
  create_proc_pool, insert_pool_obj, fork_loop, init_manager_proc,
}

-- The result of `fork` in the parent, and the entry that stands for that child.
abbrev pub forked : ℕ → ℤ
forked n = pos (suc n)

abbrev pub worker : ℕ → Processor
worker n = record fresh { pid = forked n }

replicate_last :
    (k : ℕ) (x : Processor) (xs : List Processor)
    → replicate k x ++ x ∷ xs ≡ x ∷ (replicate k x ++ xs)
replicate_last zero x xs = refl
replicate_last (suc k) x xs = ap (◌∷◌ x) (replicate_last k x xs)

workers_taken : (ns : List ℕ) → All (λ x. has_pid minus_one x ≡ false) (map worker ns)
workers_taken [] = tt
workers_taken (n ∷ ns) = (refl, workers_taken ns)

pub length_workers : (ns : List ℕ) → length (map worker ns) ≡ length ns
length_workers [] = refl
length_workers (n ∷ ns) = ap suc (length_workers ns)

module _ (S : Slots) where
  open S use {
    Head, initializer, entries, insert_head, modify, entries-initializer, entries-insert_head,
    entries-modify,
  }

  create_loop-entries :
      (k : ℕ) (mallocs : ℕ → Bool) (h : Head)
      → ((j : ℕ) → mallocs j ≡ true)
      → (h' : Head) × (create_loop S k mallocs h ≡ ok h')
        × (entries h' ≡ replicate k fresh ++ entries h)
  unfolding create_loop proc_alloc
  create_loop-entries zero mallocs h all = (h, refl, refl)
  create_loop-entries (suc k) mallocs h all =
      let (h', e, f) = create_loop-entries k mallocs (insert_head fresh h) all in
      (
        h',
        rw (all k) e,
        f
            ∙ ap (λ l. replicate k fresh ++ l) (entries-insert_head fresh h)
            ∙ replicate_last k fresh (entries h),
      )

  -- The next child takes the first entry that is free.
  insert_pool_obj-free :
      (n k : ℕ) (done : List ℕ) (pool : Pool S)
      → entries pool.head ≡ map worker done ++ replicate (suc k) fresh
      → (entries (insert_pool_obj S (forked n) pool).head
          ≡ map worker done ++ worker n ∷ replicate k fresh)
        × ((insert_pool_obj S (forked n) pool).n_proc ≡ suc_ℤ pool.n_proc)
  unfolding insert_pool_obj
  insert_pool_obj-free n k done pool e =
      let found : position (has_pid minus_one) (entries pool.head)
          ≡ some (length (map worker done)) =
        ap (position (has_pid minus_one)) e
        ∙ position-append (has_pid minus_one) (map worker done) fresh (replicate k fresh)
            (workers_taken done) refl in
      let put = λ (item : Processor). record item { pid = forked n } in
      rw (found, insert_pool_obj)
        (
          entries-modify (length (map worker done)) put pool.head
              ∙ ap (modify_at (length (map worker done)) put) e
              ∙ modify_at-append (map worker done) put fresh (replicate k fresh),
          refl,
        )

  abbrev plus : ℤ → ℕ → ℤ
  plus z zero = z
  plus z (suc k) = plus (suc_ℤ z) k

  map_last :
      (done : List ℕ) (n : ℕ) (xs : List Processor)
      → map worker done ++ worker n ∷ xs ≡ map worker (done ++ n ∷ []) ++ xs
  map_last [] n xs = refl
  map_last (d ∷ done) n xs = ap (◌∷◌ (worker d)) (map_last done n xs)

  fork_loop-entries :
      (ns done : List ℕ) (more : List ℤ) (pool : Pool S)
      → entries pool.head ≡ map worker done ++ replicate (length ns) fresh
      → (p : Pool S) × (fork_loop S (length ns) (map forked ns ++ more) pool ≡ ok p)
        × (entries p.head ≡ map worker (done ++ ns))
        × (p.n_proc ≡ plus pool.n_proc (length ns))
  unfolding fork_loop
  fork_loop-entries [] done more pool e =
      (pool, refl, e ∙ append-nil (map worker done) ∙ ap (map worker) (sym (append-nil done)), refl)
  fork_loop-entries (n ∷ ns) done more pool e =
      let (f, g) = insert_pool_obj-free n (length ns) done pool e in
      let (p, r, h, j) =
        fork_loop-entries ns (done ++ n ∷ []) more (insert_pool_obj S (forked n) pool)
          (f ∙ map_last done n (replicate (length ns) fresh)) in
      (
        p,
        r,
        h ∙ ap (map worker) (append_assoc done (n ∷ []) ns),
        j ∙ ap (λ z. plus z (length ns)) g,
      )

  -- Where every `malloc` succeeds and `fork` gives the parent ten pids, `init_manager_proc` leaves ten
  -- entries with these pids in order, all descriptors left and status 0, and the counter at 10. It
  -- makes no use of what an eleventh call would return.
  pub init_manager_proc-workers :
      (mallocs : ℕ → Bool) (ns : List ℕ) (more : List ℤ)
      → ((j : ℕ) → mallocs j ≡ true)
      → length ns ≡ nproc_max_num
      → (p : Pool S) × (init_manager_proc S mallocs (map forked ns ++ more) (proc_pool S) ≡ ok p)
        × (entries p.head ≡ map worker ns)
        × (p.n_proc ≡ pos 10)
  unfolding init_manager_proc create_proc_pool
  init_manager_proc-workers mallocs ns more all ten =
      let (h, e, f) = create_loop-entries nproc_max_num mallocs initializer all in
      let empty = f ∙ ap (λ l. replicate nproc_max_num fresh ++ l) entries-initializer in
      let pool : Pool S = record { n_proc = pos 0; head = h } in
      let (p, r, g, j) = fork_loop-entries ns [] more pool (
        empty
        ∙ append-nil (replicate nproc_max_num fresh)
        ∙ ap (λ k. replicate k fresh) (sym ten)) in
      (
        p,
        rw e (ap (λ k. fork_loop S k (map forked ns ++ more) pool) (sym ten) ∙ r),
        g,
        j ∙ ap (plus (pos 0)) ten,
      )
