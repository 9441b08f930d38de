-- ===== src/Pool/Staff.antt =====
-- The states of the pool that the main process can reach, and that it never runs short of children.
use http_callback_serve_vers.Base.{
  ℕ, zero, suc, ◌+◌, ◌≤◌, Bool, true, false, List, [], ◌∷◌, map, ◌≡◌, refl, ◌∙◌, ap, arith, length,
  length-map, append-nil, ok, exit, ℤ, pos, negsuc, suc_ℤ, pred_ℤ, leb_ℤ, inl, inr, Bool-cases,
  codes, subst,
}
use http_callback_serve_vers.Pool.SList.{erase_first}
use http_callback_serve_vers.Pool.Fill.{worker, forked, init_manager_proc-workers, length_workers}
use http_callback_serve_vers.Pool.Change.{
  delete_pool_obj-erase_first, insert_pool-room, set_status_ok-marked, marked,
}
use http_callback_serve_vers.Pool.Balance.{length-modify_at, first_entry}
use http_callback_serve_vers.Pool.Choose.{Chosen, one_less, notice_child-Chosen}
use http_callback_serve_vers.Pool.{
  Processor, Slots, Pool, has_pid, proc_alloc, nproc_max_num, delete_pool_obj, insert_pool,
  handler_dead_processor, set_status_ok, notice_child, cross_loop, cross_ok, crossed, truth,
  init_manager_proc, proc_pool,
}

length-erase_first-le :
    (p : Processor → Bool) (xs : List Processor) → length xs ≤ length (erase_first p xs) + 1
length-erase_first-le p [] = omega arith
length-erase_first-le p (x ∷ xs) = ground (arith, length-erase_first-le p xs)

leb_ℤ-pred-ten : (n : ℤ) → leb_ℤ n (pos 10) ≡ true → leb_ℤ (pred_ℤ n) (pos 10) ≡ true
leb_ℤ-pred-ten (pos zero) h = refl
leb_ℤ-pred-ten (pos (suc n)) h = ground arith
leb_ℤ-pred-ten (negsuc n) h = refl

suc-pred : (n : ℤ) → suc_ℤ (pred_ℤ n) ≡ n
suc-pred (pos zero) = refl
suc-pred (pos (suc n)) = refl
suc-pred (negsuc n) = refl

module _ (S : Slots) where
  open S use {Head, entries, insert_head, modify, entries-insert_head, entries-modify}

  -- What the main process does to the pool: it replaces a dead child, chooses one for a client, marks
  -- one, or looks one up. The process goes on only where the call returns.
  pub data Step (p q : Pool S) : Type 0 where
    replace : (pid f : ℤ) (got : Bool) → handler_dead_processor S pid f got p ≡ ok q → Step p q
    choose : (pid : ℤ) → notice_child S p ≡ ok (pid, q) → Step p q
    mark : (pid : ℤ) → q ≡ set_status_ok S pid p → Step p q
    cross : (pid : ℤ) → q ≡ (cross_ok S pid p).1 → Step p q

  pub data Reach (start : Pool S) : Pool S → Type 0 where
    here : Reach start start
    next : {p q : Pool S} → Reach start p → Step p q → Reach start q

  -- Ten entries at least, and a counter of ten at most.
  abbrev pub Staffed : Pool S → Type 0
  Staffed p = (10 ≤ length (entries p.head)) × (leb_ℤ p.n_proc (pos 10) ≡ true)

  cross_loop-length :
      (pid : ℤ) (i : ℕ) (items : List Processor) (h : Head)
      → length (entries (cross_loop S pid i items h).1) ≡ length (entries h)
  unfolding cross_loop
  cross_loop-length pid i [] h = refl
  cross_loop-length pid i (item ∷ items) h =
      let put = λ (item' : Processor). record item' { pid = truth (crossed pid item) } in
      let kept : length (entries (modify i put h)) ≡ length (entries h) =
        ap length (entries-modify i put h) ∙ length-modify_at i put (entries h) in
      elim (Bool-cases (crossed pid item)) [
        | inl f ↦ rw f (rw f at kept)
        | inr f ↦ rw f (
            cross_loop-length pid (i + 1) items
              (modify i (λ item'. record item' { pid = truth false }) h)
            ∙ (rw f at kept))
      ]

  insert_pool-exit :
      (pid : ℤ) (pool : Pool S)
      → leb_ℤ (suc_ℤ pool.n_proc) (pos nproc_max_num) ≡ true
      → insert_pool S false pid pool ≡ exit (codes "malloc failed!")
  unfolding insert_pool proc_alloc
  insert_pool-exit pid pool h = rw h

  -- Behind the deletion there is room for the new child.
  delete_pool_obj-room :
      (pid : ℤ) (p : Pool S)
      → Staffed p
      → (leb_ℤ (suc_ℤ (delete_pool_obj S pid p).n_proc) (pos nproc_max_num) ≡ true)
        × (leb_ℤ (delete_pool_obj S pid p).n_proc (pos 10) ≡ true)
        × (10 ≤ length (entries (delete_pool_obj S pid p).head) + 1)
  delete_pool_obj-room pid p (enough, few) =
      let (gone, fall) = delete_pool_obj-erase_first S pid p in
      let size = ap length gone in
      (
        rw fall (rw (suc-pred p.n_proc) few),
        rw fall (leb_ℤ-pred-ten p.n_proc few),
        omega (arith, length-erase_first-le (has_pid pid) (entries p.head)),
      )

  replace-Staffed :
      (pid f : ℤ) (got : Bool) (p q : Pool S)
      → handler_dead_processor S pid f got p ≡ ok q
      → Staffed p
      → Staffed q
  unfolding handler_dead_processor
  replace-Staffed pid (negsuc e) got p q h s = cc
  replace-Staffed pid (pos zero) got p q h s = cc
  replace-Staffed pid (pos (suc n)) false p q h s =
      let room = delete_pool_obj-room pid p s in
      cc (insert_pool-exit (pos (suc n)) (delete_pool_obj S pid p) room.0)
  replace-Staffed pid (pos (suc n)) true p q h s =
      let (room, few, enough) = delete_pool_obj-room pid p s in
      let rest = delete_pool_obj S pid p in
      let q' = record rest { head = insert_head (worker n) rest.head } in
      let same : q' ≡ q = cc (insert_pool-room S (pos (suc n)) rest room) in
      let size = ap length (entries-insert_head (worker n) rest.head) in
      subst Staffed same (omega arith, few)

  notice_child-Staffed :
      (pid : ℤ) (p q : Pool S) → notice_child S p ≡ ok (pid, q) → Staffed p → Staffed q
  notice_child-Staffed pid p q h (enough, few) =
      let (item, rest, e) = first_entry (entries p.head) (omega arith) in
      let (i, best, q', run, best_is, now, count) = notice_child-Chosen S p item rest e in
      let same : q' ≡ q = cc in
      let size = ap length now ∙ length-modify_at i one_less (entries p.head) in
      subst Staffed same (omega arith, rw count few)

  set_status_ok-Staffed : (pid : ℤ) (p : Pool S) → Staffed p → Staffed (set_status_ok S pid p)
  set_status_ok-Staffed pid p (enough, few) =
      let (now, count) = set_status_ok-marked S pid p in
      let size = ap length now ∙ length-map (marked pid) (entries p.head) in
      (omega arith, rw count few)

  cross_ok-Staffed : (pid : ℤ) (p : Pool S) → Staffed p → Staffed (cross_ok S pid p).1
  unfolding cross_ok
  cross_ok-Staffed pid p (enough, few) =
      (omega (arith, cross_loop-length pid 0 (entries p.head) p.head), few)

  Step-Staffed : {p q : Pool S} → Step p q → Staffed p → Staffed q
  Step-Staffed {p} {q} (replace pid f got h) s = replace-Staffed pid f got p q h s
  Step-Staffed {p} {q} (choose pid h) s = notice_child-Staffed pid p q h s
  Step-Staffed {p} {q} (mark pid e) s = rw e (set_status_ok-Staffed pid p s)
  Step-Staffed {p} {q} (cross pid e) s = rw e (cross_ok-Staffed pid p s)

  Reach-Staffed : {start p : Pool S} → Staffed start → Reach start p → Staffed p
  Reach-Staffed s here = s
  Reach-Staffed s (next r st) = Step-Staffed st (Reach-Staffed s r)

  -- From the pool that `init_manager_proc` leaves when every call succeeds, whatever children die and are
  -- replaced, are chosen, marked or looked up, in any order: the pool has ten entries at least, its
  -- counter is ten at most, and `notice_child` finds a child with the most descriptors left.
  pub Reach-notice_child :
      (mallocs : ℕ → Bool) (ns : List ℕ) {start p : Pool S}
      → ((j : ℕ) → mallocs j ≡ true)
      → length ns ≡ nproc_max_num
      → init_manager_proc S mallocs (map forked ns) (proc_pool S) ≡ ok start
      → Reach start p
      → (10 ≤ length (entries p.head))
        × (leb_ℤ p.n_proc (pos 10) ≡ true)
        × Chosen S p (entries p.head) (notice_child S p)
  Reach-notice_child mallocs ns {start} {p} all ten boot r =
      let (q, run, workers, count) = init_manager_proc-workers S mallocs ns [] all ten in
      let run' =
        ap (λ l. init_manager_proc S mallocs l (proc_pool S)) (append-nil (map forked ns)) in
      let same : q ≡ start = cc in
      let size = ap length workers ∙ length_workers ns in
      let begun : Staffed start = subst Staffed same (omega arith, rw count refl) in
      let (enough, few) = Reach-Staffed begun r in
      let (item, rest, e) = first_entry (entries p.head) (omega arith) in
      (enough, few, notice_child-Chosen S p item rest e)
