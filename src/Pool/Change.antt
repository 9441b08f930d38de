-- ===== src/Pool/Change.antt =====
-- `delete_pool_obj`, `handler_dead_processor`, `cross_ok` and `set_status_ok`: how the pool changes.
use mathlib.Core.List.Memᴰ.{head, append_right}
use http_callback_serve_vers.Base.{
  ℕ, suc, ◌+◌, ◌-◌, take, drop, take-append, ◌≤◌, true, false, List, [], ◌∷◌, ◌++◌, map, ◌≡◌, refl,
  sym, ◌∙◌, ap, arith, length, All, ok, ℤ, pos, minus_one, suc_ℤ, pred_ℤ, leb_ℤ, append_assoc, ◌⊎◌,
  some, inl, inr, if◌then◌else◌, Bool-cases, length-append, subst, All-Mem,
}
use http_callback_serve_vers.Pool.SList.{
  modify_at, modify_at-append, position, erase_first, length-erase_first,
}
use http_callback_serve_vers.Pool.Fill.{worker, forked}
use http_callback_serve_vers.Pool.{
  Processor, Slots, fresh, proc_alloc, has_pid, Pool, unlink, delete_loop, delete_pool_obj,
  insert_pool, handler_dead_processor, crossed, truth, cross_loop, cross_ok, set_status_loop,
  set_status_ok, nproc_max_num,
}

-- A pid that is set to 0, and a status that is set for a pid.
abbrev pub without_pid : Processor → Processor
without_pid item = record item { pid = pos 0 }

abbrev pub marked : ℤ → Processor → Processor
marked pid item = if has_pid pid item then record item { status = pos 1 } else item

drop-append_one :
    (xs : List Processor) (y : Processor) (ys : List Processor)
    → drop (suc (length xs)) (xs ++ y ∷ ys) ≡ ys
drop-append_one [] y ys = refl
drop-append_one (x ∷ xs) y ys = drop-append_one xs y ys

module _ (S : Slots) where
  open S use {
    Head, entries, insert_head, modify, first_past, link_past, entries-insert_head, entries-modify,
    entries-first_past, entries-link_past,
  }

  -- What the two assignments leave of the list, for the entry behind `done`.
  entries-past :
      (done : List Processor) (item : Processor) (items : List Processor) (pre : ℕ) (h : Head)
      → entries h ≡ done ++ item ∷ items
      → pre ≡ length done - 1
      → entries (unlink S pre (length done) h) ≡ done ++ items
  entries-past [] item items pre h e k = entries-first_past 0 h ∙ ap (drop 1) e
  entries-past (d ∷ ds) item items pre h e k =
      let at : pre ≡ length ds = omega arith in
      entries-link_past pre (suc (length ds)) h (omega arith)
      ∙ ap (λ l. take (suc pre) l ++ drop (suc (suc (length ds))) l) e
      ∙ rw (at, take-append, drop-append_one ds item items) refl

  -- The walk over `items` behind `done`.
  delete_loop-erase_first :
      (pid : ℤ) (pre : ℕ) (done items : List Processor) (h : Head)
      → entries h ≡ done ++ items
      → pre ≡ length done - 1
      → entries (delete_loop S pid pre (length done) items h)
        ≡ done ++ erase_first (has_pid pid) items
  unfolding delete_loop
  delete_loop-erase_first pid pre done [] h e k = e
  delete_loop-erase_first pid pre done (item ∷ items) h e k =
      let next : length done + 1 ≡ length (done ++ item ∷ []) =
        omega (arith, length-append done (item ∷ [])) in
      elim (Bool-cases (has_pid pid item)) [
        | inl hit ↦ rw hit (entries-past done item items pre h e k)
        | inr miss ↦
            rw (miss, next)
              (delete_loop-erase_first pid (length done) (done ++ item ∷ []) items h
                  (e ∙ sym (append_assoc done (item ∷ []) items)) (omega arith)
                ∙ append_assoc done (item ∷ []) (erase_first (has_pid pid) items))
      ]

  -- `delete_pool_obj` takes out the first entry with the pid, if there is one, and no other. The counter
  -- falls by one in any case.
  pub delete_pool_obj-erase_first :
      (pid : ℤ) (pool : Pool S)
      → (entries (delete_pool_obj S pid pool).head ≡ erase_first (has_pid pid) (entries pool.head))
        × ((delete_pool_obj S pid pool).n_proc ≡ pred_ℤ pool.n_proc)
  unfolding delete_pool_obj
  delete_pool_obj-erase_first pid pool =
      (delete_loop-erase_first pid 0 [] (entries pool.head) pool.head refl refl, refl)

  pub insert_pool-room :
      (pid : ℤ) (pool : Pool S)
      → leb_ℤ (suc_ℤ pool.n_proc) (pos nproc_max_num) ≡ true
      → insert_pool S true pid pool
        ≡ ok (record pool { head = insert_head (record fresh { pid = pid }) pool.head })
  unfolding insert_pool proc_alloc
  insert_pool-room pid pool h = rw h

  -- A dead child that is in the pool is replaced by the new one at the front: the pool keeps its size.
  -- The counter falls by one, since only `delete_pool_obj` changes it.
  pub handler_dead_processor-replaced :
      (pid : ℤ) (new k i : ℕ) (pool : Pool S)
      → pool.n_proc ≡ pos (suc k)
      → k ≤ 9
      → position (has_pid pid) (entries pool.head) ≡ some i
      → (p : Pool S) × (handler_dead_processor S pid (forked new) true pool ≡ ok p)
        × (entries p.head ≡ worker new ∷ erase_first (has_pid pid) (entries pool.head))
        × (length (entries p.head) ≡ length (entries pool.head))
        × (p.n_proc ≡ pos k)
  unfolding handler_dead_processor
  handler_dead_processor-replaced pid new k i pool count small found =
      let (gone, fall) = delete_pool_obj-erase_first pid pool in
      let rest = delete_pool_obj S pid pool in
      let counted : rest.n_proc ≡ pos k = fall ∙ ap pred_ℤ count in
      let room : leb_ℤ (suc_ℤ rest.n_proc) (pos nproc_max_num) ≡ true = rw counted (ground arith) in
      let front = entries-insert_head (worker new) rest.head ∙ ap (λ l. worker new ∷ l) gone in
      (
        record rest { head = insert_head (worker new) rest.head },
        insert_pool-room (forked new) rest room,
        front,
        ap length front
            ∙ omega (arith, length-erase_first (has_pid pid) (entries pool.head) i found),
        counted,
      )

  -- The walk of `cross_ok` over `items` behind `done`: either none of them passes the test, or one does,
  -- and those behind it are left alone. All that were tested get 0 or 1 for their pid.
  abbrev pub Crosses : ℤ → List Processor → List Processor → ℤ × Head → Type 0
  Crosses pid done items r =
      (All (λ item. crossed pid item ≡ false) items
        × (r.0 ≡ minus_one)
        × (entries r.1 ≡ done ++ map without_pid items))
      ⊎ ((before : List Processor) × (item : Processor) × (behind : List Processor) × (items
            ≡ before ++ item ∷ behind)
          × All (λ item'. crossed pid item' ≡ false) before
          × (crossed pid item ≡ true)
          × (r.0 ≡ pos 0)
          × (entries r.1
              ≡ done ++ (map without_pid before ++ record item { pid = pos 1 } ∷ behind)))

  Crosses-behind :
      (pid : ℤ) (done items : List Processor) (item : Processor) (r : ℤ × Head)
      → crossed pid item ≡ false
      → Crosses pid (done ++ without_pid item ∷ []) items r
      → Crosses pid done (item ∷ items) r
  Crosses-behind pid done items item r fails (inl (none_ok, result, left)) =
      inl ((fails, none_ok), result, left ∙ append_assoc done (without_pid item ∷ []) _)
  Crosses-behind pid done items item r fails
        (inr (before, hit, behind, e, none_ok, passes, result, left)) =
      inr (
        item ∷ before,
        hit,
        behind,
        ap (λ l. item ∷ l) e,
        (fails, none_ok),
        passes,
        result,
        left ∙ append_assoc done (without_pid item ∷ []) _,
      )

  cross_loop-Crosses :
      (pid : ℤ) (done items : List Processor) (h : Head)
      → entries h ≡ done ++ items
      → Crosses pid done items (cross_loop S pid (length done) items h)
  unfolding cross_loop
  cross_loop-Crosses pid done [] h e = inl (tt, refl, e)
  cross_loop-Crosses pid done (item ∷ items) h e =
      let put = λ (item' : Processor). record item' { pid = truth (crossed pid item) } in
      let h' = modify (length done) put h in
      let now : entries h' ≡ done ++ put item ∷ items =
        entries-modify (length done) put h
        ∙ ap (modify_at (length done) put) e
        ∙ modify_at-append done put item items in
      let next : length done + 1 ≡ length (done ++ without_pid item ∷ []) =
        omega (arith, length-append done (without_pid item ∷ [])) in
      elim (Bool-cases (crossed pid item)) [
        | inl hit ↦ rw hit (inr ([], item, items, refl, tt, hit, refl, rw hit at now))
        | inr miss ↦
            let h'' = modify (length done) (λ (item' : Processor). without_pid item') h in
            let behind = done ++ without_pid item ∷ [] in
            let step : cross_loop S pid (length done) (item ∷ items) h
                ≡ cross_loop S pid (length behind) items h'' =
              rw (next, miss) refl in
            let now' : entries h'' ≡ behind ++ items =
              rw miss at now ∙ sym (append_assoc done (without_pid item ∷ []) items) in
            subst (Crosses pid done (item ∷ items)) (sym step) (
              Crosses-behind pid done items item _ miss
                (cross_loop-Crosses pid behind items h'' now'))
      ]

  -- `cross_ok` returns 0 where an entry passes its test, which is the first one with status 1 unless the pid
  -- asked for is 0, and -1 where none does. On the way it destroys what it looks at: each entry in
  -- front of the one that passes has its pid set to 0, and that one has it set to 1, since the test
  -- assigns. The entries behind it and the counter are left alone.
  pub cross_ok-Crosses :
      (pid : ℤ) (pool : Pool S)
      → Crosses pid [] (entries pool.head) ((cross_ok S pid pool).0, (cross_ok S pid pool).1.head)
        × ((cross_ok S pid pool).1.n_proc ≡ pool.n_proc)
  unfolding cross_ok
  cross_ok-Crosses pid pool = (cross_loop-Crosses pid [] (entries pool.head) pool.head refl, refl)

  -- Where no entry passes the test, the whole pool has lost its pids.
  pub cross_ok-none :
      (pid : ℤ) (pool : Pool S)
      → All (λ item. crossed pid item ≡ false) (entries pool.head)
      → ((cross_ok S pid pool).0 ≡ minus_one)
        × (entries (cross_ok S pid pool).1.head ≡ map without_pid (entries pool.head))
        × ((cross_ok S pid pool).1.n_proc ≡ pool.n_proc)
  cross_ok-none pid pool none_ok =
      let (crosses, counter) = cross_ok-Crosses pid pool in
      elim crosses [
        | inl (all, result, left) ↦ (result, left, counter)
        | inr (before, item, behind, e, fails, passes, result, left) ↦
            let fails' =
              All-Mem (λ item'. crossed pid item' ≡ false) (before ++ item ∷ behind)
                (subst (All (λ item'. crossed pid item' ≡ false)) e none_ok)
                (append_right before (head refl)) in
            absurd cc
      ]

  set_status_loop-marked :
      (pid : ℤ) (done items : List Processor) (h : Head)
      → entries h ≡ done ++ items
      → entries (set_status_loop S pid (length done) items h) ≡ done ++ map (marked pid) items
  unfolding set_status_loop
  set_status_loop-marked pid done [] h e = e
  set_status_loop-marked pid done (item ∷ items) h e =
      let put = λ (item' : Processor). record item' { status = pos 1 } in
      let next : length done + 1 ≡ length (done ++ marked pid item ∷ []) =
        omega (arith, length-append done (marked pid item ∷ [])) in
      let h' = if has_pid pid item then modify (length done) put h else h in
      let ih = λ (now : entries h' ≡ (done ++ marked pid item ∷ []) ++ items).
        set_status_loop-marked pid (done ++ marked pid item ∷ []) items h' now in
      let after = append_assoc done (marked pid item ∷ []) (map (marked pid) items) in
      let now : entries h' ≡ (done ++ marked pid item ∷ []) ++ items =
        elim (Bool-cases (has_pid pid item)) [
          | inl f ↦
              rw (f, append_assoc)
                (entries-modify (length done) put h
                  ∙ ap (modify_at (length done) put) e
                  ∙ modify_at-append done put item items)
          | inr f ↦ rw (f, append_assoc) e
        ] in
      rw next (ih now ∙ after)

  -- `set_status_ok` sets the status of every entry with the pid to 1, and changes nothing else.
  pub set_status_ok-marked :
      (pid : ℤ) (pool : Pool S)
      → (entries (set_status_ok S pid pool).head ≡ map (marked pid) (entries pool.head))
        × ((set_status_ok S pid pool).n_proc ≡ pool.n_proc)
  unfolding set_status_ok
  set_status_ok-marked pid pool =
      (set_status_loop-marked pid [] (entries pool.head) pool.head refl, refl)
