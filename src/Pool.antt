-- ===== src/Pool.antt =====
-- The process pool of inc/http_task.h. The entries stand behind the interface of `Pool.SList`; `fork`,
-- `malloc` and `kill` are arguments or results. A pointer `item` is the position of the entry.
pub mod SList
pub mod Fill
pub mod Change
pub mod Choose
pub mod Balance
pub mod Staff
pub mod Loads
use http_callback_serve_vers.Base.{
  ℕ, zero, suc, ◌+◌, Bool, true, false, ◌&&◌, not, List, [], ◌∷◌, map, Option, none, some, ◌==◌,
  ltb, if◌then◌else◌, Bytes, codes, Run, ok, fault, exit, waiting, and_then, null_pointer, ℤ, pos,
  negsuc, minus_one, eq_ℤ, leb_ℤ, pred_ℤ, suc_ℤ,
}
use SList.{position}

-- NPROC_MAX_NUM and MAX_FD_NUM.
abbrev pub nproc_max_num : ℕ
nproc_max_num = 10

abbrev pub max_fd_num : ℤ
max_fd_num = pos 200

-- `open_max_fd()`, from the results of `getrlimit`: the limit that it computes is a local variable.
unfoldable pub open_max_fd : ℤ → ℕ → Run ℕ
open_max_fd (negsuc e) rlim_max = exit (codes "error:getrlimit")
open_max_fd (pos n) rlim_max = ok (if ltb 200 rlim_max then 200 else rlim_max)

pub record Processor : Type 0 where
  pub pid : ℤ
  pub nleft : ℤ
  pub status : ℤ

abbrev pub Slots : Type 1
Slots = SList.SList Processor

-- What `proc_alloc` sets.
abbrev pub fresh : Processor
fresh = record { pid = minus_one; nleft = max_fd_num; status = pos 0 }

-- `proc_alloc()`, by whether `malloc` returns an object.
unfoldable pub proc_alloc : Bool → Run Processor
proc_alloc true = ok fresh
proc_alloc false = exit (codes "malloc failed!")

abbrev pub has_pid : ℤ → Processor → Bool
has_pid pid item = eq_ℤ item.pid pid

-- `kill(item->pid, SIGINT)` for each entry: the pids in order.
unfoldable pub tell_chld_exit_pids : List Processor → List ℤ
tell_chld_exit_pids items = map (λ (item : Processor). item.pid) items

-- The walk of `notice_child`: the position and the entry that are best so far.
abbrev pub better : ℕ × Processor → ℕ → Processor → ℕ × Processor
better (j, best) i item = if leb_ℤ best.nleft item.nleft then (i, item) else (j, best)

unfoldable pub notice_loop : ℕ × Processor → ℕ → List Processor → ℕ × Processor
notice_loop best i [] = best
notice_loop best i (item ∷ items) = notice_loop (better best i item) (i + 1) items

-- `item->pid=pid&&item->status==1`: the truth value, which is assigned to the pid.
abbrev pub crossed : ℤ → Processor → Bool
crossed pid item = not (eq_ℤ pid (pos 0)) && eq_ℤ item.status (pos 1)

abbrev pub truth : Bool → ℤ
truth true = pos 1
truth false = pos 0

module _ (S : Slots) where
  open S use {Head, initializer, entries, insert_head, modify, first_past, link_past}

  -- `struct s_pool_t`: the list's head and the counter that inc/list.h adds to it.
  pub record Pool : Type 0 where
    pub n_proc : ℤ
    pub head : Head

  -- `proc_pool` at the start.
  abbrev pub proc_pool : Pool
  proc_pool = record { n_proc = pos 0; head = initializer }

  -- The loop of `create_proc_pool`, with the rounds left and the results of `malloc`.
  unfoldable pub create_loop : ℕ → (ℕ → Bool) → Head → Run Head
  unfolding proc_alloc
  create_loop zero mallocs h = ok h
  create_loop (suc k) mallocs h =
      and_then (proc_alloc (mallocs k))
        (λ (item : Processor). create_loop k mallocs (insert_head item h))

  -- `create_proc_pool()`.
  unfoldable pub create_proc_pool : (ℕ → Bool) → Pool → Run Pool
  unfolding create_loop
  create_proc_pool mallocs pool =
      and_then (create_loop nproc_max_num mallocs pool.head)
        (λ (h : Head). ok (record pool { head = h }))

  -- `insert_pool_obj(pid)`.
  unfoldable pub insert_pool_obj : ℤ → Pool → Pool
  insert_pool_obj pid pool = elim (position (has_pid minus_one) (entries pool.head)) [
    | none ↦ pool
    | some i ↦ record {
      n_proc = suc_ℤ pool.n_proc;
      head = modify i (λ item. record item { pid = pid }) pool.head;
    }
  ]

  -- What `delete_pool_obj` assigns at the entry that it takes out, by whether it is the first one.
  abbrev pub unlink : ℕ → ℕ → Head → Head
  unlink pre zero h = first_past zero h
  unlink pre (suc i) h = link_past pre (suc i) h

  -- The walk of `delete_pool_obj` from position `i` on, with `pre` the position of the last entry that
  -- it has passed, or of the first one.
  unfoldable pub delete_loop : ℤ → ℕ → ℕ → List Processor → Head → Head
  delete_loop pid pre i [] h = h
  delete_loop pid pre i (item ∷ items) h =
      let rest = delete_loop pid i (i + 1) items h in
      if has_pid pid item then unlink pre i h else rest

  -- `delete_pool_obj(pid)`.
  unfoldable pub delete_pool_obj : ℤ → Pool → Pool
  unfolding delete_loop
  delete_pool_obj pid pool = record {
    n_proc = pred_ℤ pool.n_proc;
    head = delete_loop pid 0 0 (entries pool.head) pool.head;
  }

  -- `insert_pool(pid)`, by whether `malloc` returns an object.
  unfoldable pub insert_pool : Bool → ℤ → Pool → Run Pool
  unfolding proc_alloc
  insert_pool got pid pool =
      if leb_ℤ (suc_ℤ pool.n_proc) (pos nproc_max_num)
      then and_then (proc_alloc got) (λ (item : Processor).
        ok (record pool { head = insert_head (record item { pid = pid }) pool.head }))
      else ok pool

  -- The walk of `cross_ok` from position `i` on.
  unfoldable pub cross_loop : ℤ → ℕ → List Processor → Head → ℤ × Head
  cross_loop pid i [] h = (minus_one, h)
  cross_loop pid i (item ∷ items) h =
      let h' = modify i (λ item'. record item' { pid = truth (crossed pid item) }) h in
      let rest = cross_loop pid (i + 1) items h' in if crossed pid item then (pos 0, h') else rest

  -- `cross_ok(pid)`.
  unfoldable pub cross_ok : ℤ → Pool → ℤ × Pool
  unfolding cross_loop
  cross_ok pid pool =
      let (r, h) = cross_loop pid 0 (entries pool.head) pool.head in (r, record pool { head = h })

  abbrev pub notice_first : List Processor → Pool → Run (ℤ × Pool)
  notice_first [] pool = fault null_pointer
  notice_first (item ∷ items) pool =
      let (i, best) = notice_loop (0, item) 0 (item ∷ items) in
      ok (
        best.pid,
        record pool {
          head = modify i (λ item'. record item' { nleft = pred_ℤ item'.nleft }) pool.head;
        },
      )

  -- `notice_child()`: the last entry with the most descriptors left.
  unfoldable pub notice_child : Pool → Run (ℤ × Pool)
  unfolding notice_loop
  notice_child pool = notice_first (entries pool.head) pool

  -- The walk of `set_status_ok` from position `i` on, and `set_status_ok(pid)`.
  unfoldable pub set_status_loop : ℤ → ℕ → List Processor → Head → Head
  set_status_loop pid i [] h = h
  set_status_loop pid i (item ∷ items) h =
      let h' = modify i (λ item'. record item' { status = pos 1 }) h in
      set_status_loop pid (i + 1) items (if has_pid pid item then h' else h)

  unfoldable pub set_status_ok : ℤ → Pool → Pool
  unfolding set_status_loop
  set_status_ok pid pool = record pool {
    head = set_status_loop pid 0 (entries pool.head) pool.head;
  }

  -- `tell_chld_exit()`: the pids that get a signal.
  unfoldable pub tell_chld_exit : Pool → List ℤ
  unfolding tell_chld_exit_pids
  tell_chld_exit pool = tell_chld_exit_pids (entries pool.head)

  -- `handler_dead_processor(pid, fd)`, by the result of `fork` and of `malloc`. In the child,
  -- `jump_task_pool_obj` does not return.
  abbrev pub with_fork : Bool → ℤ → Pool → Run Pool
  with_fork got (negsuc e) pool = exit (codes "fork failed")
  with_fork got (pos zero) pool = waiting
  with_fork got (pos (suc n)) pool = insert_pool got (pos (suc n)) pool

  unfoldable pub handler_dead_processor : ℤ → ℤ → Bool → Pool → Run Pool
  unfolding delete_pool_obj insert_pool
  handler_dead_processor pid forked got pool = with_fork got forked (delete_pool_obj pid pool)

  -- The loop of `init_manager_proc`, with the rounds left and the results of `fork`, and
  -- `init_manager_proc(fd)`. Where no further result is given, the call of `fork` has not returned.
  unfoldable pub fork_loop : ℕ → List ℤ → Pool → Run Pool
  unfolding insert_pool_obj
  fork_loop zero forks pool = ok pool
  fork_loop (suc k) [] pool = waiting
  fork_loop (suc k) (negsuc e ∷ forks) pool = exit (codes "fork failed!")
  fork_loop (suc k) (pos zero ∷ forks) pool = waiting
  fork_loop (suc k) (pos (suc n) ∷ forks) pool =
      fork_loop k forks (insert_pool_obj (pos (suc n)) pool)

  unfoldable pub init_manager_proc : (ℕ → Bool) → List ℤ → Pool → Run Pool
  unfolding create_proc_pool fork_loop
  init_manager_proc mallocs forks pool =
      and_then (create_proc_pool mallocs pool) (λ (p : Pool). fork_loop nproc_max_num forks p)
