-- ===== src/Tests/PoolTests.antt =====
-- Tests of the process pool, over lists.
use http_callback_serve_vers.Base.{
  ℕ, ◌≡◌, refl, arith, List, [], ◌∷◌, map, ok, pos, true, length, ◌≤◌, leb_ℤ,
}
use http_callback_serve_vers.Pool.SList.{SList, list_slist}
use http_callback_serve_vers.Pool.{
  Processor, Pool, delete_pool_obj, handler_dead_processor, cross_ok, set_status_ok, notice_child,
  init_manager_proc,
}
use http_callback_serve_vers.Pool.Fill.{forked, worker}
use http_callback_serve_vers.Pool.Change.{
  marked, delete_pool_obj-erase_first, handler_dead_processor-replaced, Crosses, cross_ok-Crosses,
  set_status_ok-marked,
}
use http_callback_serve_vers.Pool.Balance.{Balanced, nleft_sum, noticed, noticed-Balanced}
use http_callback_serve_vers.Pool.Loads.{loads, noticed-Perm}
use mathlib.Core.List.{Perm}
use mathlib.Core.List.Perm
use http_callback_serve_vers.Pool.Staff.{Reach, here, next, replace, mark, Reach-notice_child}
use http_callback_serve_vers.Pool.Choose.{Chosen}

abbrev pub S : SList Processor
S = list_slist Processor

abbrev pub ten : List ℕ
ten = 11 ∷ 12 ∷ 13 ∷ 14 ∷ 15 ∷ 16 ∷ 17 ∷ 18 ∷ 19 ∷ 20 ∷ []

abbrev two : List Processor
two = worker 5 ∷ record (worker 6) { nleft = pos 250 } ∷ []

abbrev pool : Pool S
pool = record { n_proc = pos 2; head = two }

delete_pool_obj-erase_first_example :
    ((delete_pool_obj S (pos 99) pool).head ≡ two)
    × ((delete_pool_obj S (pos 99) pool).n_proc ≡ pos 1)
delete_pool_obj-erase_first_example = delete_pool_obj-erase_first S (pos 99) pool

handler_dead_processor-replaced_example :
    (p : Pool S) × (handler_dead_processor S (pos 6) (forked 8) true pool ≡ ok p)
    × (p.head ≡ worker 8 ∷ record (worker 6) { nleft = pos 250 } ∷ [])
    × (length p.head ≡ 2)
    × (p.n_proc ≡ pos 1)
handler_dead_processor-replaced_example =
    handler_dead_processor-replaced S (pos 6) 8 1 0 pool refl (omega arith) refl

cross_ok-Crosses_example :
    Crosses S (pos 6) [] two ((cross_ok S (pos 6) pool).0, (cross_ok S (pos 6) pool).1.head)
    × ((cross_ok S (pos 6) pool).1.n_proc ≡ pos 2)
cross_ok-Crosses_example = cross_ok-Crosses S (pos 6) pool

set_status_ok-marked_example :
    ((set_status_ok S (pos 6) pool).head ≡ map (marked (pos 6)) two)
    × ((set_status_ok S (pos 6) pool).n_proc ≡ pos 2)
set_status_ok-marked_example = set_status_ok-marked S (pos 6) pool

notice_child_runs :
    notice_child S pool
    ≡ ok (
      pos 7,
      record { n_proc = pos 2; head = worker 5 ∷ record (worker 6) { nleft = pos 249 } ∷ [] },
    )
unfolding notice_child
notice_child_runs = refl

noticed-Balanced_example :
    (p : Pool S) × (noticed S 13 (record { n_proc = pos 3; head = map worker (4 ∷ 5 ∷ 6 ∷ []) })
      ≡ ok p)
    × Balanced p.head
    × (length p.head ≡ 3)
    × (nleft_sum p.head ≡ pos 587)
noticed-Balanced_example =
    noticed-Balanced S 13 (record { n_proc = pos 3; head = map worker (4 ∷ 5 ∷ 6 ∷ []) }) (pos 200)
      (worker 4) (map worker (5 ∷ 6 ∷ [])) refl (refl, (refl, (refl, tt)))

abbrev staff : Pool S
staff = record { n_proc = pos 10; head = map worker ten }

abbrev replaced : Pool S
replaced = record {
  n_proc = pos 9;
  head = map worker (30 ∷ 11 ∷ 12 ∷ 14 ∷ 15 ∷ 16 ∷ 17 ∷ 18 ∷ 19 ∷ 20 ∷ []);
}

-- Child 13 dies, is replaced by child 30, and child 15 becomes ready.
staff-Reach : Reach S staff (set_status_ok S (forked 15) replaced)
unfolding handler_dead_processor
staff-Reach = next (next here (replace (forked 13) (forked 30) true refl)) (mark (forked 15) refl)

Reach-notice_child_example :
    (10 ≤ length (set_status_ok S (forked 15) replaced).head)
    × (leb_ℤ (set_status_ok S (forked 15) replaced).n_proc (pos 10) ≡ true)
    × Chosen S
        (set_status_ok S (forked 15) replaced)
        (set_status_ok S (forked 15) replaced).head
        (notice_child S (set_status_ok S (forked 15) replaced))
unfolding init_manager_proc
Reach-notice_child_example = Reach-notice_child S (λ _. true) ten (λ _. refl) refl refl staff-Reach

abbrev other_way : Pool S
other_way = record { n_proc = pos 2; head = record (worker 9) { nleft = pos 250 } ∷ worker 4 ∷ [] }

noticed-Perm_example :
    (p p' : Pool S) × (noticed S 60 pool ≡ ok p)
    × (noticed S 60 other_way ≡ ok p')
    × Perm (loads p.head) (loads p'.head)
noticed-Perm_example =
    noticed-Perm S S 60 pool other_way (omega arith) (omega arith)
      (Perm.swap (pos 250) (pos 200) [])
