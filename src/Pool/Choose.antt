-- ===== src/Pool/Choose.antt =====
-- `notice_child`: the child that is chosen.
use http_callback_serve_vers.Base.{
  ℕ, ◌+◌, true, false, List, [], ◌∷◌, ◌++◌, ◌≡◌, refl, sym, ◌∙◌, ap, arith, length, All, get_elem?,
  Run, ok, ℤ, pos, negsuc, pred_ℤ, leb_ℤ, append_assoc, some, inl, inr, Bool-cases, length-append,
  append-nil, subst,
}
use http_callback_serve_vers.Pool.SList.{modify_at}
use http_callback_serve_vers.Pool.{Processor, Slots, Pool, notice_loop, notice_first, notice_child}

abbrev pub AtMost : Processor → Processor → Type 0
AtMost best item = leb_ℤ item.nleft best.nleft ≡ true

abbrev pub one_less : Processor → Processor
one_less item = record item { nleft = pred_ℤ item.nleft }

leb_ℤ_refl : (a : ℤ) → leb_ℤ a a ≡ true
leb_ℤ_refl (pos n) = ground arith
leb_ℤ_refl (negsuc n) = ground arith

leb_ℤ_trans : (a b c : ℤ) → leb_ℤ a b ≡ true → leb_ℤ b c ≡ true → leb_ℤ a c ≡ true
leb_ℤ_trans a b c h k = ground arith

leb_ℤ_total : (a b : ℤ) → leb_ℤ a b ≡ false → leb_ℤ b a ≡ true
leb_ℤ_total a b h = ground arith

All-AtMost :
    (best item : Processor) (items : List Processor)
    → AtMost item best
    → All (AtMost best) items
    → All (AtMost item) items
All-AtMost best item [] h all = tt
All-AtMost best item (x ∷ items) h all =
    (leb_ℤ_trans x.nleft best.nleft item.nleft all.0 h, All-AtMost best item items h all.1)

All-last :
    (best item : Processor) (items : List Processor)
    → All (AtMost best) items
    → AtMost best item
    → All (AtMost best) (items ++ item ∷ [])
All-last best item [] all h = (h, tt)
All-last best item (x ∷ items) all h = (all.0, All-last best item items all.1 h)

get_elem?-append :
    (xs : List Processor) (y : Processor) (ys : List Processor)
    → get_elem? (xs ++ y ∷ ys) (length xs) ≡ some y
get_elem?-append [] y ys = refl
get_elem?-append (x ∷ xs) y ys = get_elem?-append xs y ys

-- The entry at the position is at least as good as all.
abbrev pub IsBest : List Processor → ℕ × Processor → Type 0
IsBest items r = (get_elem? items r.0 ≡ some r.1) × All (AtMost r.1) items

notice_loop-better :
    (j i : ℕ) (best x : Processor) (items : List Processor)
    → leb_ℤ best.nleft x.nleft ≡ true
    → notice_loop (j, best) i (x ∷ items) ≡ notice_loop (i, x) (i + 1) items
unfolding notice_loop
notice_loop-better j i best x items h = rw h

notice_loop-worse :
    (j i : ℕ) (best x : Processor) (items : List Processor)
    → leb_ℤ best.nleft x.nleft ≡ false
    → notice_loop (j, best) i (x ∷ items) ≡ notice_loop (j, best) (i + 1) items
unfolding notice_loop
notice_loop-worse j i best x items h = rw h

notice_loop-IsBest :
    (done items : List Processor) (j : ℕ) (best : Processor)
    → get_elem? (done ++ items) j ≡ some best
    → All (AtMost best) done
    → IsBest (done ++ items) (notice_loop (j, best) (length done) items)
unfolding notice_loop
notice_loop-IsBest done [] j best at all = (at, rw append-nil all)
notice_loop-IsBest done (x ∷ items) j best at all =
    let done' = done ++ x ∷ [] in
    let next : length done + 1 ≡ length done' = omega (arith, length-append done (x ∷ [])) in
    let joined = append_assoc done (x ∷ []) items in
    let whole = λ (r : ℕ × Processor) (best' : IsBest (done' ++ items) r).
      subst (λ l. IsBest l r) joined best' in
    elim (Bool-cases (leb_ℤ best.nleft x.nleft)) [
      | inl h ↦
          let step =
            notice_loop-better j (length done) best x items h
            ∙ ap (λ k. notice_loop (length done, x) k items) next in
          subst (λ r. IsBest (done ++ x ∷ items) r) (sym step)
            (whole _ (
              notice_loop-IsBest done' items (length done) x
                (ap (λ l. get_elem? l (length done)) joined ∙ get_elem?-append done x items)
                (All-last x x done (All-AtMost best x done h all) (leb_ℤ_refl x.nleft))))
      | inr h ↦
          let step =
            notice_loop-worse j (length done) best x items h
            ∙ ap (λ k. notice_loop (j, best) k items) next in
          subst (λ r. IsBest (done ++ x ∷ items) r) (sym step)
            (whole _ (
              notice_loop-IsBest done' items j best (ap (λ l. get_elem? l j) joined ∙ at)
                (All-last best x done all (leb_ℤ_total best.nleft x.nleft h))))
    ]

module _ (S : Slots) where
  open S use {Head, entries, modify, entries-modify}

  -- The pid that `notice_child` returned is that of an entry with the most descriptors left, which then
  -- has one less. All else stays.
  abbrev pub Chosen : Pool S → List Processor → Run (ℤ × Pool S) → Type 0
  Chosen pool items r =
      (i : ℕ) × (best : Processor) × (p : Pool S) × (r ≡ ok (best.pid, p))
      × IsBest items (i, best)
      × (entries p.head ≡ modify_at i one_less items)
      × (p.n_proc ≡ pool.n_proc)

  notice_first-Chosen :
      (items : List Processor) (item : Processor) (rest : List Processor) (pool : Pool S)
      → entries pool.head ≡ items
      → items ≡ item ∷ rest
      → Chosen pool items (notice_first S items pool)
  notice_first-Chosen [] item rest pool e f = cc
  notice_first-Chosen (x ∷ xs) item rest pool e f =
      let r = notice_loop (0, x) 0 (x ∷ xs) in
      let head' = modify r.0 one_less pool.head in
      (
        r.0,
        r.1,
        record pool { head = head' },
        refl,
        notice_loop-IsBest [] (x ∷ xs) 0 x refl tt,
        entries-modify r.0 one_less pool.head ∙ ap (modify_at r.0 one_less) e,
        refl,
      )

  -- On a pool with an entry, `notice_child` returns the pid of an entry with the most descriptors left,
  -- and takes one from that entry only.
  pub notice_child-Chosen :
      (pool : Pool S) (item : Processor) (rest : List Processor)
      → entries pool.head ≡ item ∷ rest
      → Chosen pool (entries pool.head) (notice_child S pool)
  unfolding notice_child
  notice_child-Chosen pool item rest e =
      notice_first-Chosen (entries pool.head) item rest pool refl e
