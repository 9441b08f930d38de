-- ===== src/Pool/Loads.antt =====
-- The pool seen from outside: how many descriptors its entries have left, in no order.
use mathlib.Core.List.{Perm, Permᴰ}
use mathlib.Core.List.Perm
use mathlib.Core.Bool.{Bool-set}
use mathlib.Core.Logic.{∥∥₁_elim}
use http_callback_serve_vers.Base.{
  ℕ, zero, suc, ◌≤◌, Bool, true, ◌&&◌, List, [], ◌∷◌, map, some, ◌≡◌, refl, sym, ◌∙◌, ap, subst,
  arith, length, All, get_elem?, ok, ℤ, pred_ℤ, leb_ℤ,
}
use http_callback_serve_vers.Pool.SList.{modify_at}
use http_callback_serve_vers.Pool.{Processor, Slots, Pool, notice_child}
use http_callback_serve_vers.Pool.Choose.{AtMost, one_less, notice_child-Chosen}
use http_callback_serve_vers.Pool.Balance.{noticed, first_entry, length-modify_at}

abbrev pub loads : List Processor → List ℤ
loads = map (λ entry. entry.nleft)

-- `t` is the largest number, and no other entry changes.
abbrev pub Takes : List ℤ → List ℤ → Type 0
Takes before after =
    (t : ℤ) × (rest : List ℤ) × Perm before (t ∷ rest)
    × All (λ z. leb_ℤ z t ≡ true) (t ∷ rest)
    × Perm after (pred_ℤ t ∷ rest)

all_leb : ℤ → List ℤ → Bool
all_leb t [] = true
all_leb t (z ∷ zs) = leb_ℤ z t && all_leb t zs

all_leb-Permᴰ : (t : ℤ) {xs ys : List ℤ} → Permᴰ xs ys → all_leb t xs ≡ all_leb t ys
unfolding all_leb
all_leb-Permᴰ t Permᴰ.nil = refl
all_leb-Permᴰ t (Permᴰ.cons e p) = cc (all_leb-Permᴰ t p)
all_leb-Permᴰ t (Permᴰ.swap {a} {b} {a'} {b'} {l} e e') = rw (e, e') (ground arith)
all_leb-Permᴰ t (Permᴰ.trans p q) = all_leb-Permᴰ t p ∙ all_leb-Permᴰ t q

all_leb-Perm : (t : ℤ) (xs ys : List ℤ) → Perm xs ys → all_leb t xs ≡ all_leb t ys
all_leb-Perm t xs ys p = ∥∥₁_elim p (Bool-set (all_leb t xs) (all_leb t ys)) (all_leb-Permᴰ t)

All-all_leb : (t : ℤ) (zs : List ℤ) → All (λ z. leb_ℤ z t ≡ true) zs → all_leb t zs ≡ true
unfolding all_leb
All-all_leb t [] h = refl
All-all_leb t (z ∷ zs) (h, hs) = rw (h, All-all_leb t zs hs) refl

all_leb-cons : (t z : ℤ) (zs : List ℤ) → all_leb t (z ∷ zs) ≡ true → leb_ℤ z t ≡ true
unfolding all_leb
all_leb-cons t z zs h = ground arith

leb_ℤ_antisym : (a b : ℤ) → leb_ℤ a b ≡ true → leb_ℤ b a ≡ true → a ≡ b
leb_ℤ_antisym a b h k = ground arith

-- The largest number is the same in any order.
largest-Perm :
    (t u : ℤ) (xs ys : List ℤ)
    → Perm (t ∷ xs) (u ∷ ys)
    → All (λ z. leb_ℤ z t ≡ true) (t ∷ xs)
    → All (λ z. leb_ℤ z u ≡ true) (u ∷ ys)
    → leb_ℤ u t ≡ true
largest-Perm t u xs ys p h k =
    all_leb-cons t u ys (sym (all_leb-Perm t (t ∷ xs) (u ∷ ys) p) ∙ All-all_leb t (t ∷ xs) h)

-- What is taken does not depend on the order.
Takes-Perm : (xs ys xs' ys' : List ℤ) → Perm xs ys → Takes xs xs' → Takes ys ys' → Perm xs' ys'
Takes-Perm xs ys xs' ys' p (t, rest, before, most, after) (u, rest', before', most', after') =
    let whole : Perm (t ∷ rest) (u ∷ rest') =
      Perm.trans (Perm.symm before) (Perm.trans p before') in
    let same : t ≡ u =
      leb_ℤ_antisym t u (largest-Perm u t rest' rest (Perm.symm whole) most' most)
        (largest-Perm t u rest rest' whole most most') in
    let others : Perm rest rest' =
      Perm.cons_inv (subst (λ z. Perm (t ∷ rest) (z ∷ rest')) (sym same) whole) in
    Perm.trans after (
      Perm.trans
        (subst (λ z. Perm (pred_ℤ t ∷ rest) (pred_ℤ z ∷ rest')) same (Perm.cons (pred_ℤ t) others))
        (Perm.symm after'))

-- The entry at a position, taken out.
loads-modify_at :
    (items : List Processor) (i : ℕ) (best : Processor)
    → get_elem? items i ≡ some best
    → (rest : List ℤ) × Perm (loads items) (best.nleft ∷ rest)
      × Perm (loads (modify_at i one_less items)) (pred_ℤ best.nleft ∷ rest)
loads-modify_at [] i best e = cc
loads-modify_at (x ∷ items) zero best e =
    let same : x ≡ best = cc e in
    (
      loads items,
      subst (λ y. Perm (loads (x ∷ items)) (y.nleft ∷ loads items)) same (Perm.refl _),
      subst (λ y. Perm (loads (one_less x ∷ items)) (pred_ℤ y.nleft ∷ loads items)) same
          (Perm.refl _),
    )
loads-modify_at (x ∷ items) (suc i) best e =
    let (rest, p, q) = loads-modify_at items i best e in
    (
      x.nleft ∷ rest,
      Perm.trans (Perm.cons x.nleft p) (Perm.swap best.nleft x.nleft rest),
      Perm.trans (Perm.cons x.nleft q) (Perm.swap (pred_ℤ best.nleft) x.nleft rest),
    )

All-loads :
    (best : Processor) (items : List Processor)
    → All (AtMost best) items
    → all_leb best.nleft (loads items) ≡ true
unfolding all_leb
All-loads best [] h = refl
All-loads best (x ∷ items) (h, hs) = rw (h, All-loads best items hs) refl

all_leb-All : (t : ℤ) (zs : List ℤ) → all_leb t zs ≡ true → All (λ z. leb_ℤ z t ≡ true) zs
unfolding all_leb
all_leb-All t [] h = tt
all_leb-All t (z ∷ zs) h = (all_leb-cons t z zs h, all_leb-All t zs (ground arith))

module _ (S : Slots) where
  open S use {entries}

  -- `notice_child` on the numbers alone: it takes from the largest.
  notice_child-Takes :
      (pool : Pool S)
      → 1 ≤ length (entries pool.head)
      → (pid : ℤ) × (p : Pool S) × (notice_child S pool ≡ ok (pid, p))
        × (length (entries p.head) ≡ length (entries pool.head))
        × Takes (loads (entries pool.head)) (loads (entries p.head))
  notice_child-Takes pool h =
      let (item, others, e) = first_entry (entries pool.head) h in
      let (i, best, p, run, best_is, now, _) = notice_child-Chosen S pool item others e in
      let (rest, before, after) = loads-modify_at (entries pool.head) i best best_is.0 in
      let most =
        sym (all_leb-Perm best.nleft (loads (entries pool.head)) (best.nleft ∷ rest) before)
        ∙ All-loads best (entries pool.head) best_is.1 in
      (
        best.pid,
        p,
        run,
        ap length now ∙ length-modify_at i one_less (entries pool.head),
        (
          best.nleft,
          rest,
          before,
          all_leb-All best.nleft (best.nleft ∷ rest) most,
          subst (λ l. Perm (loads l) (pred_ℤ best.nleft ∷ rest)) (sym now) after,
        ),
      )

module _ (S S' : Slots) where
  open S use {entries}

  -- Two pools that are not empty, whatever their lists are made of, whose entries have the same numbers of
  -- descriptors left in any order, stay so while `notice_child` finds a child for each of `k` clients
  -- in both: order and representation make no difference to how the children are loaded.
  pub noticed-Perm :
      (k : ℕ) (pool : Pool S) (pool' : Pool S')
      → 1 ≤ length (entries pool.head)
      → 1 ≤ length (S'.entries pool'.head)
      → Perm (loads (entries pool.head)) (loads (S'.entries pool'.head))
      → (p : Pool S) × (p' : Pool S') × (noticed S k pool ≡ ok p)
        × (noticed S' k pool' ≡ ok p')
        × Perm (loads (entries p.head)) (loads (S'.entries p'.head))
  unfolding noticed
  noticed-Perm zero pool pool' h h' same = (pool, pool', refl, refl, same)
  noticed-Perm (suc k) pool pool' h h' same =
      let (_, q, run, size, takes) = notice_child-Takes S pool h in
      let (_, q', run', size', takes') = notice_child-Takes S' pool' h' in
      let (p, p', more, more', still) =
        noticed-Perm k q q' (omega arith) (omega arith) (Takes-Perm _ _ _ _ same takes takes') in
      (p, p', rw run more, rw run' more', still)
