-- ===== src/Pool/Balance.antt =====
-- `notice_child` in turn for client after client: how even the children are loaded.
use http_callback_serve_vers.Base.{
  ℕ, zero, suc, ◌≤◌, false, List, [], ◌∷◌, ◌≡◌, refl, sym, ◌∙◌, ap, arith, length, All, get_elem?,
  Run, ok, and_then, ℤ, ◌+ℤ◌, ◌-ℤ◌, pos, negsuc, pred_ℤ, leb_ℤ, some, inl, inr, ◌⊎◌, subst,
}
use http_callback_serve_vers.Pool.SList.{modify_at}
use http_callback_serve_vers.Pool.{Processor, Slots, Pool, notice_child}
use http_callback_serve_vers.Pool.Choose.{AtMost, one_less, IsBest, notice_child-Chosen}

sub_zero : (z : ℤ) → z -ℤ pos 0 ≡ z
sub_zero (pos n) = ground arith
sub_zero (negsuc n) = ground arith

pred_ℤ-add : (a b : ℤ) → pred_ℤ a +ℤ b ≡ pred_ℤ (a +ℤ b)
pred_ℤ-add a b = ground arith

add-pred_ℤ : (a b : ℤ) → a +ℤ pred_ℤ b ≡ pred_ℤ (a +ℤ b)
add-pred_ℤ a b = ground arith

pred_ℤ-sub : (a : ℤ) (k : ℕ) → pred_ℤ a -ℤ pos k ≡ a -ℤ pos (suc k)
pred_ℤ-sub a k = ground arith

-- The entries have `t` descriptors left, or one less.
abbrev pub Near : ℤ → Processor → Type 0
Near t item = (item.nleft ≡ t) ⊎ (item.nleft ≡ pred_ℤ t)

abbrev pub Balanced : List Processor → Type 0
Balanced items = (t : ℤ) × All (Near t) items

All-modify_at :
    (P : Processor → Type 0) (f : Processor → Processor) (items : List Processor) (i : ℕ)
    (best : Processor)
    → All P items
    → get_elem? items i ≡ some best
    → P (f best)
    → All P (modify_at i f items)
All-modify_at P f [] i best h e k = tt
All-modify_at P f (x ∷ items) zero best h e k = (subst (λ y. P (f y)) (cc e) k, h.1)
All-modify_at P f (x ∷ items) (suc i) best h e k = (h.0, All-modify_at P f items i best h.1 e k)

All-get_elem? :
    (P : Processor → Type 0) (items : List Processor) (i : ℕ) (best : Processor)
    → All P items
    → get_elem? items i ≡ some best
    → P best
All-get_elem? P [] i best h e = cc
All-get_elem? P (x ∷ items) zero best h e = subst P (cc e) h.0
All-get_elem? P (x ∷ items) (suc i) best h e = All-get_elem? P items i best h.1 e

leb_ℤ-pred : (t : ℤ) → leb_ℤ t (pred_ℤ t) ≡ false
leb_ℤ-pred (pos zero) = refl
leb_ℤ-pred (pos (suc n)) = ground arith
leb_ℤ-pred (negsuc n) = ground arith

-- Where the best entry has one less, all have.
All-Near-pred :
    (t : ℤ) (best : Processor) (items : List Processor)
    → best.nleft ≡ pred_ℤ t
    → All (Near t) items
    → All (AtMost best) items
    → All (Near (pred_ℤ t)) items
All-Near-pred t best [] e near most = tt
All-Near-pred t best (x ∷ items) e (inl h, near) (most, mosts) =
    let low : leb_ℤ x.nleft best.nleft ≡ false = rw h (rw e (leb_ℤ-pred t)) in cc
All-Near-pred t best (x ∷ items) e (inr h, near) (most, mosts) =
    (inl h, All-Near-pred t best items e near mosts)

pub length-modify_at :
    (i : ℕ) (f : Processor → Processor) (items : List Processor)
    → length (modify_at i f items) ≡ length items
length-modify_at i f [] = refl
length-modify_at zero f (x ∷ items) = refl
length-modify_at (suc i) f (x ∷ items) = ap suc (length-modify_at i f items)

-- The descriptors left to all children together.
abbrev pub nleft_sum : List Processor → ℤ
nleft_sum [] = pos 0
nleft_sum (x ∷ items) = x.nleft +ℤ nleft_sum items

nleft_sum-one_less :
    (items : List Processor) (i : ℕ) (best : Processor)
    → get_elem? items i ≡ some best
    → nleft_sum (modify_at i one_less items) ≡ pred_ℤ (nleft_sum items)
nleft_sum-one_less [] i best e = cc
nleft_sum-one_less (x ∷ items) zero best e = pred_ℤ-add x.nleft (nleft_sum items)
nleft_sum-one_less (x ∷ items) (suc i) best e =
    ap (λ z. x.nleft +ℤ z) (nleft_sum-one_less items i best e)
    ∙ add-pred_ℤ x.nleft (nleft_sum items)

-- The step for the entry that is chosen.
one_less-Balanced :
    (items : List Processor) (i : ℕ) (best : Processor)
    → IsBest items (i, best)
    → Balanced items
    → Balanced (modify_at i one_less items)
one_less-Balanced items i best (at, most) (t, near) =
    elim (All-get_elem? (Near t) items i best near at) [
      | inl e ↦ (t, All-modify_at (Near t) one_less items i best near at (inr (ap pred_ℤ e)))
      | inr e ↦ (
        pred_ℤ t,
        All-modify_at (Near (pred_ℤ t)) one_less items i best
            (All-Near-pred t best items e near most) at (inr (ap pred_ℤ e)),
      )
    ]

All-nleft-Balanced :
    (t : ℤ) (items : List Processor) → All (λ item. item.nleft ≡ t) items → All (Near t) items
All-nleft-Balanced t [] h = tt
All-nleft-Balanced t (x ∷ items) h = (inl h.0, All-nleft-Balanced t items h.1)

pub first_entry :
    (items : List Processor)
    → 1 ≤ length items
    → (item : Processor) × (rest : List Processor) × (items ≡ item ∷ rest)
first_entry [] h = absurd (omega arith)
first_entry (x ∷ items) h = (x, items, refl)

module _ (S : Slots) where
  open S use {entries}

  -- `notice_child()` for `k` clients, one after the other.
  unfoldable pub noticed : ℕ → Pool S → Run (Pool S)
  noticed zero pool = ok pool
  noticed (suc k) pool = and_then (notice_child S pool) (λ (r : ℤ × Pool S). noticed k r.1)

  noticed-Near :
      (k : ℕ) (pool : Pool S)
      → 1 ≤ length (entries pool.head)
      → Balanced (entries pool.head)
      → (p : Pool S) × (noticed k pool ≡ ok p)
        × Balanced (entries p.head)
        × (length (entries p.head) ≡ length (entries pool.head))
        × (nleft_sum (entries p.head) ≡ nleft_sum (entries pool.head) -ℤ pos k)
  unfolding noticed
  noticed-Near zero pool h b = (pool, refl, b, refl, sym (sub_zero (nleft_sum (entries pool.head))))
  noticed-Near (suc k) pool h b =
      let (item, rest, e) = first_entry (entries pool.head) h in
      let (i, best, p, run, best_is, now, _) = notice_child-Chosen S pool item rest e in
      let even : Balanced (entries p.head) =
        subst Balanced (sym now) (one_less-Balanced (entries pool.head) i best best_is b) in
      let same : length (entries p.head) ≡ length (entries pool.head) =
        ap length now ∙ length-modify_at i one_less (entries pool.head) in
      let less : nleft_sum (entries p.head) ≡ pred_ℤ (nleft_sum (entries pool.head)) =
        ap nleft_sum now ∙ nleft_sum-one_less (entries pool.head) i best best_is.0 in
      let (q, run', even', same', fewer) = noticed-Near k p (omega arith) even in
      (
        q,
        rw run run',
        even',
        same' ∙ same,
        fewer ∙ ap (λ z. z -ℤ pos k) less ∙ pred_ℤ-sub (nleft_sum (entries pool.head)) k,
      )

  -- Where all entries have the same number of descriptors left, as they have at the start, and there is
  -- one at least, `notice_child` finds a child for each of `k` clients in turn. The numbers left then
  -- differ by one at most between any two entries, no entry has been lost, and `k` descriptors have
  -- been taken from all of them together.
  pub noticed-Balanced :
      (k : ℕ) (pool : Pool S) (t : ℤ) (item : Processor) (rest : List Processor)
      → entries pool.head ≡ item ∷ rest
      → All (λ entry. entry.nleft ≡ t) (item ∷ rest)
      → (p : Pool S) × (noticed k pool ≡ ok p)
        × Balanced (entries p.head)
        × (length (entries p.head) ≡ length (item ∷ rest))
        × (nleft_sum (entries p.head) ≡ nleft_sum (item ∷ rest) -ℤ pos k)
  noticed-Balanced k pool t item rest e same =
      let even = subst Balanced (sym e) (t, All-nleft-Balanced t (item ∷ rest) same) in
      let size = ap length e in
      let (p, run, even', same', fewer) = noticed-Near k pool (omega arith) even in
      (p, run, even', same' ∙ size, fewer ∙ ap (λ l. nleft_sum l -ℤ pos k) e)
