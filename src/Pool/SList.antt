-- ===== src/Pool/SList.antt =====
-- The singly-linked list of inc/list.h (a copy of NetBSD's queue.h) as the process pool uses it: an
-- interface over the entries in the order of SLIST_FOREACH. The laws are those of queue(3).
use http_callback_serve_vers.Base.{
  ℕ, zero, suc, Bool, List, [], ◌∷◌, Option, none, some, ◌≡◌, refl, if◌then◌else◌, ap, ◌++◌, ◌≤◌,
  length, take, drop, All, true, false, Bool-cases, inl, inr, arith, ◌+◌, Option-cases,
}

abbrev pub map_suc : Option ℕ → Option ℕ
map_suc none = none
map_suc (some i) = some (suc i)

module _ {A : Type 0} where
  -- A write through the pointer to the entry at a position.
  abbrev pub modify_at : ℕ → (A → A) → List A → List A
  modify_at i f [] = []
  modify_at zero f (x ∷ xs) = f x ∷ xs
  modify_at (suc i) f (x ∷ xs) = x ∷ modify_at i f xs

  -- The position of the first entry that passes a test, as a walk with SLIST_FOREACH and `break` finds
  -- it.
  abbrev pub position : (A → Bool) → List A → Option ℕ
  position p [] = none
  position p (x ∷ xs) = if p x then some 0 else map_suc (position p xs)

pub record SList (A : Type 0) : Type 1 where
  pub Head : Type 0
  -- SLIST_HEAD_INITIALIZER, SLIST_FOREACH and SLIST_INSERT_HEAD.
  pub initializer : Head
  pub entries : Head → List A
  pub insert_head : A → Head → Head
  -- A write to a field of an entry, `SLIST_FIRST(head) = SLIST_NEXT(item)`, and
  -- `SLIST_NEXT(pre) = SLIST_NEXT(item)`.
  pub modify : ℕ → (A → A) → Head → Head
  pub first_past : ℕ → Head → Head
  pub link_past : ℕ → ℕ → Head → Head
  pub entries-initializer : entries initializer ≡ []
  pub entries-insert_head : (x : A) (h : Head) → entries (insert_head x h) ≡ x ∷ entries h
  pub entries-modify :
      (i : ℕ) (f : A → A) (h : Head) → entries (modify i f h) ≡ modify_at i f (entries h)
  pub entries-first_past : (i : ℕ) (h : Head) → entries (first_past i h) ≡ drop (suc i) (entries h)
  pub entries-link_past :
      (pre i : ℕ) (h : Head)
      → pre ≤ i
      → entries (link_past pre i h) ≡ take (suc pre) (entries h) ++ drop (suc i) (entries h)

-- Lists meet the interface.
abbrev pub list_slist : (A : Type 0) → SList A
list_slist A = record {
  Head = List A;
  initializer = [];
  entries = λ h. h;
  insert_head = λ x h. x ∷ h;
  modify = λ i f h. modify_at i f h;
  first_past = λ i h. drop (suc i) h;
  link_past = λ pre i h. take (suc pre) h ++ drop (suc i) h;
  entries-initializer = refl;
  entries-insert_head = λ x h. refl;
  entries-modify = λ i f h. refl;
  entries-first_past = λ i h. refl;
  entries-link_past = λ pre i h le. refl;
}

module _ {A : Type 0} where
  pub modify_at-append :
      (xs : List A) (f : A → A) (y : A) (ys : List A)
      → modify_at (length xs) f (xs ++ y ∷ ys) ≡ xs ++ f y ∷ ys
  modify_at-append [] f y ys = refl
  modify_at-append (x ∷ xs) f y ys = ap (◌∷◌ x) (modify_at-append xs f y ys)

  pub position-append :
      (p : A → Bool) (xs : List A) (y : A) (ys : List A)
      → All (λ x. p x ≡ false) xs
      → p y ≡ true
      → position p (xs ++ y ∷ ys) ≡ some (length xs)
  position-append p [] y ys h e = rw e
  position-append p (x ∷ xs) y ys h e = rw (h.0, position-append p xs y ys h.1 e)

  -- The list without the first entry that passes the test.
  abbrev pub erase_first : (A → Bool) → List A → List A
  erase_first p [] = []
  erase_first p (x ∷ xs) = if p x then xs else x ∷ erase_first p xs

  pub length-erase_first :
      (p : A → Bool) (xs : List A) (i : ℕ)
      → position p xs ≡ some i
      → length (erase_first p xs) + 1 ≡ length xs
  length-erase_first p [] i e = cc
  length-erase_first p (x ∷ xs) i e = elim (Bool-cases (p x)) [
    | inl h ↦ rw h (omega arith)
    | inr h ↦ rw h (elim (Option-cases (position p xs)) [
      | inl f ↦ cc (rw (h, f) at e)
      | inr (j, f) ↦ omega (arith, length-erase_first p xs j f)
    ])
  ]
