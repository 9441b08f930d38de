-- ===== src/Base/Outcome.antt =====
-- The outcome of a call: a value, an access outside an object or through a null pointer, the end
-- of the process, or a wait for an answer that the kernel has not given yet.
use mathlib.Core.Path.{◌≡◌, refl}
use http_callback_serve_vers.Base.Lists.{Bytes}

pub data Fault : Type 0 where
  null_pointer : Fault
  out_of_bounds : Fault

pub data Run (A : Type 0) : Type 0 where
  ok : A → Run A
  fault : Fault → Run A
  exit : Bytes → Run A
  waiting : Run A

module _ {A B : Type 0} where
  abbrev pub and_then : Run A → (A → Run B) → Run B
  and_then (ok a) k = k a
  and_then (fault f) k = fault f
  and_then (exit m) k = exit m
  and_then waiting k = waiting

  -- Inversion of a chain that ends well.
  pub and_then-eq-ok :
      (m : Run A) (k : A → Run B) {b : B}
      → and_then m k ≡ ok b
      → (a : A) × (m ≡ ok a) × (k a ≡ ok b)
  and_then-eq-ok (ok a) k h = (a, refl, h)
  and_then-eq-ok (fault f) k h = cc
  and_then-eq-ok (exit m) k h = cc
  and_then-eq-ok waiting k h = cc

-- The run comes to an end: with a value that satisfies `P`, or at a fault that `F` admits.
abbrev pub Post : {A : Type 0} → (Fault → Type 0) → (A → Type 0) → Run A → Type 0
Post F P (ok a) = P a
Post F P (fault f) = F f
Post F P (exit m) = ⊥
Post F P waiting = ⊥

abbrev pub OnlyNull : Fault → Type 0
OnlyNull null_pointer = Unit
OnlyNull out_of_bounds = ⊥

abbrev pub OnlyBounds : Fault → Type 0
OnlyBounds null_pointer = ⊥
OnlyBounds out_of_bounds = Unit

pub ok-injective : {A : Type 0} (a b : A) → ok a ≡ ok b → a ≡ b
ok-injective a b e = cc

pub and_then_assoc :
    {A B C : Type 0} (m : Run A) (f : A → Run B) (g : B → Run C)
    → and_then (and_then m f) g ≡ and_then m (λ a. and_then (f a) g)
and_then_assoc (ok a) f g = refl
and_then_assoc (fault x) f g = refl
and_then_assoc (exit m) f g = refl
and_then_assoc waiting f g = refl

pub and_then_ext :
    {A B : Type 0} (m : Run A) (f g : A → Run B)
    → ((a : A) → f a ≡ g a)
    → and_then m f ≡ and_then m g
and_then_ext (ok a) f g h = h a
and_then_ext (fault x) f g h = refl
and_then_ext (exit m) f g h = refl
and_then_ext waiting f g h = refl

pub Post-and_then :
    {A B : Type 0} (F : Fault → Type 0) (P : A → Type 0) (Q : B → Type 0) (m : Run A)
    (k : A → Run B)
    → Post F P m
    → ((a : A) → P a → Post F Q (k a))
    → Post F Q (and_then m k)
Post-and_then F P Q (ok a) k h f = f a h
Post-and_then F P Q (fault x) k h f = h
Post-and_then F P Q (exit m) k h f = h
Post-and_then F P Q waiting k h f = h

pub Post-map :
    {A : Type 0} (F : Fault → Type 0) (P Q : A → Type 0) (m : Run A)
    → ((a : A) → P a → Q a)
    → Post F P m
    → Post F Q m
Post-map F P Q (ok a) f h = f a h
Post-map F P Q (fault x) f h = h
Post-map F P Q (exit m) f h = h
Post-map F P Q waiting f h = h

-- If the run gives a value, it satisfies `P`.
abbrev pub Yields : {A : Type 0} → (A → Type 0) → Run A → Type 0
Yields P (ok a) = P a
Yields P (fault f) = Unit
Yields P (exit m) = Unit
Yields P waiting = Unit

pub Yields-and_then :
    {A B : Type 0} (Q : B → Type 0) (m : Run A) (k : A → Run B)
    → ((a : A) → Yields Q (k a))
    → Yields Q (and_then m k)
Yields-and_then Q (ok a) k f = f a
Yields-and_then Q (fault x) k f = tt
Yields-and_then Q (exit m) k f = tt
Yields-and_then Q waiting k f = tt

pub Yields-map :
    {A : Type 0} (P Q : A → Type 0) (m : Run A) → ((a : A) → P a → Q a) → Yields P m → Yields Q m
Yields-map P Q (ok a) f h = f a h
Yields-map P Q (fault x) f h = tt
Yields-map P Q (exit m) f h = tt
Yields-map P Q waiting f h = tt

-- The rest of a chain may use what its start gave.
pub Yields-and_then_eq :
    {A B : Type 0} (Q : B → Type 0) (m : Run A) (k : A → Run B)
    → ((a : A) → m ≡ ok a → Yields Q (k a))
    → Yields Q (and_then m k)
Yields-and_then_eq Q (ok a) k f = f a refl
Yields-and_then_eq Q (fault x) k f = tt
Yields-and_then_eq Q (exit m) k f = tt
Yields-and_then_eq Q waiting k f = tt
