-- ===== src/CString/Scan.antt =====
-- What the searches of `CString` find.
use http_callback_serve_vers.Base.{true, [], ◌∷◌, ◌++◌, ◌≡◌, refl, arith, ==_self, Bytes}
use http_callback_serve_vers.CString.{starts_with, has_substring, strcasecmp_eq}

pub starts_with-append : (t r : Bytes) → starts_with (t ++ r) t ≡ true
unfolding starts_with
starts_with-append [] r = refl
starts_with-append (c ∷ t) r = ground (arith, ==_self c, starts_with-append t r)

pub has_substring_append_left :
    (s r t : Bytes) → has_substring r t ≡ true → has_substring (s ++ r) t ≡ true
unfolding has_substring
has_substring_append_left [] r t h = h
has_substring_append_left (c ∷ s) r t h = ground (arith, has_substring_append_left s r t h)

pub has_substring_self : (t r : Bytes) → has_substring (t ++ r) t ≡ true
unfolding has_substring
has_substring_self [] [] = refl
has_substring_self [] (c ∷ r) = refl
has_substring_self (c ∷ t) r = ground (arith, starts_with-append (c ∷ t) r)

pub strcasecmp_eq_refl : (s : Bytes) → strcasecmp_eq s s ≡ true
unfolding strcasecmp_eq
strcasecmp_eq_refl [] = refl
strcasecmp_eq_refl (c ∷ s) = ground (arith, strcasecmp_eq_refl s)
