-- ===== src/Log/Days.antt =====
-- The log of inc/log.h has a file for each day.
use http_callback_serve_vers.Base.{
  ℕ, true, false, [], ◌∷◌, ◌++◌, Bytes, codes, drop, ok, ◌≡◌, ◌≢◌, refl, sym, ◌∙◌, ap, arith,
  Bool-cases, inl, inr,
}
use http_callback_serve_vers.CString.{decimal, strcasecmp_eq}
use http_callback_serve_vers.CString.Decimal.{is_digit, read_decimal, read_decimal-decimal}
use http_callback_serve_vers.Log.{
  Tm, Disk, same_bytes, append_to, log_path, log_line, log_out, log_err, log_download,
}

same_bytes_sound : (s t : Bytes) → same_bytes s t ≡ true → s ≡ t
unfolding same_bytes
same_bytes_sound [] [] h = refl
same_bytes_sound [] (d ∷ t) h = cc
same_bytes_sound (c ∷ s) [] h = cc
same_bytes_sound (c ∷ s) (d ∷ t) h = ground (arith, same_bytes_sound s t)

same_bytes_self : (s : Bytes) → same_bytes s s ≡ true
unfolding same_bytes
same_bytes_self [] = refl
same_bytes_self (c ∷ s) = ground (arith, same_bytes_self s)

-- Two numbers, each in front of a byte that is no digit.
decimals-eq :
    (a b c : ℕ) (s t : Bytes)
    → is_digit c ≡ false
    → decimal a ++ c ∷ s ≡ decimal b ++ c ∷ t
    → (a ≡ b) × (s ≡ t)
decimals-eq a b c s t h e =
    let read : ◌≡◌ {A = ℕ × Bytes} (a, c ∷ s) (b, c ∷ t) =
      sym (read_decimal-decimal a c s h) ∙ ap (read_decimal 0) e ∙ read_decimal-decimal b c t h in
    (ap (λ r. r.0) read, ap (λ r. drop 1 r.1) read)

abbrev pub SameDay : Tm → Tm → Type 0
SameDay a b = (a.tm_year ≡ b.tm_year) × (a.tm_mon ≡ b.tm_mon) × (a.tm_mday ≡ b.tm_mday)

log_path-SameDay : (a b : Tm) → log_path a ≡ log_path b → SameDay a b
unfolding log_path
log_path-SameDay a b e =
    let (year, e1) = decimals-eq _ _ b'-' _ _ refl (ap (drop 26) e) in
    let (mon, e2) = decimals-eq _ _ b'-' _ _ refl e1 in
    let (mday, _) = decimals-eq _ _ b'.' (codes "log") (codes "log") refl e2 in
    (omega arith, mon, mday)

append_to-other : (path s p : Bytes) (disk : Disk) → p ≢ path → append_to path s disk p ≡ disk p
unfolding append_to
append_to-other path s p disk ne = elim (Bool-cases (same_bytes p path)) [
  | inl e ↦ absurd (ne (same_bytes_sound p path e))
  | inr e ↦ rw e refl
]

append_to_self : (path s : Bytes) (disk : Disk) → append_to path s disk path ≡ disk path ++ s
unfolding append_to
append_to_self path s disk = rw (same_bytes_self path) refl

-- Behind a download that was read without an error, where the log file opens, `response_ok` adds one line
-- with the code 010 to the file of the day. The files of all other days, and all other files, are left
-- alone.
pub log_download-SameDay :
    (lt other : Tm) (name p : Bytes) (disk : Disk)
    → ¬ SameDay other lt
    → p ≢ log_path lt
    → (disk' : Disk) × (log_download true false lt name disk ≡ ok disk')
      × (disk' (log_path lt) ≡ disk (log_path lt) ++ log_line lt (codes "010") name)
      × (disk' (log_path other) ≡ disk (log_path other))
      × (disk' p ≡ disk p)
unfolding log_download log_err log_out strcasecmp_eq
log_download-SameDay lt other name p disk ne nep =
    let s = log_line lt (codes "010") name in
    (
      append_to (log_path lt) s disk,
      refl,
      append_to_self (log_path lt) s disk,
      append_to-other (log_path lt) s (log_path other) disk (λ e. ne (log_path-SameDay other lt e)),
      append_to-other (log_path lt) s p disk nep,
    )
