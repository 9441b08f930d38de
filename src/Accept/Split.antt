-- ===== src/Accept/Split.antt =====
-- How `accept_request` splits "METHOD URL". The second word goes on behind the end of the string,
-- over bytes that nothing initialised, up to the first white space there.
use http_callback_serve_vers.Base.{
  ℕ, zero, suc, ◌+◌, ◌≤◌, ◌<◌, true, false, [], ◌∷◌, ◌++◌, ◌≡◌, refl, ap, arith, Bytes, length,
  take, All, length-append, length-take, ok, fault, out_of_bounds, lt→ltb, le→ltb-false,
  append_assoc, ◌⊎◌, inl, inr, ltb, Bool-cases, if◌then◌else◌,
}
use http_callback_serve_vers.CString.{is_space}
use http_callback_serve_vers.Tcp.{text_of}
use http_callback_serve_vers.Tcp.Recv.{IsText, text_of_text}
use http_callback_serve_vers.Accept.{
  Stat, accepted, partsize, buffsize, http_error_method, word_loop, space_loop, split_request,
  is_method, locate, accept_request,
}

-- No white space.
abbrev pub IsSolid : Bytes → Type 0
IsSolid = All (λ c. is_space c ≡ false)

word_loop-append :
    (n : ℕ) (w : Bytes) (d : ℕ) (r : Bytes)
    → IsSolid w
    → length w ≤ n
    → is_space d ≡ true
    → word_loop n (w ++ d ∷ r) ≡ ok (w, d ∷ r)
unfolding word_loop
word_loop-append zero [] d r solid fits h = refl
word_loop-append (suc n) [] d r solid fits h = rw h
word_loop-append zero (c ∷ w) d r solid fits h = absurd (omega arith)
word_loop-append (suc n) (c ∷ w) d r solid fits h =
    rw (solid.0, word_loop-append n w d r solid.1 (omega arith) h)

-- A word as long as the rounds fills them, or the array behind it ends first.
word_loop-full :
    (n : ℕ) (w r : Bytes)
    → IsSolid w
    → n ≤ length w
    → (word_loop n (w ++ r) ≡ fault out_of_bounds)
      ⊎ ((s : Bytes) × (word_loop n (w ++ r) ≡ ok (take n w, s)))
unfolding word_loop
word_loop-full zero [] [] solid long = inl refl
word_loop-full zero [] (c ∷ r) solid long = inr (c ∷ r, refl)
word_loop-full (suc n) [] r solid long = absurd (omega arith)
word_loop-full zero (c ∷ w) r solid long = inr (c ∷ (w ++ r), refl)
word_loop-full (suc n) (c ∷ w) r solid long =
    rw solid.0 (elim (word_loop-full n w r solid.1 (omega arith)) [
      | inl e ↦ inl (rw e)
      | inr (s, e) ↦ inr (s, rw e)
    ])

text_of-append : (u r : Bytes) → IsText u → text_of (u ++ 0 ∷ r) ≡ u
unfolding text_of
text_of-append [] r h = refl
text_of-append (zero ∷ u) r h = absurd (omega arith)
text_of-append (suc c ∷ u) r h = ap (◌∷◌ (suc c)) (text_of-append u r h.1)

space_loop-url : (u r : Bytes) → IsSolid u → space_loop (32 ∷ (u ++ 0 ∷ r)) ≡ ok (u ++ 0 ∷ r)
unfolding space_loop is_space
space_loop-url [] r solid = refl
space_loop-url (c ∷ u) r solid = rw solid.0

IsSolid-append : (u clean : Bytes) → IsSolid u → IsSolid clean → IsSolid (u ++ 0 ∷ clean)
unfolding is_space
IsSolid-append [] clean su sc = (refl, sc)
IsSolid-append (c ∷ u) clean su sc = (su.0, IsSolid-append u clean su.1 sc)

module _ (m u : Bytes) (method_text : IsText m) (method_solid : IsSolid m)
    (short : length m < partsize) (url_text : IsText u) (url_solid : IsSolid u) where
  split_request_lem :
      (clean : Bytes) (d : ℕ) (more : Bytes)
      → IsSolid clean
      → is_space d ≡ true
      → length u + 1 + length clean < partsize
      → split_request ((m ++ 32 ∷ u) ++ 0 ∷ (clean ++ d ∷ more)) ≡ ok (m, u)
  unfolding split_request is_space
  split_request_lem clean d more solid h fits =
      let url = u ++ 0 ∷ clean in
      let size = length-append u (0 ∷ clean) in
      let first =
        word_loop-append partsize m 32 (u ++ 0 ∷ (clean ++ d ∷ more)) method_solid (omega arith)
          refl in
      let second =
        word_loop-append partsize url d more (IsSolid-append u clean url_solid solid) (omega arith)
          h in
      let joined = append_assoc u (0 ∷ clean) (d ∷ more) in
      rw
        (
          append_assoc m (32 ∷ u) (0 ∷ (clean ++ d ∷ more)),
          first,
          lt→ltb (length m) partsize short,
          text_of_text m method_text,
          space_loop-url u (clean ++ d ∷ more) url_solid,
        )
        (rw (← joined) (
          rw (second, lt→ltb (length url) partsize (omega arith), text_of-append u clean url_text)))

  -- The method and the URL are words without zero bytes or white space, the method of fewer than
  -- `partsize` bytes. Behind the string the array holds `clean`, with no white space, and then a white
  -- space. If the URL, its terminator and `clean` together take fewer than `partsize` bytes, then the
  -- URL is looked up for GET and POST in any case of letters; any other method gives 500 and leaves the
  -- name as it was.
  pub accept_request-split :
      (stat : Stat) (cap : ℕ) (clean : Bytes) (d : ℕ) (more : Bytes)
      → IsSolid clean
      → is_space d ≡ true
      → length u + 1 + length clean < partsize
      → accept_request stat cap (clean ++ d ∷ more) (m ++ 32 ∷ u)
        ≡ (if is_method m then locate stat cap u else ok (accepted http_error_method (m ++ 32 ∷ u)))
  unfolding accept_request
  accept_request-split stat cap clean d more solid h fits = rw (
    lt→ltb (length (m ++ 32 ∷ u)) buffsize (omega (arith, length-append m (32 ∷ u))),
    split_request_lem clean d more solid h fits,
  )

  -- If the URL, its terminator and the bytes behind it that are no white space take `partsize` bytes or
  -- more, then `accept_request` writes or reads outside an array, whatever the request asks for.
  pub accept_request-overrun :
      (stat : Stat) (cap : ℕ) (clean more : Bytes)
      → IsSolid clean
      → partsize ≤ length u + 1 + length clean
      → accept_request stat cap (clean ++ more) (m ++ 32 ∷ u) ≡ fault out_of_bounds
  unfolding accept_request split_request is_space
  accept_request-overrun stat cap clean more solid long =
      elim (Bool-cases (ltb (length (m ++ 32 ∷ u)) buffsize)) [
        | inr e ↦ rw e
        | inl e ↦
            let url = u ++ 0 ∷ clean in
            let size = length-append u (0 ∷ clean) in
            let first =
              word_loop-append partsize m 32 (u ++ 0 ∷ (clean ++ more)) method_solid (omega arith)
                refl in
            let joined = append_assoc u (0 ∷ clean) more in
            let full = length-take partsize url in
            rw
              (
                e,
                append_assoc m (32 ∷ u) (0 ∷ (clean ++ more)),
                first,
                lt→ltb (length m) partsize short,
                space_loop-url u (clean ++ more) url_solid,
              )
              (rw (← joined)
                (elim (word_loop-full partsize url more (IsSolid-append u clean url_solid solid)
                  (omega arith)) [
                    | inl f ↦ rw f
                    | inr (s, f) ↦
                        rw (f, le→ltb-false (length (take partsize url)) partsize (omega arith))
                  ]))
      ]
