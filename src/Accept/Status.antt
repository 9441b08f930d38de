-- ===== src/Accept/Status.antt =====
-- The statuses of `accept_request`, and what its callers get.
use http_callback_serve_vers.Base.{
  ℕ, zero, suc, Bool, true, false, [], ◌∷◌, ◌++◌, ◌≡◌, refl, ◌∙◌, ap, Bytes, codes, length, Run, ok,
  and_then, ltb, ◌⊎◌, inl, inr, if◌then◌else◌, Post, OnlyBounds, Post-and_then, Bool-cases, Option,
  none, some, ◌==◌,
}
use http_callback_serve_vers.CString.{is_space, last_byte, strcasecmp_eq}
use http_callback_serve_vers.Tcp.{text_of}
use http_callback_serve_vers.Request.{HttpRequest, bufsize}
use http_callback_serve_vers.Accept.{
  Kind, directory, file, Stat, Accepted, accepted, partsize, buffsize, http_error_method,
  http_error_not_find, http_success, word_loop, space_loop, close_word, split_request, is_method,
  locate, accept_request, put, root, by_kind, http_module_handler_request, geterror_type,
}

-- The call returns or runs over an array.
abbrev pub Bounded : {A : Type 0} → Run A → Type 0
Bounded r = Post OnlyBounds (λ _. Unit {0}) r

Bounded-then :
    {A B : Type 0} (Q : B → Type 0) (m : Run A) (k : A → Run B)
    → Bounded m
    → ((a : A) → Post OnlyBounds Q (k a))
    → Post OnlyBounds Q (and_then m k)
Bounded-then Q m k h f = Post-and_then OnlyBounds (λ _. Unit {0}) Q m k h (λ a _. f a)

word_loop-Bounded : (n : ℕ) (s : Bytes) → Bounded (word_loop n s)
unfolding word_loop
word_loop-Bounded zero [] = tt
word_loop-Bounded (suc n) [] = tt
word_loop-Bounded zero (c ∷ s) = tt
word_loop-Bounded (suc n) (c ∷ s) = elim (Bool-cases (is_space c)) [
  | inl e ↦ rw e tt
  | inr e ↦ rw e (Bounded-then _ (word_loop n s) _ (word_loop-Bounded n s) (λ _. tt))
]

space_loop-Bounded : (s : Bytes) → Bounded (space_loop s)
unfolding space_loop
space_loop-Bounded [] = tt
space_loop-Bounded (c ∷ s) = elim (Bool-cases (is_space c)) [
  | inl e ↦ rw e (space_loop-Bounded s)
  | inr e ↦ rw e tt
]

put-Bounded : (cap : ℕ) (s : Bytes) → Bounded (put cap s)
put-Bounded cap s = elim (Bool-cases (ltb (length s) cap)) [ inl e ↦ rw e tt | inr e ↦ rw e tt ]

close_word-Bounded : (w : Bytes) → Bounded (close_word w)
close_word-Bounded w = elim (Bool-cases (ltb (length w) partsize)) [
  | inl e ↦ rw e tt
  | inr e ↦ rw e tt
]

split_request-Bounded : (buf : Bytes) → Bounded (split_request buf)
unfolding split_request
split_request-Bounded buf =
    Bounded-then _ (word_loop partsize buf) _ (word_loop-Bounded partsize buf) (λ m.
      Bounded-then _ (close_word m.0) _ (close_word-Bounded m.0) (λ method.
        Bounded-then _ (space_loop m.1) _ (space_loop-Bounded m.1) (λ s.
          Bounded-then _ (word_loop partsize s) _ (word_loop-Bounded partsize s)
            (λ u. Bounded-then _ (close_word u.0) _ (close_word-Bounded u.0) (λ _. tt)))))

abbrev pub KnownStatus : Accepted → Type 0
KnownStatus a =
    (a.status ≡ http_success) ⊎ (a.status ≡ http_error_not_find) ⊎ (a.status ≡ http_error_method)

by_kind-KnownStatus :
    (cap : ℕ) (url path : Bytes) (k : Option Kind)
    → Post OnlyBounds KnownStatus (by_kind cap url path k)
by_kind-KnownStatus cap url path none = inr (inl refl)
by_kind-KnownStatus cap url path (some file) = inl refl
by_kind-KnownStatus cap url path (some directory) =
    Bounded-then KnownStatus (put cap (path ++ codes "/index.html")) _
      (put-Bounded cap (path ++ codes "/index.html"))
      (λ _.
        Bounded-then KnownStatus (put cap (root ++ url)) _ (put-Bounded cap (root ++ url))
          (λ _. inl refl))

choose-Bounded : (b : Bool) (cap : ℕ) (p q : Bytes) → Bounded (if b then put cap q else ok p)
choose-Bounded true cap p q = put-Bounded cap q
choose-Bounded false cap p q = tt

locate-KnownStatus :
    (stat : Stat) (cap : ℕ) (url : Bytes) → Post OnlyBounds KnownStatus (locate stat cap url)
unfolding locate
locate-KnownStatus stat cap url =
    Bounded-then KnownStatus (put cap (root ++ url)) _ (put-Bounded cap (root ++ url)) (λ p.
      Bounded-then KnownStatus
        (if last_byte p 0 == b'/' then put cap (p ++ codes "index.html") else ok p) _
        (choose-Bounded (last_byte p 0 == b'/') cap p _)
        (λ path. by_kind-KnownStatus cap url path (stat path)))

by_method-KnownStatus :
    (stat : Stat) (cap : ℕ) (name url : Bytes) (b : Bool)
    → Post OnlyBounds KnownStatus
        (if b then locate stat cap url else ok (accepted http_error_method name))
by_method-KnownStatus stat cap name url true = locate-KnownStatus stat cap url
by_method-KnownStatus stat cap name url false = inr (inr refl)

-- On every name and every file system `accept_request` ends: it returns 200, 404 or 500, or it reads or
-- writes outside an array. It never returns 400, so no caller gets to the answer for that status.
pub accept_request-KnownStatus :
    (stat : Stat) (cap : ℕ) (junk name : Bytes)
    → Post OnlyBounds KnownStatus (accept_request stat cap junk name)
unfolding accept_request
accept_request-KnownStatus stat cap junk name = elim (Bool-cases (ltb (length name) buffsize)) [
  | inr e ↦ rw e tt
  | inl e ↦ rw e (
      Bounded-then KnownStatus (split_request (name ++ 0 ∷ junk)) _
        (split_request-Bounded (name ++ 0 ∷ junk))
        (λ r. by_method-KnownStatus stat cap name r.1 (is_method r.0)))
]

word_loop_first :
    (n b : ℕ) (s : Bytes)
    → is_space b ≡ false
    → Post OnlyBounds (λ r. (x : Bytes) × (r.0 ≡ b ∷ x)) (word_loop (suc n) (b ∷ s))
unfolding word_loop
word_loop_first n b s solid =
    rw solid (Bounded-then _ (word_loop n s) _ (word_loop-Bounded n s) (λ r. (r.0, refl)))

close_word_of : (w : Bytes) → Post OnlyBounds (λ m. m ≡ text_of w) (close_word w)
close_word_of w = elim (Bool-cases (ltb (length w) partsize)) [
  | inl e ↦ rw e refl
  | inr e ↦ rw e tt
]

-- The method begins with the first byte of the array, if that is no white space.
split_request_first :
    (b : ℕ) (s : Bytes)
    → is_space b ≡ false
    → Post OnlyBounds (λ r. (x : Bytes) × (r.0 ≡ text_of (b ∷ x))) (split_request (b ∷ s))
unfolding split_request
split_request_first b s solid =
    Post-and_then OnlyBounds _ _ (word_loop partsize (b ∷ s)) _ (word_loop_first 511 b s solid)
      (λ m hm. Post-and_then OnlyBounds _ _ (close_word m.0) _ (close_word_of m.0) (λ method hw.
        Bounded-then _ (space_loop m.1) _ (space_loop-Bounded m.1) (λ s'.
          Bounded-then _ (word_loop partsize s') _ (word_loop-Bounded partsize s') (λ u.
            Bounded-then _ (close_word u.0) _ (close_word-Bounded u.0)
              (λ url. (hm.0, hw ∙ ap text_of hm.1))))))

-- A name that begins with a slash, or is empty, has no method.
not_method : (b : ℕ) (x : Bytes) → (b ≡ 0) ⊎ (b ≡ b'/') → is_method (text_of (b ∷ x)) ≡ false
unfolding text_of strcasecmp_eq
not_method b x (inl e) = rw e
not_method b x (inr e) = rw e

-- The status is 500, and the name is left alone.
abbrev pub Refused : Bytes → Accepted → Type 0
Refused name a = (a.status ≡ http_error_method) × (a.path ≡ name)

Refused-array :
    (stat : Stat) (cap : ℕ) (name : Bytes) (b : ℕ) (s : Bytes)
    → is_space b ≡ false
    → (b ≡ 0) ⊎ (b ≡ b'/')
    → Post OnlyBounds (Refused name) (
        and_then (split_request (b ∷ s)) (λ (r : Bytes × Bytes).
          if is_method r.0 then locate stat cap r.1 else ok (accepted http_error_method name)))
Refused-array stat cap name b s solid which =
    Post-and_then OnlyBounds _ (Refused name) (split_request (b ∷ s)) _
      (split_request_first b s solid) (λ r (x, e). rw (e, not_method b x which) (refl, refl))

-- Whatever the client sent, `http_module_handler_request` ends with status 500 and an empty name, or
-- reads or writes outside an array: it looks for a method in a name that it has set to zeros.
pub http_module_handler_request-Refused :
    (stat : Stat) (junk : Bytes)
    → Post OnlyBounds
        (λ i. (i.errtype ≡ http_error_method) × (i.filename ≡ []))
        (http_module_handler_request stat junk)
unfolding http_module_handler_request accept_request is_space
http_module_handler_request-Refused stat junk =
    Post-and_then OnlyBounds (Refused []) _
      (and_then (split_request (0 ∷ junk)) (λ (r : Bytes × Bytes).
        if is_method r.0 then locate stat buffsize r.1 else ok (accepted http_error_method [])))
      _ (Refused-array stat buffsize [] 0 junk refl (inl refl)) (λ a h. h)

-- `geterror_type` on a URL that begins with a slash gives 500, and leaves the request as it was, or
-- reads or writes outside an array: the URL is split as if a method stood in front of it.
pub geterror_type-Refused :
    (stat : Stat) (junk url : Bytes) (req : HttpRequest)
    → req.url ≡ b'/' ∷ url
    → Post OnlyBounds
        (λ r. (r.0 ≡ http_error_method) × (r.1.url ≡ req.url))
        (geterror_type stat junk req)
unfolding geterror_type accept_request is_space
geterror_type-Refused stat junk url req e =
    rw e (elim (Bool-cases (ltb (suc (length url)) buffsize)) [
      | inr f ↦ rw f tt
      | inl f ↦ rw f (
          Post-and_then OnlyBounds (Refused (b'/' ∷ url)) _
            (and_then (split_request (b'/' ∷ (url ++ 0 ∷ junk))) (λ (r : Bytes × Bytes).
              if is_method r.0
              then locate stat bufsize r.1
              else ok (accepted http_error_method (b'/' ∷ url))))
            _ (Refused-array stat bufsize (b'/' ∷ url) b'/' (url ++ 0 ∷ junk) refl (inr refl))
            (λ a h. h))
    ])
