-- ===== src/Accept/Locate.antt =====
-- What the path part of `accept_request` finds, against a description without bounds.
use http_callback_serve_vers.Base.{
  ℕ, ◌+◌, ◌≤◌, ◌<◌, Bool, true, false, ◌++◌, ◌≡◌, refl, ◌∙◌, ap, arith, Bytes, codes, length,
  length-append, Run, ok, and_then, lt→ltb, if◌then◌else◌, Bool-cases, Option, none, some, ◌==◌,
  inl, inr,
}
use http_callback_serve_vers.CString.{last_byte}
use http_callback_serve_vers.Accept.{
  Kind, directory, file, Stat, Accepted, accepted, http_error_not_find, http_success, locate, put,
  root, by_kind,
}

-- The path that is looked up: with "index.html" behind a slash at the end.
abbrev pub asked_path : Bytes → Bytes
asked_path url =
    if last_byte (root ++ url) 0 == b'/' then (root ++ url) ++ codes "index.html" else root ++ url

-- The path of the answer: for a directory the one without any index.
abbrev pub found : Bytes → Option Kind → Accepted
found url none = accepted http_error_not_find (asked_path url)
found url (some file) = accepted http_success (asked_path url)
found url (some directory) = accepted http_success (root ++ url)

put-ok : (cap : ℕ) (s : Bytes) → length s < cap → put cap s ≡ ok s
put-ok cap s h = rw (lt→ltb (length s) cap h)

choose-ok :
    (b : Bool) (cap : ℕ) (p q : Bytes)
    → length q < cap
    → (if b then put cap q else ok p) ≡ ok (if b then q else p)
choose-ok true cap p q h = put-ok cap q h
choose-ok false cap p q h = refl

length-asked_path : (url : Bytes) → length (asked_path url) ≤ length url + 35
length-asked_path url = elim (Bool-cases (last_byte (root ++ url) 0 == b'/')) [
  | inl e ↦ rw e (omega (arith, length-append (root ++ url) (codes "index.html")))
  | inr e ↦ rw e (omega arith)
]

by_kind-found :
    (cap : ℕ) (url : Bytes) (k : Option Kind)
    → length url + 46 < cap
    → by_kind cap url (asked_path url) k ≡ ok (found url k)
by_kind-found cap url none room = refl
by_kind-found cap url (some file) room = refl
by_kind-found cap url (some directory) room = rw (
  put-ok cap (asked_path url ++ codes "/index.html")
      (omega (arith, length-asked_path url, length-append (asked_path url) (codes "/index.html"))),
  put-ok cap (root ++ url) (omega arith),
)

-- Where the caller's buffer has room for the longest name, the lookup returns 404 exactly where nothing
-- has the name asked for. Otherwise it returns 200, with that name for a file. For a directory the name
-- returned is that of the URL itself: no index file is looked for or named.
pub locate-found :
    (stat : Stat) (cap : ℕ) (url : Bytes)
    → length url + 46 < cap
    → locate stat cap url ≡ ok (found url (stat (asked_path url)))
unfolding locate
locate-found stat cap url room =
    let index = (root ++ url) ++ codes "index.html" in
    let ends = last_byte (root ++ url) 0 == b'/' in
    ap
      (λ (r : Run Bytes). and_then r (λ (p : Bytes).
        and_then (if last_byte p 0 == b'/' then put cap (p ++ codes "index.html") else ok p)
          (λ (path : Bytes). by_kind cap url path (stat path))))
      (put-ok cap (root ++ url) (omega arith))
    ∙ ap (λ (r : Run Bytes). and_then r (λ (path : Bytes). by_kind cap url path (stat path)))
        (choose-ok ends cap (root ++ url) index
          (omega (arith, length-append (root ++ url) (codes "index.html"))))
    ∙ by_kind-found cap url (stat (asked_path url)) room
