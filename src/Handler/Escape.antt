-- ===== src/Handler/Escape.antt =====
-- Which files `http_module_handler_response` of http_module/http_module.h gives away: `accept_request` puts
-- the URL behind the name of its directory as it is.
use http_callback_serve_vers.Base.{
  ℕ, ◌+◌, ◌/◌, ◌^◌, ◌<◌, ◌≤◌, true, false, List, [], ◌∷◌, ◌++◌, some, Bytes, codes, ok, ◌≡◌, refl,
  ◌∙◌, ap, All, ◌==◌, length, arith,
}
use http_callback_serve_vers.CString.{last_byte}
use http_callback_serve_vers.Io.{Conn, conn, SendAnswer}
use http_callback_serve_vers.Request.{HttpRequest}
use http_callback_serve_vers.Accept.{file, is_method, buffsize, root}
use http_callback_serve_vers.Accept.Locate.{asked_path}
use http_callback_serve_vers.Page.Delivers.{Roomy}
use http_callback_serve_vers.Page.Download.{readable, header_block}
use http_callback_serve_vers.Handler.{Files, http_module_handler_response}
use http_callback_serve_vers.Handler.Answers.{IsAsked, handler_download}

-- The components of the directory, and the path of a list of components.
abbrev pub components : List Bytes
components = codes "home" ∷ codes "jackwu" ∷ codes "Desktop" ∷ codes "test" ∷ []

abbrev pub path_of : List Bytes → Bytes
path_of [] = []
path_of (name ∷ names) = (b'/' ∷ name) ++ path_of names

-- The file system answers alike for two paths.
pub record Same (files : Files) (p q : Bytes) : Type 0 where
  pub same_stat : files.stat p ≡ files.stat q
  pub same_size : files.size p ≡ files.size q
  pub same_contents : files.contents p ≡ files.contents q

Same-trans : {files : Files} {p q r : Bytes} → Same files p q → Same files q r → Same files p r
Same-trans h k = record {
  same_stat = h.same_stat ∙ k.same_stat;
  same_size = h.same_size ∙ k.same_size;
  same_contents = h.same_contents ∙ k.same_contents;
}

-- The components are directories, and none is a link: behind one of them, ".." leads back to the one in
-- front of it, as path_resolution(7) documents.
abbrev pub GoesUp : Files → Type 0
GoesUp files =
    (front back : List Bytes) (name rest : Bytes)
    → components ≡ front ++ name ∷ back
    → Same files ((path_of front ++ (b'/' ∷ name)) ++ (codes "/../" ++ rest))
        (path_of front ++ b'/' ∷ rest)

-- The URL that climbs out of the directory.
abbrev pub climbing : Bytes → Bytes
climbing p = codes "/../../../.." ++ p

climbing-Same :
    (files : Files) (rest : Bytes)
    → GoesUp files
    → Same files (root ++ climbing (b'/' ∷ rest)) (b'/' ∷ rest)
climbing-Same files rest up =
    Same-trans
      (up (codes "home" ∷ codes "jackwu" ∷ codes "Desktop" ∷ []) [] (codes "test")
        (codes "../../../" ++ rest) refl)
      (Same-trans
        (up (codes "home" ∷ codes "jackwu" ∷ []) (codes "test" ∷ []) (codes "Desktop")
          (codes "../../" ++ rest) refl)
        (Same-trans
          (up (codes "home" ∷ []) (codes "Desktop" ∷ codes "test" ∷ []) (codes "jackwu")
            (codes "../" ++ rest) refl)
          (up [] (codes "jackwu" ∷ codes "Desktop" ∷ codes "test" ∷ []) (codes "home") rest refl)))

last_byte-append : (s : Bytes) (c d : ℕ) (t : Bytes) → last_byte (s ++ c ∷ t) d ≡ last_byte t c
last_byte-append [] c d t = refl
last_byte-append (x ∷ s) c d t = last_byte-append s c x t

last_byte-plain :
    (c d : ℕ) (s : Bytes)
    → All (λ b. (b == b'/') ≡ false) (c ∷ s)
    → (last_byte (c ∷ s) d == b'/') ≡ false
last_byte-plain c d [] h = h.0
last_byte-plain c d (x ∷ s) h = last_byte-plain x c s h.1

asked_path-climbing :
    (url rest dir : Bytes) (x : ℕ) (name : Bytes)
    → url ≡ climbing (b'/' ∷ rest)
    → b'/' ∷ rest ≡ dir ++ b'/' ∷ x ∷ name
    → All (λ b. (b == b'/') ≡ false) (x ∷ name)
    → (asked_path url ≡ root ++ climbing (b'/' ∷ rest))
      × (asked_path url ≡ (root ++ climbing dir) ++ b'/' ∷ x ∷ name)
asked_path-climbing url rest dir x name e whole plain =
    let split : root ++ url ≡ (root ++ climbing dir) ++ b'/' ∷ x ∷ name =
      ap (λ u. root ++ u) e ∙ ap (λ p. root ++ climbing p) whole in
    let no_index : (last_byte (root ++ url) 0 == b'/') ≡ false =
      ap (λ p. last_byte p 0 == b'/') split
      ∙ ap (λ n. n == b'/') (last_byte-append (root ++ climbing dir) b'/' 0 (x ∷ name))
      ∙ last_byte-plain x b'/' name plain in
    let asked : asked_path url ≡ root ++ url = rw no_index refl in
    (asked ∙ ap (λ u. root ++ u) e, asked ∙ split)

module _ (files : Files) (memory : Bytes) (req : HttpRequest) (clean : Bytes) (d : ℕ) (more : Bytes)
    (asked : IsAsked req clean d) (c : Conn) where
  -- Any file of the machine that the server may read can be had by a GET or POST whose URL goes up four
  -- times and then names the file from the root on: its header block and its bytes are sent. The
  -- directory of the server and those above it are real ones, not links. The other conditions are
  -- those of a download: the name has fewer than 990 bytes, the size is below 2^63, the kernel
  -- takes each part at once, the log opens, and method and URL fit their arrays.
  pub handler_escape :
      (rest dir : Bytes) (x : ℕ) (name contents : Bytes)
      → GoesUp files
      → files.log_opens ≡ true
      → req.url ≡ climbing (b'/' ∷ rest)
      → b'/' ∷ rest ≡ dir ++ b'/' ∷ x ∷ name
      → is_method req.method ≡ true
      → files.stat (b'/' ∷ rest) ≡ some file
      → files.contents (b'/' ∷ rest) ≡ some (readable contents)
      → All (λ b. (b == b'/') ≡ false) (x ∷ name)
      → length (x ∷ name) < 990
      → files.size (b'/' ∷ rest) < 2 ^ 63
      → Roomy buffsize c.answers
      → length contents / buffsize + 6 ≤ length c.answers
      → (left : List SendAnswer) × (http_module_handler_response files
            (clean ++ d ∷ more)
            memory
            req
            c
          ≡ ok (
              conn left (c.wire ++ header_block (files.size (b'/' ∷ rest)) (x ∷ name) ++ contents)))
  handler_escape rest dir x name contents up opens e whole known present opened plain short small
        roomy enough =
      let (path, split) = asked_path-climbing req.url rest dir x name e whole plain in
      let same = climbing-Same files rest up in
      let size : files.size (asked_path req.url) ≡ files.size (b'/' ∷ rest) =
        ap files.size path ∙ same.same_size in
      let (left, sent) =
        handler_download files memory req clean d more asked c (root ++ climbing dir) (x ∷ name)
          contents opens known (ap files.stat path ∙ same.same_stat ∙ present)
          (ap files.contents path ∙ same.same_contents ∙ opened) split plain short
          (omega (arith, size)) roomy enough in
      (left, sent ∙ ap (λ n. ok (conn left (c.wire ++ header_block n (x ∷ name) ++ contents))) size)
