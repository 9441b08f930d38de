-- ===== src/ErrorPage/Exits.antt =====
-- `http_module_error` of http_module/http_module.h never gets to its page.
use http_callback_serve_vers.Base.{
  ℕ, zero, suc, ltb, take, drop, Post, OnlyBounds, Bool-cases, inl, inr, arith, length-drop, ◌<◌,
  ◌≤◌, ◌++◌, Option, some, Bytes, codes, length, ok, exit, ℤ, pos, negsuc, ◌≡◌, refl, lt→ltb,
}
use http_callback_serve_vers.Tcp.{text_of}
use http_callback_serve_vers.Config.{get_file_length}
use http_callback_serve_vers.ErrorPage.{
  bufsize, block_loop, write_block, send_page, error_lines, http_module_error,
}

-- With a file of fewer than `bufsize` bytes, such as the page is meant to be, the part that writes it would
-- send three lines, and nothing of the file.
pub send_page-short :
    (now contents out : Bytes)
    → length contents < bufsize
    → send_page now (some contents) out ≡ ok (out ++ error_lines now)
unfolding send_page block_loop
send_page-short now contents out h = rw (lt→ltb (length contents) bufsize h) refl

-- The message with which the process ends.
abbrev pub last_message : ℤ → ℤ → Bytes
last_message (pos fd) (negsuc e) = codes "fstat error"
last_message _ _ = codes "open error"

-- Whatever the time, the file system and the file: `http_module_error` writes nothing, and ends the
-- process, with a message about `fstat` where that fails, and about `open` otherwise, also where
-- everything succeeds. The cause is `get_file_length`, which runs on into its error labels.
pub http_module_error-exit :
    (now out : Bytes) (opened status : ℤ) (contents : Option Bytes)
    → http_module_error now opened status contents out ≡ exit (last_message opened status)
unfolding http_module_error get_file_length
http_module_error-exit now out (negsuc e) (pos n) contents = refl
http_module_error-exit now out (negsuc e) (negsuc n) contents = refl
http_module_error-exit now out (pos fd) (negsuc e) contents = refl
http_module_error-exit now out (pos fd) (pos n) contents = refl

block_loop-Ends :
    (k : ℕ) (rest out : Bytes)
    → length rest < k
    → Post OnlyBounds (λ out'. Unit) (block_loop k rest out)
unfolding block_loop write_block
block_loop-Ends zero rest out h = absurd (omega arith)
block_loop-Ends (suc k) rest out h = elim (Bool-cases (ltb (length rest) bufsize)) [
  | inl e ↦ rw e tt
  | inr e ↦
      let part = take bufsize rest in
      let size = length-drop bufsize rest in
      let more : bufsize ≤ length rest = ground (arith, e) in
      rw e (elim (Bool-cases (ltb (length (text_of part)) (length part))) [
        | inl f ↦ rw f (block_loop-Ends k (drop bufsize rest) (out ++ text_of part) (omega arith))
        | inr f ↦ rw f tt
      ])
]

-- The part that writes the page ends for every file: the fuel of its loop suffices.
pub send_page-Ends :
    (now contents out : Bytes) → Post OnlyBounds (λ out'. Unit) (send_page now (some contents) out)
unfolding send_page
send_page-Ends now contents out =
    block_loop-Ends (suc (length contents)) contents (out ++ error_lines now) (omega arith)
