-- ===== src/Child/Downloads.antt =====
-- Many clients of one child of inc/http_task.h, each of which asks for a file.
use http_callback_serve_vers.Base.{
  ◌+◌, ◌/◌, ◌^◌, ◌≤◌, ◌<◌, true, false, List, [], ◌∷◌, ◌++◌, some, ◌==◌, Bytes, length, ℤ, eq_ℤ,
  ◌≡◌, All,
}
use http_callback_serve_vers.Io.{Conn}
use http_callback_serve_vers.Accept.{file, is_method, buffsize}
use http_callback_serve_vers.Accept.Locate.{asked_path}
use http_callback_serve_vers.Page.Delivers.{Roomy}
use http_callback_serve_vers.Page.Download.{readable, header_block}
use http_callback_serve_vers.Handler.{Files}
use http_callback_serve_vers.Child.{Child}
use http_callback_serve_vers.Child.Visits.{Visit, request_of, answered_on}

-- A visit for the file at `dir`/`name`.
pub record Fetch : Type 0 where
  pub visit : Visit
  pub dir : Bytes
  pub name : Bytes
  pub contents : Bytes

abbrev pub sent_on : Fetch → ℤ
sent_on w = answered_on w.visit

-- The file is there, and the connection has room for it.
pub record IsServable (files : Files) (c : Conn) (w : Fetch) : Type 0 where
  pub opens : files.log_opens ≡ true
  pub known : is_method (request_of w.visit).method ≡ true
  pub present : files.stat (asked_path w.visit.url) ≡ some file
  pub opened : files.contents (asked_path w.visit.url) ≡ some (readable w.contents)
  pub path : asked_path w.visit.url ≡ w.dir ++ b'/' ∷ w.name
  pub plain : All (λ b. (b == b'/') ≡ false) w.name
  pub short : length w.name < 990
  pub small : files.size (asked_path w.visit.url) < 2 ^ 63
  pub roomy : Roomy buffsize c.answers
  pub enough : length w.contents / buffsize + 6 ≤ length c.answers

abbrev pub file_on : Files → Conn → Fetch → Bytes
file_on files c w =
    c.wire ++ header_block (files.size (asked_path w.visit.url)) w.name ++ w.contents

-- No two are answered on the same descriptor.
abbrev pub Apart : ℤ → List Fetch → Type 0
Apart d ws = All (λ w. eq_ℤ d (sent_on w) ≡ false) ws

abbrev pub AllApart : List Fetch → Type 0
AllApart [] = Unit {0}
AllApart (w ∷ ws) = Apart (sent_on w) ws × AllApart ws

AllServable : Files → (ℤ → Conn) → List Fetch → Type 0
AllServable files sockets ws = All (λ w. IsServable files (sockets (sent_on w)) w) ws

-- Each file is on the descriptor that is answered.
abbrev pub AllSent : Files → (ℤ → Conn) → (ℤ → Conn) → List Fetch → Type 0
AllSent files before behind ws =
    All (λ w. (behind (sent_on w)).wire ≡ file_on files (before (sent_on w)) w) ws
