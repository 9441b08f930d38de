-- ===== src/Accept.antt =====
-- `accept_request` of http_module/http_module.h, which turns "METHOD URL" into a local path and a
-- status, and `http_module_handler_request` and `geterror_type`, which call it. `stat` is the file
-- system. `junk` is what the array `buf` holds behind the copied string, which nothing initialises.
pub mod Locate
pub mod Split
pub mod Status
use http_callback_serve_vers.Base.{
  ℕ, zero, suc, ◌+◌, Bool, true, false, ◌&&◌, ◌||◌, not, List, [], ◌∷◌, ◌++◌, Option, none, some,
  ltb, ◌==◌, if◌then◌else◌, Bytes, codes, length, Run, ok, fault, and_then, out_of_bounds,
}
use http_callback_serve_vers.CString.{is_space, strcasecmp_eq, last_byte}
use http_callback_serve_vers.Tcp.{text_of}
use http_callback_serve_vers.Request.{HttpRequest, bufsize}

-- HTTP_ERROR_NOT_FIND, HTTP_ERROR_METHOD, HTTP_ERROR_REQUEST and HTTP_SUCCESS.
abbrev pub http_error_not_find : ℕ
http_error_not_find = 404

abbrev pub http_error_method : ℕ
http_error_method = 500

abbrev pub http_error_request : ℕ
http_error_request = 400

abbrev pub http_success : ℕ
http_success = 200

-- BUFFSIZE and PARTSIZE.
abbrev pub buffsize : ℕ
buffsize = 1024

abbrev pub partsize : ℕ
partsize = 512

-- What `stat` says of a path that it finds.
pub data Kind : Type 0 where
  directory file : Kind

abbrev pub Stat : Type 0
Stat = Bytes → Option Kind

-- The status, and the string that `localPath` holds behind the call.
pub record Accepted : Type 0 where
  pub status : ℕ
  pub path : Bytes

abbrev pub accepted : ℕ → Bytes → Accepted
accepted s p = record { status = s; path = p }

-- `while (!isspace(buf[j])&&i<PARTSIZE)` over the bytes from `j` on, with `PARTSIZE - i` rounds left:
-- the bytes copied, and those from the new `j` on. Behind the last byte `buf[j]` is out of bounds.
unfoldable pub word_loop : ℕ → Bytes → Run (Bytes × Bytes)
unfolding is_space
word_loop n [] = fault out_of_bounds
word_loop zero (c ∷ s) = ok ([], c ∷ s)
word_loop (suc n) (c ∷ s) =
    let rest = and_then (word_loop n s) (λ (r : Bytes × Bytes). ok (c ∷ r.0, r.1)) in
    if is_space c then ok ([], c ∷ s) else rest

-- `while (isspace(buf[j])&&j<BUFFSIZE) j++`.
unfoldable pub space_loop : Bytes → Run Bytes
unfolding is_space
space_loop [] = fault out_of_bounds
space_loop (c ∷ s) = let rest = space_loop s in if is_space c then rest else ok (c ∷ s)

-- `word[i]='\0'` in an array of PARTSIZE bytes, and the string that it then holds.
abbrev pub close_word : Bytes → Run Bytes
close_word w = if ltb (length w) partsize then ok (text_of w) else fault out_of_bounds

-- The method and the URL.
unfoldable pub split_request : Bytes → Run (Bytes × Bytes)
unfolding word_loop space_loop text_of
split_request buf = and_then (word_loop partsize buf) (λ (m : Bytes × Bytes).
    and_then (close_word m.0) (λ (method : Bytes). and_then (space_loop m.1) (λ (s : Bytes).
      and_then (word_loop partsize s)
        (λ (u : Bytes × Bytes). and_then (close_word u.0) (λ (url : Bytes). ok (method, url))))))

abbrev pub root : Bytes
root = codes "/home/jackwu/Desktop/test"

-- A string put into the caller's buffer of `cap` bytes.
abbrev pub put : ℕ → Bytes → Run Bytes
put cap s = if ltb (length s) cap then ok s else fault out_of_bounds

-- The status by what `stat` says of `path`. For a directory the name that `strcat` adds is
-- overwritten by the `sprintf` behind it.
abbrev pub by_kind : ℕ → Bytes → Bytes → Option Kind → Run Accepted
by_kind cap url path none = ok (accepted http_error_not_find path)
by_kind cap url path (some file) = ok (accepted http_success path)
by_kind cap url path (some directory) =
    and_then (put cap (path ++ codes "/index.html")) (λ (_ : Bytes).
      and_then (put cap (root ++ url)) (λ (p : Bytes). ok (accepted http_success p)))

-- The part of `accept_request` behind the test of the method.
unfoldable pub locate : Stat → ℕ → Bytes → Run Accepted
locate stat cap url = and_then (put cap (root ++ url)) (λ (p : Bytes).
    and_then (if last_byte p 0 == b'/' then put cap (p ++ codes "index.html") else ok p)
      (λ (path : Bytes). by_kind cap url path (stat path)))

abbrev pub is_method : Bytes → Bool
is_method m = strcasecmp_eq m (codes "GET") || strcasecmp_eq m (codes "POST")

-- `accept_request(localPath)`, where `localPath` points to `cap` bytes.
unfoldable pub accept_request : Stat → ℕ → Bytes → Bytes → Run Accepted
unfolding split_request locate
accept_request stat cap junk local_path =
    if ltb (length local_path) buffsize
    then and_then (split_request (local_path ++ 0 ∷ junk)) (λ (r : Bytes × Bytes).
      if is_method r.0 then locate stat cap r.1 else ok (accepted http_error_method local_path))
    else fault out_of_bounds

-- `info_t`.
pub record Info : Type 0 where
  pub errtype : ℕ
  pub filename : Bytes

-- `http_module_handler_request(epollfd, arg)`: it asks about an empty name, and reads nothing from
-- the descriptor. `malloc` is taken to succeed. The destination has 1024 bytes or more.
unfoldable pub http_module_handler_request : Stat → Bytes → Run Info
unfolding accept_request
http_module_handler_request stat junk =
    and_then (accept_request stat buffsize junk [])
      (λ (a : Accepted). ok (record { errtype = a.status; filename = a.path }))

-- `geterror_type(req)`: the status, and the URL that `accept_request` writes over.
unfoldable pub geterror_type : Stat → Bytes → HttpRequest → Run (ℕ × HttpRequest)
unfolding accept_request
geterror_type stat junk req =
    and_then (accept_request stat bufsize junk req.url)
      (λ (a : Accepted). ok (a.status, record req { url = a.path }))
