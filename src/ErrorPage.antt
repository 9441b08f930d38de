-- ===== src/ErrorPage.antt =====
-- `http_module_error` of http_module/http_module.h, which writes an error page to a stream, with
-- `get_current_time` of utils/utils.h. The stream is the text written to it so far.
pub mod Exits
use http_callback_serve_vers.Base.{
  ℕ, zero, suc, Bool, true, false, List, [], ◌∷◌, ◌++◌, Option, none, some, ltb, if◌then◌else◌,
  Bytes, codes, length, take, drop, Run, ok, fault, waiting, exit, and_then, out_of_bounds, ℤ,
}
use http_callback_serve_vers.Tcp.{text_of}
use http_callback_serve_vers.Config.{get_file_length}

abbrev pub bufsize : ℕ
bufsize = 4096

-- `get_current_time(buf, size)`: what `strftime` writes into an array of `size` bytes, which holds
-- nothing where the text does not fit.
unfoldable pub get_current_time : Bytes → ℕ → Bytes
get_current_time now size = if ltb (length now) size then now else []

-- `snprintf(s, strlen(s), …)` into an array that was cleared: a size of zero writes nothing.
abbrev pub print_cleared : Bytes → Bytes
print_cleared line = take 0 line

-- `fwrite(buffer, strlen(buffer), 1, fp)` for a full buffer: `strlen` wants a zero in it.
unfoldable pub write_block : Bytes → Bytes → Run Bytes
unfolding text_of
write_block block out =
    if ltb (length (text_of block)) (length block)
    then ok (out ++ text_of block)
    else fault out_of_bounds

-- `while (!feof(fp_error))` over the bytes left: `fread` counts whole buffers, so a last part that is
-- shorter is read and dropped. The fuel is one more than the bytes of the file.
unfoldable pub block_loop : ℕ → Bytes → Bytes → Run Bytes
unfolding write_block
block_loop zero rest out = waiting
block_loop (suc k) rest out =
    let next = λ (out' : Bytes). block_loop k (drop bufsize rest) out' in
    if ltb (length rest) bufsize
    then ok out
    else and_then (write_block (take bufsize rest) out) next

-- The lines in front of the file.
abbrev pub error_lines : Bytes → Bytes
error_lines now =
    codes " HTTP/1.1 400 bad Request \r\n"
    ++ codes "openresty\r\n"
    ++ print_cleared now
    ++ codes "Content-Type:txt/html\r\n"
    ++ print_cleared (codes "Content-Length:")
    ++ print_cleared (codes "Connection: close\r\n")

-- The part behind `get_file_length`, from what `fopen` gives.
unfoldable pub send_page : Bytes → Option Bytes → Bytes → Run Bytes
unfolding block_loop
send_page now none out = exit (codes "fopen error!")
send_page now (some contents) out =
    block_loop (suc (length contents)) contents (out ++ error_lines now)

-- `http_module_error(fp)`, from the time, the results of `open` and `fstat`, and what `fopen` gives.
unfoldable pub http_module_error : Bytes → ℤ → ℤ → Option Bytes → Bytes → Run Bytes
unfolding get_current_time get_file_length send_page
http_module_error now opened status contents out =
    let date_tmp = get_current_time now 50 in
    and_then (get_file_length opened status) (λ (_ : ℤ). send_page date_tmp contents out)
