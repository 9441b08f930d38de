-- ===== src/Log.antt =====
-- The log of inc/log.h: `logOut` and `log_err`, with the calls that `response_ok` of
-- http_module/http_module.h makes behind a download. The file system is the text of each file.
pub mod Days
pub mod Downloads
use http_callback_serve_vers.Base.{
  ℕ, zero, suc, ◌+◌, Bool, true, false, ◌&&◌, List, [], ◌∷◌, ◌++◌, if◌then◌else◌, ◌==◌, Bytes,
  codes, Run, ok, fault, null_pointer, and_then,
}
use http_callback_serve_vers.CString.{decimal, strcasecmp_eq}

-- The fields of `struct tm` that are read: `tm_year` counts from 1900, and `tm_mon` from 0.
pub record Tm : Type 0 where
  pub tm_year : ℕ
  pub tm_mon : ℕ
  pub tm_mday : ℕ
  pub tm_hour : ℕ
  pub tm_min : ℕ
  pub tm_sec : ℕ

abbrev pub Disk : Type 0
Disk = Bytes → Bytes

unfoldable pub same_bytes : Bytes → Bytes → Bool
same_bytes [] [] = true
same_bytes (c ∷ s) (d ∷ t) = c == d && same_bytes s t
same_bytes _ _ = false

-- What `fprintf` into a file that is open for "a" leaves.
unfoldable pub append_to : Bytes → Bytes → Disk → Disk
unfolding same_bytes
append_to path s disk p = if same_bytes p path then disk p ++ s else disk p

-- The two `sprintf` formats. With numbers of ten digits the path takes fewer than 80 bytes.
unfoldable pub log_path : Tm → Bytes
log_path lt =
    codes "/home/jackwu/Desktop/test/"
    ++ (decimal (lt.tm_year + 1900)
        ++ b'-' ∷ (decimal lt.tm_mon ++ b'-' ∷ (decimal lt.tm_mday ++ codes ".log")))

unfoldable pub log_line : Tm → Bytes → Bytes → Bytes
log_line lt flag name =
    codes "servername=01&ip=127.0.0.1&time="
    ++ decimal (lt.tm_year + 1900)
    ++ codes "-"
    ++ decimal lt.tm_mon
    ++ codes "-"
    ++ decimal lt.tm_mday
    ++ codes " "
    ++ decimal lt.tm_hour
    ++ codes ":"
    ++ decimal lt.tm_min
    ++ codes ":"
    ++ decimal lt.tm_sec
    ++ codes "&info="
    ++ flag
    ++ codes "&fileortask="
    ++ name
    ++ codes "\n"

-- `logOut(flag, name)`, by whether `fopen` opens the file, and by the time that `localtime` gives.
unfoldable pub log_out : Bool → Tm → Bytes → Bytes → Disk → Run Disk
unfolding log_path log_line append_to
log_out true lt flag name disk = ok (append_to (log_path lt) (log_line lt flag name) disk)
log_out false lt flag name disk = fault null_pointer

-- `log_err(flag, name)`.
unfoldable pub log_err : Bool → Tm → Bytes → Bytes → Disk → Run Disk
unfolding log_out
log_err opened lt flag name disk =
    if strcasecmp_eq flag (codes "010")
    then log_out opened lt (codes "010") name disk
    else if strcasecmp_eq flag (codes "011")
    then log_out opened lt (codes "011") name disk
    else ok disk

-- The end of `response_ok`, by what `ferror` says of the file.
unfoldable pub log_download : Bool → Bool → Tm → Bytes → Disk → Run Disk
unfolding log_err
log_download opened failed lt name disk =
    let failure = log_err opened lt (codes "011") name disk in
    and_then (if failed then failure else ok disk)
      (λ (d : Disk). log_err opened lt (codes "010") name d)
