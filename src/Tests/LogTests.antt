-- ===== src/Tests/LogTests.antt =====
-- Tests of the log behind downloads.
use http_callback_serve_vers.Base.{List, [], ◌∷◌, codes, map, ok, ◌≡◌, arith}
use http_callback_serve_vers.CString.{decimal}
use http_callback_serve_vers.Io.{Conn}
use http_callback_serve_vers.Log.{Tm, Disk, same_bytes, log_path, log_line}
use http_callback_serve_vers.Log.Downloads.{
  Download, IsDownload, download_all, answered, download_all-entries,
}
use http_callback_serve_vers.Tests.ServeTests.{wide, noon}

abbrev next_day : Tm
next_day = record noon { tm_mday = 11 }

abbrev first : Download
first = record {
  lt = noon;
  size = 5;
  dir = codes "/srv";
  name = codes "a.txt";
  contents = codes "hello";
  client = wide;
}

abbrev second : Download
second = record first { lt = next_day; name = codes "b.txt"; contents = codes "bye" }

first-IsDownload : IsDownload first
first-IsDownload = record {
  small = omega arith;
  plain = ground arith;
  short = omega arith;
  roomy = ground arith;
  enough = omega arith;
}

second-IsDownload : IsDownload second
second-IsDownload = record {
  small = omega arith;
  plain = ground arith;
  short = omega arith;
  roomy = ground arith;
  enough = omega arith;
}

abbrev empty_disk : Disk
empty_disk p = []

download_all-entries_example :
    (cs : List Conn) × (disk' : Disk) × (download_all (first ∷ second ∷ []) empty_disk
      ≡ ok (cs, disk'))
    × (map (λ c. c.wire) cs ≡ answered first ∷ answered second ∷ [])
    × (disk' (log_path noon) ≡ log_line noon (codes "010") (codes "a.txt"))
unfolding log_path log_line same_bytes decimal
download_all-entries_example =
    download_all-entries (first ∷ second ∷ []) empty_disk (log_path noon)
      (first-IsDownload, (second-IsDownload, tt))
