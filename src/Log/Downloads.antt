-- ===== src/Log/Downloads.antt =====
-- `response_ok` of http_module/http_module.h as a whole: the answer, and the entries of inc/log.h behind it.
use http_callback_serve_vers.Base.{
  ℕ, ◌+◌, ◌/◌, ◌^◌, ◌≤◌, ◌<◌, true, false, List, [], ◌∷◌, ◌++◌, map, some, if◌then◌else◌, ◌==◌,
  Bytes, codes, length, Run, ok, and_then, ◌≡◌, refl, sym, ◌∙◌, ap, All, append-nil, append_assoc,
  Bool-cases, inl, inr,
}
use http_callback_serve_vers.CString.{strcasecmp_eq}
use http_callback_serve_vers.Io.{Conn, conn}
use http_callback_serve_vers.Accept.{buffsize}
use http_callback_serve_vers.Page.{response_ok}
use http_callback_serve_vers.Page.Delivers.{Roomy}
use http_callback_serve_vers.Page.Download.{
  readable, header_block, after_last-append, send_file-header_block,
}
use http_callback_serve_vers.Log.{
  Tm, Disk, same_bytes, append_to, log_path, log_line, log_out, log_err, log_download,
}

-- A file that is sent: when, its size and path, its bytes, and the connection.
pub record Download : Type 0 where
  pub lt : Tm
  pub size : ℕ
  pub dir : Bytes
  pub name : Bytes
  pub contents : Bytes
  pub client : Conn

pub record IsDownload (v : Download) : Type 0 where
  pub small : v.size < 2 ^ 63
  pub plain : All (λ b. (b == b'/') ≡ false) v.name
  pub short : length v.name < 990
  pub roomy : Roomy buffsize v.client.answers
  pub enough : length v.contents / buffsize + 6 ≤ length v.client.answers

-- One download after the other: the connections behind them, and the files.
unfoldable pub download_all : List Download → Disk → Run (List Conn × Disk)
unfolding response_ok
download_all [] disk = ok ([], disk)
download_all (v ∷ vs) disk =
    and_then
      (response_ok true v.lt v.size (some (readable v.contents)) (v.dir ++ b'/' ∷ v.name) v.client
        disk)
      (λ (r : Conn × Disk).
        and_then (download_all vs r.1) (λ (s : List Conn × Disk). ok (r.0 ∷ s.0, s.1)))

-- What should be on the wire, and what should be added to a file.
abbrev pub answered : Download → Bytes
answered v = v.client.wire ++ header_block v.size v.name ++ v.contents

abbrev pub entries : Bytes → List Download → Bytes
entries p [] = []
entries p (v ∷ vs) =
    (if same_bytes p (log_path v.lt) then log_line v.lt (codes "010") v.name else [])
    ++ entries p vs

append_to-if :
    (path s p : Bytes) (disk : Disk)
    → append_to path s disk p ≡ disk p ++ (if same_bytes p path then s else [])
unfolding append_to
append_to-if path s p disk = elim (Bool-cases (same_bytes p path)) [
  | inl e ↦ rw e refl
  | inr e ↦ rw e (sym (append-nil (disk p)))
]

pub response_ok-answered :
    (v : Download) (disk : Disk)
    → IsDownload v
    → (c : Conn) × (response_ok true v.lt v.size
          (some (readable v.contents))
          (v.dir ++ b'/' ∷ v.name)
          v.client
          disk
        ≡ ok (c, append_to (log_path v.lt) (log_line v.lt (codes "010") v.name) disk))
      × (c.wire ≡ answered v)
unfolding response_ok log_download log_err log_out strcasecmp_eq
response_ok-answered v disk h =
    let (rest, sent) =
      send_file-header_block v.size v.contents v.dir v.name v.client h.small h.plain h.short h.roomy
        h.enough in
    (conn rest (answered v), rw sent (rw (after_last-append v.dir v.name h.plain) refl), refl)

-- Downloads one after the other, each of a file that is read to its end on a connection with room, at
-- whatever times, where the log file opens: each client gets its header block and the bytes of its
-- file, and each file of the log gets, in order, one entry for each download of its day. Nothing is
-- added to any other file.
pub download_all-entries :
    (vs : List Download) (disk : Disk) (p : Bytes)
    → All IsDownload vs
    → (cs : List Conn) × (disk' : Disk) × (download_all vs disk ≡ ok (cs, disk'))
      × (map (λ c. c.wire) cs ≡ map answered vs)
      × (disk' p ≡ disk p ++ entries p vs)
unfolding download_all
download_all-entries [] disk p h = ([], disk, refl, refl, sym (append-nil (disk p)))
download_all-entries (v ∷ vs) disk p (h, hs) =
    let line = log_line v.lt (codes "010") v.name in
    let next = append_to (log_path v.lt) line disk in
    let (c, run, wire) = response_ok-answered v disk h in
    let (cs, disk', run', wires, added) = download_all-entries vs next p hs in
    (
      c ∷ cs,
      disk',
      rw run (rw run' refl),
      ap (λ w. w ∷ map (λ x. x.wire) cs) wire ∙ ap (λ ws. answered v ∷ ws) wires,
      added
          ∙ ap (λ t. t ++ entries p vs) (append_to-if (log_path v.lt) line p disk)
          ∙ append_assoc (disk p) (if same_bytes p (log_path v.lt) then line else [])
              (entries p vs),
    )
