-- ===== src/Tests/DownloadTests.antt =====
-- A test of a child with many clients, each of which gets a file.
use http_callback_serve_vers.Base.{ℕ, codes}
use http_callback_serve_vers.Child.{Child}
use http_callback_serve_vers.Child.Downloads.{Fetch}
use http_callback_serve_vers.Tests.VisitTests.{visit}

abbrev fetch : ℕ → ℕ → ℕ → Fetch
fetch fd connection_at request_at = record {
  visit = visit fd connection_at request_at;
  dir = codes "/home/jackwu/Desktop/test";
  name = codes "a.txt";
  contents = codes "hello";
}
