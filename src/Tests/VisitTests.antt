-- ===== src/Tests/VisitTests.antt =====
-- Tests of a child with one client after the other.
use http_callback_serve_vers.Base.{ℕ, [], codes, pos, refl, arith}
use http_callback_serve_vers.CString.{is_space}
use http_callback_serve_vers.Child.{Child}
use http_callback_serve_vers.Child.Visits.{Visit, IsAsking, IsVisit}
use http_callback_serve_vers.Tests.RequestTests.{
  url, version, hs, filler, hundred, sample-IsRequest,
}
use http_callback_serve_vers.Tests.ChildTests.{granted, granted-Received}

abbrev pub visit : ℕ → ℕ → ℕ → Visit
visit fd connection_at request_at = record {
  k = granted fd connection_at;
  k' = granted 0 request_at;
  k'' = granted 0 0;
  fd = pos fd;
  s = [];
  left = [];
  chunk = hundred;
  first = b'G';
  m = codes "ET";
  url = url;
  version = version;
  headers = hs;
  body = filler;
  later = [];
}

pub first-IsAsking : IsAsking [] 32 (pos 4) (visit 8 5000 6000)
unfolding is_space
first-IsAsking = record {
  connection_at = refl;
  request_at = refl;
  parses = sample-IsRequest;
  plain = omega arith;
  whole = refl;
  size = refl;
  room = omega arith;
  allocated = refl;
  asked = ground arith;
}

pub second-IsAsking : IsAsking [] 32 (pos 4) (visit 9 7000 8000)
unfolding is_space
second-IsAsking = record {
  connection_at = refl;
  request_at = refl;
  parses = sample-IsRequest;
  plain = omega arith;
  whole = refl;
  size = refl;
  room = omega arith;
  allocated = refl;
  asked = ground arith;
}

pub first-IsVisit : IsVisit [] 32 (pos 4) (visit 8 5000 6000)
first-IsVisit = record { received = granted-Received 8 5000; asking = first-IsAsking }

pub second-IsVisit : IsVisit [] 32 (pos 4) (visit 9 7000 8000)
second-IsVisit = record { received = granted-Received 9 7000; asking = second-IsAsking }
