-- ===== src/Tests/KindsTests.antt =====
-- A test of the states that a child can reach.
use mathlib.Core.List.Memᴰ.{head, tail}
use http_callback_serve_vers.Base.{false, [], ◌∷◌, pos, refl}
use http_callback_serve_vers.Tcp.{http_tcp_alloc}
use http_callback_serve_vers.Tcp.Callback.{tcp}
use http_callback_serve_vers.Child.{
  Child, Object, closed, add_in, descriptor, object_at, handle_event, new_client,
}
use http_callback_serve_vers.Child.Steps.{arrival, incoming, accepted_client}
use http_callback_serve_vers.Child.Kinds.{
  Reach, here, next, handled, to_read, Intended, Reach-Intended,
}
use http_callback_serve_vers.Tests.ChildTests.{granted, start}
use http_callback_serve_vers.Tests.ServeTests.{disk}

abbrev entered : Child
entered = record (start (Object.tcp (tcp (pos 8) [] [])) []) {
  calls = closed (pos 5) ∷ add_in (pos 4) (descriptor (pos 4)) ∷ [];
}

abbrev one_client : Child
one_client = accepted_client (granted 9 5000) (pos 9) [] [] entered

one_client-Reach : Reach disk [] [] (pos 4) entered one_client
unfolding object_at handle_event new_client http_tcp_alloc
one_client-Reach = next here (
    handled (granted 9 5000) (arrival (pos 4)) false refl (to_read (pos 4) (tail (head refl)) refl)
      refl)

Reach-Intended_example : Intended disk [] [] (pos 4) (granted 0 6000) (incoming 5000) one_client
Reach-Intended_example =
    Reach-Intended disk [] [] (pos 4) (pos 5) (granted 0 6000) (incoming 5000) refl one_client-Reach
      (to_read (pos 9) (tail (tail (head refl))) refl)
