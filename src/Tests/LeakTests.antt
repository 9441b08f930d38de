-- ===== src/Tests/LeakTests.antt =====
-- A test of what the child closes: a client is received, asks with a method that is not known, and is
-- answered on the descriptor that has the low half of an address for its number.
use mathlib.Core.List.Memᴰ.{head, tail}
use http_callback_serve_vers.Base.{Bytes, false, [], ◌∷◌, ◌∙◌, codes, pos, refl, arith, some, drop}
use http_callback_serve_vers.CString.{has_byte, is_space, strcasecmp_eq}
use http_callback_serve_vers.Io.{got, conn}
use http_callback_serve_vers.Request.{HttpRequest}
use http_callback_serve_vers.Request.Print.{print}
use http_callback_serve_vers.Request.Parse.{IsRequest}
use http_callback_serve_vers.Tcp.Callback.{tcp, called, callback-print}
use http_callback_serve_vers.Handler.Answers.{IsAsked, handler_other_method}
use http_callback_serve_vers.Page.Texts.{method_page, error_method-page}
use http_callback_serve_vers.Child.{Child, Object, object_at, closed, add_in, descriptor}
use http_callback_serve_vers.Child.Steps.{
  arrival, incoming, outgoing, accepted_client, read_client, answered_client, handle_event-arrival,
  handle_event-incoming, handle_event-outgoing,
}
use http_callback_serve_vers.Child.Kinds.{Reach, here, next, handled, to_read, to_write}
use http_callback_serve_vers.Child.Leak.{Closes, Reach-Closes}
use http_callback_serve_vers.Tests.ChildTests.{granted, granted-Received, start}
use http_callback_serve_vers.Tests.ServeTests.{disk, roomy, wide}
use http_callback_serve_vers.Tests.RequestTests.{url, version, hs, filler, parsed}

abbrev put : Bytes
put = codes "PUT"

abbrev putting : HttpRequest
putting = record parsed { method = put }

abbrev whole : Bytes
whole = print put url version hs filler

put-IsRequest : IsRequest put url version hs
unfolding has_byte
put-IsRequest = ground arith

putting-IsAsked : IsAsked putting [] 32
unfolding is_space
putting-IsAsked = ground arith

abbrev entered : Child
entered = record (start (Object.tcp (tcp (pos 8) [] [])) (got whole ∷ [])) {
  calls = closed (pos 5) ∷ add_in (pos 4) (descriptor (pos 4)) ∷ [];
}

abbrev received : Child
received = accepted_client (granted 9 5000) (pos 9) [] [] entered

abbrev was_read : Child
was_read =
    read_client (granted 0 6000) 5000 (tcp (pos 9) [] []) (called whole [] (some putting)) putting
      received

abbrev was_answered : Child
was_answered = answered_client (pos 6000) (conn (drop 8 roomy) method_page) was_read

received-Reach : Reach disk (codes " junk") [] (pos 4) entered received
unfolding object_at
received-Reach = next here (
    handled (granted 9 5000) (arrival (pos 4)) false refl (to_read (pos 4) (tail (head refl)) refl)
      (handle_event-arrival disk (codes " junk") [] (pos 4) (granted 9 5000) (pos 9) [] [] entered
        (granted-Received 9 5000)))

was_read-Reach : Reach disk (codes " junk") [] (pos 4) entered was_read
unfolding object_at
was_read-Reach = next received-Reach (
    handled (granted 0 6000) (incoming 5000) false refl
      (to_read (pos 9) (tail (tail (head refl))) refl)
      (handle_event-incoming disk (codes " junk") [] (pos 4) (granted 0 6000) 5000
        (tcp (pos 9) [] []) (called whole [] (some putting)) putting received refl refl
        (callback-print (pos 9) [] b'P' (codes "UT") url version hs filler [] put-IsRequest
          (omega arith) refl)
        refl))

was_answered-Reach : Reach disk (codes " junk") [] (pos 4) entered was_answered
unfolding object_at strcasecmp_eq
was_answered-Reach = next was_read-Reach (
    handled (granted 0 7000) (outgoing 6000) false refl
      (to_write (pos 9) (tail (tail (tail (head refl)))) refl)
      (handle_event-outgoing disk (codes " junk") [] (pos 4) (granted 0 7000) 6000 putting was_read
        (conn (drop 8 roomy) method_page) refl refl
        (handler_other_method disk [] putting [] 32 (codes "junk") putting-IsAsked wide refl
          ∙ error_method-page wide (omega arith) (omega arith))))

Reach-Closes_example : Closes disk (codes " junk") [] (pos 4) (pos 5) was_answered (pos 6000)
Reach-Closes_example =
    Reach-Closes disk (codes " junk") [] (pos 4) (pos 5) (pos 6000) refl was_answered-Reach
      (tail (tail (tail (tail (tail (head refl))))))
