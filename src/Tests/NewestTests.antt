-- ===== src/Tests/NewestTests.antt =====
-- A test of the events between two clients: a request of one client is read while another came last.
use http_callback_serve_vers.Base.{false, [], ◌∷◌, codes, pos, refl, arith, some}
use http_callback_serve_vers.Io.{got}
use http_callback_serve_vers.Tcp.Callback.{tcp, called, callback-print}
use http_callback_serve_vers.Child.{Child, Object, object_at}
use http_callback_serve_vers.Child.Steps.{incoming, read_client, handle_event-incoming}
use http_callback_serve_vers.Child.Newest.{Later, now, then_handles, Later-ForNewest, ForNewest}
use http_callback_serve_vers.Tests.ChildTests.{granted, start}
use http_callback_serve_vers.Tests.ServeTests.{disk}
use http_callback_serve_vers.Tests.RequestTests.{
  url, version, hs, filler, hundred, parsed, sample-IsRequest,
}

-- Client 8 has sent a request, and client 9 came last.
abbrev two_clients : Child
two_clients = record (start (Object.tcp (tcp (pos 8) [] [])) (got hundred ∷ [])) {
  clientfd = pos 9;
}

abbrev was_read : Child
was_read =
    read_client (granted 0 6000) 4096 (tcp (pos 8) [] []) (called hundred [] (some parsed)) parsed
      two_clients

was_read-Later : Later disk [] [] (pos 4) two_clients was_read
unfolding object_at
was_read-Later = then_handles (granted 0 6000) (incoming 4096) false now refl (
    handle_event-incoming disk [] [] (pos 4) (granted 0 6000) 4096 (tcp (pos 8) [] [])
      (called hundred [] (some parsed)) parsed two_clients refl refl
      (callback-print (pos 8) [] b'G' (codes "ET") url version hs filler [] sample-IsRequest
        (omega arith) refl)
      refl)

Later-ForNewest_example : ForNewest two_clients was_read
Later-ForNewest_example = Later-ForNewest disk [] [] (pos 4) was_read-Later
