-- ===== src/Tests/HandoverTests.antt =====
-- A test of the way of clients from the main process to a child.
use http_callback_serve_vers.Base.{codes, [], ◌∷◌, ok, pos, ◌≡◌, ℕ, suc, refl, arith}
use http_callback_serve_vers.Tcp.{http_tcp_alloc}
use http_callback_serve_vers.Sock.{sock_fd_write}
use http_callback_serve_vers.Child.{Child, add_in, pointer, handle_batch}
use http_callback_serve_vers.Child.Steps.{arrival}
use http_callback_serve_vers.Tcp.Callback.{tcp}
use http_callback_serve_vers.Child.{Object}
use http_callback_serve_vers.Serve.{Main, main_event}
use http_callback_serve_vers.Serve.Handover.{Kernel, Delivered, main_event-handle_batch}
use http_callback_serve_vers.Tests.ChildTests.{install, deliver, granted, start}
use http_callback_serve_vers.Tests.MainTests.{idle, knock}
use http_callback_serve_vers.Tests.ServeTests.{disk}

abbrev pub two_processes : Kernel
two_processes = record { install = install; deliver = deliver; deliver-rights = λ fd. refl }

pub granted-Delivered :
    (n address : ℕ) → Delivered two_processes (codes "xy") [] [] (granted (suc n) address) (pos n)
unfolding http_tcp_alloc sock_fd_write
granted-Delivered n address = record {
  got_bytes = (2, refl);
  message = refl;
  allocated = refl;
  got_flags = (0, refl);
  flags_set = (0, refl);
}

abbrev fresh : Child
fresh = start (Object.tcp (tcp (pos 8) [] [])) []

main_event-handle_batch_example :
    (m' : Main) × (c' : Child) × (main_event (pos 3) knock idle ≡ ok m')
    × (m'.passed ≡ pos 7 ∷ pos 8 ∷ [])
    × (m'.g_count ≡ 2)
    × (handle_batch disk [] []
          (pos 4)
          ((granted 8 5000, arrival (pos 4)) ∷ (granted 9 6000, arrival (pos 4)) ∷ [])
          fresh
        ≡ ok c')
    × (c'.calls ≡ add_in (pos 8) (pointer 5000) ∷ add_in (pos 9) (pointer 6000) ∷ [])
main_event-handle_batch_example =
    main_event-handle_batch two_processes (codes "xy") disk [] [] (pos 4) (pos 3) (6 ∷ 7 ∷ []) knock
      idle (granted 8 5000 ∷ granted 9 6000 ∷ []) fresh refl refl refl (refl, (refl, (refl, tt)))
      (omega arith) (([], [], granted-Delivered 7 5000), (([], [], granted-Delivered 8 6000), tt))
