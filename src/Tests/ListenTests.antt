-- ===== src/Tests/ListenTests.antt =====
-- A test of `Open_listen`, for a configuration file of two lines.
use http_callback_serve_vers.Base.{[], ◌∷◌, some, codes, exit, pos, ◌≡◌, refl, inr, arith}
use http_callback_serve_vers.CString.{has_byte}
use http_callback_serve_vers.Epoll.{open_listen}
use http_callback_serve_vers.Epoll.Listen.{open_listen-settled}
use http_callback_serve_vers.Tests.ChildTests.{nowhere, taken}

open_listen-settled_example :
    open_listen
      (some [])
      (some [])
      (some (codes "@10.0.0.1:80@\n@127.0.0.1:8080@\n"))
      (λ pair. (pos 0, nowhere ∷ taken ∷ nowhere ∷ []))
      (pos 0)
      []
    ≡ exit (codes "bind")
unfolding has_byte
open_listen-settled_example =
    open_listen-settled [] [] ((codes "10.0.0.1", codes "80") ∷ [])
      (codes "127.0.0.1", codes "8080") (λ pair. (pos 0, nowhere ∷ taken ∷ nowhere ∷ [])) 0 4 0
      (pos 0) (nowhere ∷ []) (nowhere ∷ []) taken [] (ground arith, tt) (ground arith) refl
      ((0, refl), tt) refl refl (inr refl)
