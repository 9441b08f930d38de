-- ===== src/Epoll/Listen.antt =====
-- `Open_listen` of inc/http_epoll.h: from the configuration file to the socket.
use http_callback_serve_vers.Base.{
  ℕ, List, [], ◌∷◌, ◌++◌, some, Bytes, ℤ, pos, minus_one, ◌≡◌, ◌⊎◌, All,
}
use http_callback_serve_vers.Config.{SockPair, sock_pair}
use http_callback_serve_vers.Config.Address.{config_file, IsAddress, init_sockpair-config_line}
use http_callback_serve_vers.Sock.{Endpoint, Fds}
use http_callback_serve_vers.Sock.Opened.{NoSocket, settled, open_listenfd-settled}
use http_callback_serve_vers.Epoll.{open_listen}

-- `Open_listen` asks for the address and the port in the last line of a configuration file of lines
-- `@address:port@`, each of fewer than BUFSIZE bytes with its line feed and made of such strings as
-- can be told apart in it, and settles on the first address that gives a socket. With `bind` and `listen` it
-- returns the descriptor, the only one that it leaves open, and a failure of either ends the process,
-- whatever addresses follow. Both `calloc` calls, `getaddrinfo` and `setsockopt` succeed, and `bind`
-- gives 0 or -1.
pub open_listen-settled :
    (x y : Bytes) (earlier : List (Bytes × Bytes)) (at : Bytes × Bytes)
    (resolve : SockPair → ℤ × List Endpoint) (n fd o : ℕ) (listened : ℤ)
    (skipped addrs : List Endpoint) (a : Endpoint) (fds : Fds)
    → All IsAddress earlier
    → IsAddress at
    → resolve (sock_pair at.0 at.1) ≡ (pos n, skipped ++ a ∷ addrs)
    → All NoSocket skipped
    → a.socket_result ≡ pos fd
    → a.setsockopt_result ≡ pos o
    → (a.bind_result ≡ pos 0) ⊎ (a.bind_result ≡ minus_one)
    → open_listen (some x) (some y) (some (config_file (earlier ++ at ∷ []))) resolve listened fds
      ≡ settled fd fds a.bind_result listened
unfolding open_listen
open_listen-settled x y earlier at resolve n fd o listened skipped addrs a fds hs h found none
      socket option bound =
    rw (init_sockpair-config_line x y earlier at hs h) (
      rw found (open_listenfd-settled n fd o listened skipped addrs a fds none socket option bound))
