-- ===== src/Child/Stuck.antt =====
-- What a request for a directory does to a child of inc/http_task.h.
use http_callback_serve_vers.Base.{
  ℕ, true, false, List, ◌∷◌, ◌++◌, some, Bytes, waiting, ℤ, eq_ℤ, int_of_size, ◌≡◌, refl, All, ◌==◌,
  length, ◌<◌,
}
use http_callback_serve_vers.Io.{Conn}
use http_callback_serve_vers.Request.{HttpRequest}
use http_callback_serve_vers.Accept.{Kind, is_method}
use http_callback_serve_vers.Accept.Locate.{asked_path, found}
use http_callback_serve_vers.Page.{body_loop}
use http_callback_serve_vers.Page.Endless.{failing, body_loop-waiting}
use http_callback_serve_vers.Handler.{Files}
use http_callback_serve_vers.Handler.Answers.{IsAsked}
use http_callback_serve_vers.Handler.Reply.{handler_endless}
use http_callback_serve_vers.Child.{
  request, object_at, Event, Answers, Child, write_event, handle_event, handle_batch, serve,
}
use http_callback_serve_vers.Child.Steps.{outgoing}

module _ (files : Files) (memory clean : Bytes) (d : ℕ) (more : Bytes) (fd0 : ℤ) where
  -- A child that answers a GET or POST of a directory, or of another file that `fopen` opens and whose
  -- reading fails, is lost: it handles no further event of this batch or a later one, since the loop
  -- over the file does not return, whatever the kernel answers and after any number of rounds. The
  -- name has fewer than 990 bytes, the request does not lie where its address would be read as
  -- `fd[0]`, and method and URL are plain words that fit their arrays together with what the stack
  -- holds behind them.
  pub serve-waiting :
      (k : Answers) (p : ℕ) (req : HttpRequest) (c : Child) (events : List (Answers × Event))
      (batches : List (List (Answers × Event))) (kind : Kind) (s dir name : Bytes) (rounds : ℕ)
      (rest : Bytes) (out : Conn)
      → eq_ℤ (int_of_size p) fd0 ≡ false
      → object_at c.heap p ≡ some (request req)
      → IsAsked req clean d
      → is_method req.method ≡ true
      → files.stat (asked_path req.url) ≡ some kind
      → (found req.url (some kind)).path ≡ dir ++ b'/' ∷ name
      → files.contents (dir ++ b'/' ∷ name) ≡ some (failing s)
      → All (λ b. (b == b'/') ≡ false) name
      → length name < 990
      → (serve files (clean ++ d ∷ more) memory fd0 (((k, outgoing p) ∷ events) ∷ batches) c
          ≡ waiting)
        × (body_loop true rounds rest out ≡ waiting)
  unfolding serve handle_batch handle_event write_event
  serve-waiting k p req c events batches kind s dir name rounds rest out h0 ho asked known present
        path opened plain short =
      let lost =
        handler_endless files memory req clean d more asked (c.sockets (int_of_size p)) kind s dir
          name known present path opened plain short in
      (rw h0 (rw ho (rw lost refl)), body_loop-waiting rounds rest out)
