-- ===== src/Tests/ReplyTests.antt =====
-- Tests of the answers to requests, and of a directory that is asked for.
use http_callback_serve_vers.Base.{true, [], ◌∷◌, codes, some, waiting, pos, ◌≡◌, refl, arith}
use http_callback_serve_vers.CString.{is_space, strcasecmp_eq}
use http_callback_serve_vers.Request.{HttpRequest}
use http_callback_serve_vers.Accept.{directory}
use http_callback_serve_vers.Page.{unknow, body_loop}
use http_callback_serve_vers.Page.Endless.{failing}
use http_callback_serve_vers.Handler.{Files, http_module_handler_response}
use http_callback_serve_vers.Handler.Answers.{IsAsked}
use http_callback_serve_vers.Handler.Reply.{handler_reply}
use http_callback_serve_vers.Child.{request, object_at, serve}
use http_callback_serve_vers.Child.Steps.{outgoing}
use http_callback_serve_vers.Child.Stuck.{serve-waiting}
use http_callback_serve_vers.Tests.ServeTests.{
  noon, asked, asked-IsAsked, disk, no_files, all_directories, wide,
}
use http_callback_serve_vers.Tests.ChildTests.{granted, start}

handler_reply_example :
    http_module_handler_response (record disk { stat = no_files }) (32 ∷ codes "junk") [] asked wide
    ≡ unknow wide
unfolding strcasecmp_eq
handler_reply_example =
    handler_reply (record disk { stat = no_files }) [] asked [] 32 (codes "junk") asked-IsAsked wide

abbrev directories : Files
directories = record {
  stat = all_directories;
  size = λ p. 4096;
  contents = λ p. some (failing []);
  log_opens = true;
  now = noon;
  log = λ p. [];
}

abbrev listing : HttpRequest
listing = record asked { url = codes "/docs" }

listing-IsAsked : IsAsked listing [] 32
unfolding is_space
listing-IsAsked = ground arith

serve-waiting_example :
    (serve directories
        (32 ∷ codes "junk")
        []
        (pos 4)
        (((granted 0 0, outgoing 4096) ∷ (granted 0 0, outgoing 4096) ∷ []) ∷ [])
        (start (request listing) [])
      ≡ waiting)
    × (body_loop true 1000 [] wide ≡ waiting)
unfolding strcasecmp_eq object_at
serve-waiting_example =
    serve-waiting directories [] [] 32 (codes "junk") (pos 4) (granted 0 0) 4096 listing
      (start (request listing) []) ((granted 0 0, outgoing 4096) ∷ []) [] directory []
      (codes "/home/jackwu/Desktop/test") (codes "docs") 1000 [] wide refl refl listing-IsAsked refl
      refl refl refl (ground arith) (omega arith)
