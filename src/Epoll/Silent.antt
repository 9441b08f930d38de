-- ===== src/Epoll/Silent.antt =====
-- What the event loop of inc/http_io_base.h does for its clients.
use http_callback_serve_vers.Base.{
  ℕ, List, [], ◌∷◌, ◌==◌, Bytes, length, take, min, ℤ, pos, eq_ℤ, ◌≡◌, refl, ap, ◌∙◌, append-nil,
  Bool-cases, inl, inr, Post, Post-and_then, OnlyBounds, take_nil,
}
use http_callback_serve_vers.Io.{SendAnswer, room}
use http_callback_serve_vers.Accept.{Stat, http_module_handler_request}
use http_callback_serve_vers.Accept.Status.{http_module_handler_request-Refused}
use http_callback_serve_vers.Epoll.{
  Loop, Event, do_write, do_read, handle_one, handle_events, wait_loop, created, do_epoll, sent_on,
}

-- The buffer is empty, and nothing has gone out since the state with these wires.
abbrev pub Quiet : (ℤ → Bytes) → Loop → Type 0
Quiet wires l = (l.buf ≡ []) × ((d : ℤ) → l.wires d ≡ wires d)

sent_on-nil : (fd : ℤ) (wires : ℤ → Bytes) (d : ℤ) → sent_on fd [] wires d ≡ wires d
sent_on-nil fd wires d = elim (Bool-cases (eq_ℤ d fd)) [
  | inl e ↦ rw e (append-nil (wires d))
  | inr e ↦ rw e refl
]

do_write-Quiet :
    (wires : ℤ → Bytes) (epollfd fd : ℤ) (answer : SendAnswer) (l : Loop)
    → Quiet wires l
    → Quiet wires (do_write epollfd fd answer l)
unfolding do_write
do_write-Quiet wires epollfd fd (SendAnswer.failed e) l (empty, same) = (refl, same)
do_write-Quiet wires epollfd fd (room k) l (empty, same) =
    let n = min k (length l.buf) in
    let nothing : take n l.buf ≡ [] = ap (take n) empty ∙ take_nil n in
    (refl, λ d. rw nothing (sent_on-nil fd l.wires d ∙ same d))

do_read-Quiet :
    (wires : ℤ → Bytes) (stat : Stat) (junk : Bytes) (l : Loop)
    → Quiet wires l
    → Post OnlyBounds (Quiet wires) (do_read stat junk l)
unfolding do_read
do_read-Quiet wires stat junk l q =
    Post-and_then OnlyBounds _ (Quiet wires) (http_module_handler_request stat junk) _
      (http_module_handler_request-Refused stat junk) (λ i h. q)

module _ (stat : Stat) (wires : ℤ → Bytes) where
  handle_one-Quiet :
      (epollfd : ℤ) (e : Event) (l : Loop)
      → Quiet wires l
      → Post OnlyBounds (Quiet wires) (handle_one stat epollfd e l)
  handle_one-Quiet epollfd e l q = elim (Bool-cases e.readable) [
    | inl r ↦ rw r (do_read-Quiet wires stat e.junk l q)
    | inr r ↦ rw r (elim (Bool-cases e.writable) [
      | inl w ↦ rw w (do_write-Quiet wires epollfd e.fd e.answer l q)
      | inr w ↦ rw w q
    ])
  ]

  handle_events-Quiet :
      (epollfd : ℤ) (events : List Event) (l : Loop)
      → Quiet wires l
      → Post OnlyBounds (Quiet wires) (handle_events stat epollfd events l)
  unfolding handle_events
  handle_events-Quiet epollfd [] l q = q
  handle_events-Quiet epollfd (e ∷ events) l q =
      Post-and_then OnlyBounds (Quiet wires) (Quiet wires) (handle_one stat epollfd e l) _
        (handle_one-Quiet epollfd e l q) (λ l' q'. handle_events-Quiet epollfd events l' q')

  wait_loop-Quiet :
      (batches : List (List Event)) (l : Loop)
      → Quiet wires l
      → Post OnlyBounds (Quiet wires) (wait_loop stat batches l)
  unfolding wait_loop
  wait_loop-Quiet [] l q = q
  wait_loop-Quiet (events ∷ batches) l q =
      Post-and_then OnlyBounds (Quiet wires) (Quiet wires) (handle_events stat l.epollfd events l) _
        (handle_events-Quiet l.epollfd events l q) (λ l' q'. wait_loop-Quiet batches l' q')

created-Quiet :
    (wires : ℤ → Bytes) (n : ℕ) (l : Loop)
    → Quiet wires l
    → Post OnlyBounds (Quiet wires) (created (pos n) l)
created-Quiet wires n l q = elim (Bool-cases (l.flag_x == 0)) [ inl e ↦ rw e q | inr e ↦ rw e q ]

-- However long `do_epoll` runs, whatever events it gets and whatever the kernel answers to its writes:
-- where `epoll_create` succeeds, no byte goes out on any descriptor. The loop reads nothing from its
-- clients, its buffer starts empty, and every write leaves it empty. A round ends, or reads or
-- writes outside an array while it asks for an empty name.
pub do_epoll-Quiet :
    (stat : Stat) (listenfd : ℤ) (n : ℕ) (batches : List (List Event)) (l : Loop)
    → Post OnlyBounds (Quiet l.wires) (do_epoll stat listenfd (pos n) batches l)
unfolding do_epoll
do_epoll-Quiet stat listenfd n batches l =
    Post-and_then OnlyBounds (Quiet l.wires) (Quiet l.wires)
      (created (pos n) (record l { buf = [] })) _
      (created-Quiet l.wires n (record l { buf = [] }) (refl, λ d. refl))
      (λ l' q. wait_loop-Quiet stat l.wires batches _ q)
