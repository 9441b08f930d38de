-- ===== src/Child/Newest.antt =====
-- Whom the child of inc/http_task.h registers for writing between two clients.
use http_callback_serve_vers.Base.{
  Bool, false, List, [], ◌∷◌, ◌++◌, Option, none, some, Bytes, ok, ℤ, eq_ℤ, ◌≡◌, refl, sym, ◌∙◌, ap,
  subst, append_assoc, append-nil, All, All-append, Bool-cases, inl, inr, Yields, Yields-and_then,
}
use http_callback_serve_vers.Request.{HttpRequest}
use http_callback_serve_vers.Tcp.{call_back}
use http_callback_serve_vers.Handler.{Files, http_module_handler_response}
use http_callback_serve_vers.Child.{
  Data, pointer, data_fd, Object, tcp, request, Event, Call, add_in, mod_out, del, closed, Answers,
  Child, await_write, read_event, read_at, write_event, write_at, handle_event, pointed,
}

-- A call for the descriptor `fd`, or one that registers nothing.
abbrev pub OnlyFor : ℤ → Call → Type 0
OnlyFor fd (add_in d p) = ⊥
OnlyFor fd (mod_out d p) = d ≡ fd
OnlyFor fd (del d) = Unit
OnlyFor fd (closed d) = Unit

-- The variable `clientfd` stays, and all registrations are for it.
abbrev pub ForNewest : Child → Child → Type 0
ForNewest c c' =
    (new : List Call) × (c'.calls ≡ c.calls ++ new)
    × All (OnlyFor c.clientfd) new
    × (c'.clientfd ≡ c.clientfd)

await_write-ForNewest :
    (k : Answers) (c c' : Child) (req : Option HttpRequest)
    → c'.calls ≡ c.calls
    → c'.clientfd ≡ c.clientfd
    → Yields (λ r. ForNewest c r.1) (await_write k c' req)
await_write-ForNewest k c c' none h e = ([], h ∙ sym (append-nil c.calls), tt, e)
await_write-ForNewest k c c' (some req) h e = (
  mod_out c'.clientfd (pointer k.address) ∷ [],
  ap (λ l. l ++ mod_out c'.clientfd (pointer k.address) ∷ []) h,
  (e, tt),
  e,
)

read_at-ForNewest :
    (k : Answers) (d : Data) (c : Child) (o : Option Object)
    → Yields (λ r. ForNewest c r.1) (read_at k d c o)
unfolding read_event
read_at-ForNewest k d c none = tt
read_at-ForNewest k d c (some (request req)) = tt
read_at-ForNewest k d c (some (tcp t)) =
    Yields-and_then (λ r. ForNewest c r.1) (call_back t k.got_request (c.inbox t.fd)) _
      (λ r. await_write-ForNewest k c _ r.result refl refl)

module _ (files : Files) (junk memory : Bytes) (fd0 : ℤ) where
  write_at-ForNewest :
      (d : Data) (c : Child) (o : Option Object)
      → Yields (λ r. ForNewest c r.1) (write_at files junk memory fd0 d c o)
  unfolding write_event
  write_at-ForNewest d c none = tt
  write_at-ForNewest d c (some (tcp t)) = tt
  write_at-ForNewest d c (some (request req)) =
      Yields-and_then (λ r. ForNewest c r.1)
        (http_module_handler_response files junk memory req (c.sockets (data_fd d))) _
        (λ s. (del (data_fd d) ∷ closed (data_fd d) ∷ [], refl, (tt, (tt, tt)), refl))

  handle_event-ForNewest :
      (k : Answers) (e : Event) (c : Child)
      → eq_ℤ (data_fd e.data_of) fd0 ≡ false
      → Yields (λ r. ForNewest c r.1) (handle_event files junk memory fd0 k e c)
  unfolding handle_event
  handle_event-ForNewest k e c ne = rw ne (elim (Bool-cases e.readable) [
    | inl r ↦ rw r (read_at-ForNewest k e.data_of c (pointed c.heap e.data_of))
    | inr r ↦ rw r (elim (Bool-cases e.writable) [
      | inl w ↦ rw w (write_at-ForNewest e.data_of c (pointed c.heap e.data_of))
      | inr w ↦ rw w (del fd0 ∷ closed fd0 ∷ [], refl, (tt, (tt, tt)), refl)
    ])
  ])

  ForNewest-trans : (a b c : Child) → ForNewest a b → ForNewest b c → ForNewest a c
  ForNewest-trans a b c (new, calls, only, same) (new', calls', only', same') = (
    new ++ new',
    calls' ∙ ap (λ l. l ++ new') calls ∙ append_assoc a.calls new new',
    All-append (OnlyFor a.clientfd) new new' only (subst (λ fd. All (OnlyFor fd) new') same only'),
    same' ∙ same,
  )

  -- The states behind events that bring no new client.
  pub data Later (c : Child) : Child → Type 0 where
    now : Later c c
    then_handles :
        {c' c'' : Child} (k : Answers) (e : Event) (stop : Bool)
        → Later c c'
        → eq_ℤ (data_fd e.data_of) fd0 ≡ false
        → handle_event files junk memory fd0 k e c' ≡ ok (stop, c'')
        → Later c c''

  -- Until the next client arrives, whatever requests are read and from whichever clients: the child
  -- registers no descriptor for writing but that of the client that came last, and none at all for
  -- reading. All it does beside that is to remove and close descriptors.
  pub Later-ForNewest : {c c' : Child} → Later c c' → ForNewest c c'
  Later-ForNewest {c} now = ([], sym (append-nil c.calls), tt, refl)
  Later-ForNewest {c} {c' = d} (then_handles {c' = b} k e stop l ne h) =
      ForNewest-trans c b d (Later-ForNewest l)
        (subst (Yields (λ r. ForNewest b r.1)) h (handle_event-ForNewest k e b ne))
