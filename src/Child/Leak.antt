-- ===== src/Child/Leak.antt =====
-- Which descriptors the child of inc/http_task.h closes.
use mathlib.Core.List.{Memᴰ}
use mathlib.Core.List.Memᴰ.{append_left}
use http_callback_serve_vers.Base.{
  ℕ, true, List, [], ◌∷◌, ◌++◌, Option, none, some, Bytes, Yields, Yields-and_then, Yields-map, ℤ,
  ◌&&◌, is_neg, int_of_size, ◌≡◌, ◌∙◌, ◌⊎◌, refl, sym, ap, All, All-append, All-map, All-Mem,
  Bool-cases, inl, inr, subst, append-nil,
}
use http_callback_serve_vers.Request.{HttpRequest}
use http_callback_serve_vers.Tcp.{HttpTcp, call_back}
use http_callback_serve_vers.Sock.{sock_fd_read, setnoblock}
use http_callback_serve_vers.Handler.{Files, http_module_handler_response}
use http_callback_serve_vers.Child.{
  descriptor, pointer, data_fd, request, object_at, Event, Call, add_in, mod_out, del, closed,
  Answers, Child, would_block, register, await_write, new_client, read_event, write_event,
  handle_event,
}
use http_callback_serve_vers.Child.Steps.{answered_client}
use http_callback_serve_vers.Child.Typed.{Typed, AllTyped}
use http_callback_serve_vers.Child.Kinds.{
  Offered, to_read, to_write, Step, handled, Reach, here, next, Intended, arrives, reads, writes,
  hangs_up, Offered-Intended, Reach-AllTyped, entered-AllTyped,
}

abbrev pub Adds : (Call → Type 0) → Child → Child → Type 0
Adds Q c c' = (new : List Call) × (c'.calls ≡ c.calls ++ new) × All Q new

abbrev pub Registers : Call → Type 0
Registers (add_in fd d) = Unit
Registers (mod_out fd d) = Unit
Registers (del fd) = ⊥
Registers (closed fd) = ⊥

register-Adds :
    (k : Answers) (fd : ℤ) (c : Child) (t : Option HttpTcp)
    → Yields (λ r. Adds Registers c r.1) (register k fd c t)
register-Adds k fd c none = tt
register-Adds k fd c (some t) =
    Yields-and_then (λ r. Adds Registers c r.1) (setnoblock k.flags k.set_flags) _
      (λ n. (add_in fd (pointer k.address) ∷ [], refl, (tt, tt)))

new_client-Adds : (k : Answers) (c : Child) → Yields (λ r. Adds Registers c r.1) (new_client k c)
unfolding new_client
new_client-Adds k c =
    Yields-and_then (λ r. Adds Registers c r.1) (sock_fd_read k.size k.control) _
      (λ r. elim (Bool-cases (is_neg r.0 && would_block k.error)) [
        | inl e ↦ rw e ([], sym (append-nil c.calls), tt)
        | inr e ↦ rw e (register-Adds k r.1 c _)
      ])

await_write-Adds :
    (k : Answers) (c c' : Child) (req : Option HttpRequest)
    → c'.calls ≡ c.calls
    → Yields (λ r. Adds Registers c r.1) (await_write k c' req)
await_write-Adds k c c' none h = ([], h ∙ sym (append-nil c.calls), tt)
await_write-Adds k c c' (some req) h =
    let x = mod_out c'.clientfd (pointer k.address) in (x ∷ [], ap (λ l. l ++ x ∷ []) h, (tt, tt))

read_event-Adds :
    (k : Answers) (p : ℕ) (t : HttpTcp) (c : Child)
    → Yields (λ r. Adds Registers c r.1) (read_event k p t c)
unfolding read_event
read_event-Adds k p t c =
    Yields-and_then (λ r. Adds Registers c r.1) (call_back t k.got_request (c.inbox t.fd)) _
      (λ r. await_write-Adds k c _ r.result refl)

module _ (files : Files) (junk memory : Bytes) (fd0 fd1 : ℤ) where
  -- Why a descriptor is closed, or no longer watched.
  abbrev pub Cause : List Call → ℤ → Type 0
  Cause calls d =
      (d ≡ fd1)
      ⊎ ((d ≡ fd0)
          ⊎ ((fd : ℤ) × (p : ℕ) × Memᴰ (mod_out fd (pointer p)) calls × (d ≡ int_of_size p)))

  abbrev pub Accounted : List Call → Call → Type 0
  Accounted calls (add_in fd d) = Unit
  Accounted calls (mod_out fd d) = Unit
  Accounted calls (del d) = Cause calls d
  Accounted calls (closed d) = Cause calls d

  Cause-more : (calls new : List Call) (d : ℤ) → Cause calls d → Cause (calls ++ new) d
  Cause-more calls new d (inl e) = inl e
  Cause-more calls new d (inr (inl e)) = inr (inl e)
  Cause-more calls new d (inr (inr (fd, p, m, e))) = inr (inr (fd, p, append_left new m, e))

  Accounted-more :
      (calls new : List Call) (x : Call) → Accounted calls x → Accounted (calls ++ new) x
  Accounted-more calls new (add_in fd d) h = tt
  Accounted-more calls new (mod_out fd d) h = tt
  Accounted-more calls new (del d) h = Cause-more calls new d h
  Accounted-more calls new (closed d) h = Cause-more calls new d h

  Registers-Accounted : (calls : List Call) (x : Call) → Registers x → Accounted calls x
  Registers-Accounted calls (add_in fd d) h = tt
  Registers-Accounted calls (mod_out fd d) h = tt
  Registers-Accounted calls (del d) h = absurd h
  Registers-Accounted calls (closed d) h = absurd h

  abbrev AllAccounted : Child → Type 0
  AllAccounted c = All (Accounted c.calls) c.calls

  Adds-AllAccounted :
      (c c' : Child)
      → AllAccounted c
      → Adds (λ x. (calls : List Call) → Accounted (c.calls ++ calls) x) c c'
      → AllAccounted c'
  Adds-AllAccounted c c' h (new, e, causes) =
      subst (λ calls. All (Accounted calls) calls) (sym e)
        (All-append (Accounted (c.calls ++ new)) c.calls new
          (All-map (Accounted c.calls) (Accounted (c.calls ++ new))
            (λ x. Accounted-more c.calls new x) c.calls h)
          (All-map _ (Accounted (c.calls ++ new)) (λ x cause. cause new) new causes))

  -- Adding registrations only.
  Registers-AllAccounted : (c c' : Child) → AllAccounted c → Adds Registers c c' → AllAccounted c'
  Registers-AllAccounted c c' h (new, e, only) = Adds-AllAccounted c c' h (
    new,
    e,
    All-map Registers _ (λ x r calls. Registers-Accounted (c.calls ++ calls) x r) new only,
  )

  -- Removing and closing a descriptor.
  dropped-AllAccounted :
      (c c' : Child) (d : ℤ)
      → AllAccounted c
      → Cause c.calls d
      → c'.calls ≡ c.calls ++ del d ∷ closed d ∷ []
      → AllAccounted c'
  dropped-AllAccounted c c' d h cause e =
      let more = λ (calls : List Call). Cause-more c.calls calls d cause in
      Adds-AllAccounted c c' h (del d ∷ closed d ∷ [], e, (more, (more, tt)))

  write_event-AllAccounted :
      (d : ℤ) (req : HttpRequest) (c : Child)
      → AllAccounted c
      → Cause c.calls d
      → Yields (λ r. AllAccounted r.1) (write_event files junk memory fd0 d req c)
  unfolding write_event
  write_event-AllAccounted d req c h cause =
      Yields-and_then (λ r. AllAccounted r.1)
        (http_module_handler_response files junk memory req (c.sockets d)) _
        (λ w. dropped-AllAccounted c (answered_client d w c) d h cause refl)

  -- A request is answered only where it was registered.
  Offered-Cause :
      (e : Event) (c : Child) (p : ℕ)
      → Offered files junk memory fd0 c.calls e
      → e.writable ≡ true
      → e.data_of ≡ pointer p
      → Cause c.calls (int_of_size p)
  Offered-Cause e c p (to_read fd m w) w' is = absurd cc
  Offered-Cause e c p (to_write fd m r) w' is =
      inr (inr (fd, p, subst (λ d. Memᴰ (mod_out fd d) c.calls) is m, refl))

  Intended-AllAccounted :
      (k : Answers) (e : Event) (c : Child)
      → AllAccounted c
      → Offered files junk memory fd0 c.calls e
      → Intended files junk memory fd0 k e c
      → Yields (λ r. AllAccounted r.1) (handle_event files junk memory fd0 k e c)
  Intended-AllAccounted k e c s o (arrives a h) = rw h (
      Yields-map (λ r. Adds Registers c r.1) _ (new_client k c)
        (λ r. Registers-AllAccounted c r.1 s) (new_client-Adds k c))
  Intended-AllAccounted k e c s o (reads p t r is at h) = rw h (
      Yields-map (λ r. Adds Registers c r.1) _ (read_event k p t c)
        (λ r. Registers-AllAccounted c r.1 s) (read_event-Adds k p t c))
  Intended-AllAccounted k e c s o (writes p req w is at h) =
      rw h (write_event-AllAccounted (data_fd (pointer p)) req c s (Offered-Cause e c p o w is))
  Intended-AllAccounted k e c s o (hangs_up r w h) =
      let gone = record c { calls = c.calls ++ del fd0 ∷ closed fd0 ∷ [] } in
      rw h (dropped-AllAccounted c gone fd0 s (inr (inl refl)) refl)

  Step-AllAccounted :
      {c c' : Child}
      → Step files junk memory fd0 c c'
      → AllTyped fd0 c
      → AllAccounted c
      → AllAccounted c'
  Step-AllAccounted {c} {c'} (handled k e stop new o h) typed s =
      subst (Yields (λ r. AllAccounted r.1)) h
        (Intended-AllAccounted k e c s o (Offered-Intended files junk memory fd0 k e c typed o))

  Reach-AllAccounted :
      {start c : Child}
      → AllTyped fd0 start
      → AllAccounted start
      → Reach files junk memory fd0 start c
      → AllAccounted c
  Reach-AllAccounted typed s here = s
  Reach-AllAccounted typed s (next r st) =
      Step-AllAccounted st (Reach-AllTyped files junk memory fd0 typed r)
        (Reach-AllAccounted typed s r)

  -- The two sockets of the main process, or a number that is the low half of the address of a request.
  abbrev pub Closes : Child → ℤ → Type 0
  Closes c d =
      (d ≡ fd1)
      ⊎ ((d ≡ fd0)
          ⊎ ((p : ℕ) × (req : HttpRequest) × (object_at c.heap p ≡ some (request req))
              × (d ≡ int_of_size p)))

  Cause-Closes : (c : Child) (d : ℤ) → AllTyped fd0 c → Cause c.calls d → Closes c d
  Cause-Closes c d typed (inl e) = inl e
  Cause-Closes c d typed (inr (inl e)) = inr (inl e)
  Cause-Closes c d typed (inr (inr (fd, p, m, e))) =
      let (req, at) = All-Mem (Typed fd0 c.heap) c.calls typed m in inr (inr (p, req, at, e))

  -- Whatever the clients send, and in whichever order events arrive, from the state in which
  -- `jump_task_pool_obj` enters its loop, where a new object never lies where one lies already: the
  -- child never closes a descriptor because it belongs to a client. All that it closes are the two
  -- sockets of the main process, and numbers that are the low half of the address of a request in its
  -- heap.
  pub Reach-Closes :
      {start c : Child} (d : ℤ)
      → start.calls ≡ closed fd1 ∷ add_in fd0 (descriptor fd0) ∷ []
      → Reach files junk memory fd0 start c
      → Memᴰ (closed d) c.calls
      → Closes c d
  Reach-Closes {start} {c} d first r m =
      let typed = entered-AllTyped files junk memory fd0 fd1 start first in
      let entered : AllAccounted start =
        subst (λ calls. All (Accounted calls) calls) (sym first) (inl refl, (tt, tt)) in
      Cause-Closes c d (Reach-AllTyped files junk memory fd0 typed r)
        (All-Mem (Accounted c.calls) c.calls (Reach-AllAccounted typed entered r) m)
