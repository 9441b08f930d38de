-- ===== src/Child/Typed.antt =====
-- The kinds of the objects that a child of inc/http_task.h registers with `epoll`.
use http_callback_serve_vers.Base.{
  ℕ, true, false, [], ◌∷◌, ◌++◌, Option, none, some, ◌==◌, ℤ, eq_ℤ, is_neg, ◌&&◌, ◌≡◌, refl, ◌∙◌,
  ap, Bool-cases, inl, inr, ==_iff, All, All-append, All-map, Yields, Yields-and_then,
}
use http_callback_serve_vers.Request.{HttpRequest}
use http_callback_serve_vers.Tcp.{HttpTcp, call_back}
use http_callback_serve_vers.Sock.{sock_fd_read, setnoblock}
use http_callback_serve_vers.Child.{
  descriptor, pointer, Object, tcp, request, Heap, object_at, Call, add_in, mod_out, del, closed,
  Answers, Child, new_client, register, await_write, read_event, would_block,
}
use http_callback_serve_vers.Child.Steps.{object_at-new}

-- A call that registers a pointer to read from it registers a connection object, and one that registers
-- a pointer to write to it registers a request. The only descriptor registered is `fd[0]`.
abbrev pub Typed : ℤ → Heap → Call → Type 0
Typed fd0 heap (add_in fd (pointer p)) = (t : HttpTcp) × (object_at heap p ≡ some (tcp t))
Typed fd0 heap (add_in fd (descriptor d)) = eq_ℤ d fd0 ≡ true
Typed fd0 heap (mod_out fd (pointer p)) =
    (req : HttpRequest) × (object_at heap p ≡ some (request req))
Typed fd0 heap (mod_out fd (descriptor d)) = ⊥
Typed fd0 heap (del fd) = Unit
Typed fd0 heap (closed fd) = Unit

object_at-other :
    (heap : Heap) (p q : ℕ) (o : Object)
    → (q == p) ≡ false
    → object_at ((q, o) ∷ heap) p ≡ object_at heap p
unfolding object_at
object_at-other heap p q o h = rw h refl

-- A new object leaves the others.
object_at-fresh :
    (heap : Heap) (p q : ℕ) (o o' : Object)
    → object_at heap q ≡ none
    → object_at heap p ≡ some o'
    → object_at ((q, o) ∷ heap) p ≡ some o'
object_at-fresh heap p q o o' new old = elim (Bool-cases (q == p)) [
  | inl e ↦ let q_p = (==_iff q p).0 e in cc
  | inr e ↦ object_at-other heap p q o e ∙ old
]

object_at-still :
    (heap : Heap) (p q : ℕ) (o o' : Object)
    → object_at heap q ≡ none
    → object_at heap p ≡ some o'
    → object_at ((p, o) ∷ heap) q ≡ none
object_at-still heap p q o o' new old = elim (Bool-cases (p == q)) [
  | inl e ↦ let p_q = (==_iff p q).0 e in cc
  | inr e ↦ object_at-other heap q p o e ∙ new
]

Typed-fresh :
    (fd0 : ℤ) (heap : Heap) (q : ℕ) (o : Object) (x : Call)
    → object_at heap q ≡ none
    → Typed fd0 heap x
    → Typed fd0 ((q, o) ∷ heap) x
Typed-fresh fd0 heap q o (add_in fd (pointer p)) new (t, h) =
    (t, object_at-fresh heap p q o (tcp t) new h)
Typed-fresh fd0 heap q o (add_in fd (descriptor d)) new h = h
Typed-fresh fd0 heap q o (mod_out fd (pointer p)) new (req, h) =
    (req, object_at-fresh heap p q o (request req) new h)
Typed-fresh fd0 heap q o (mod_out fd (descriptor d)) new h = h
Typed-fresh fd0 heap q o (del fd) new h = tt
Typed-fresh fd0 heap q o (closed fd) new h = tt

-- A connection object that is changed stays one.
Typed-changed :
    (fd0 : ℤ) (heap : Heap) (q : ℕ) (t t' : HttpTcp) (x : Call)
    → object_at heap q ≡ some (tcp t)
    → Typed fd0 heap x
    → Typed fd0 ((q, tcp t') ∷ heap) x
Typed-changed fd0 heap q t t' (add_in fd (pointer p)) old (u, h) = elim (Bool-cases (q == p)) [
  | inl e ↦ (
    t',
    ap (λ q'. object_at ((q', tcp t') ∷ heap) p) ((==_iff q p).0 e) ∙ object_at-new p (tcp t') heap,
  )
  | inr e ↦ (u, object_at-other heap p q (tcp t') e ∙ h)
]
Typed-changed fd0 heap q t t' (add_in fd (descriptor d)) old h = h
Typed-changed fd0 heap q t t' (mod_out fd (pointer p)) old (req, h) = elim (Bool-cases (q == p)) [
  | inl e ↦ let q_p = (==_iff q p).0 e in absurd cc
  | inr e ↦ (req, object_at-other heap p q (tcp t') e ∙ h)
]
Typed-changed fd0 heap q t t' (mod_out fd (descriptor d)) old h = h
Typed-changed fd0 heap q t t' (del fd) old h = tt
Typed-changed fd0 heap q t t' (closed fd) old h = tt

module _ (fd0 : ℤ) where
  -- All registrations so far are sound.
  abbrev pub AllTyped : Child → Type 0
  AllTyped c = All (Typed fd0 c.heap) c.calls

  -- A new object is registered.
  AllTyped-new :
      (c : Child) (q : ℕ) (o : Object) (x : Call)
      → object_at c.heap q ≡ none
      → Typed fd0 ((q, o) ∷ c.heap) x
      → AllTyped c
      → All (Typed fd0 ((q, o) ∷ c.heap)) (c.calls ++ x ∷ [])
  AllTyped-new c q o x new h s =
      All-append (Typed fd0 ((q, o) ∷ c.heap)) c.calls (x ∷ [])
        (All-map (Typed fd0 c.heap) (Typed fd0 ((q, o) ∷ c.heap))
          (λ y hy. Typed-fresh fd0 c.heap q o y new hy) c.calls s)
        (h, tt)

  register-AllTyped :
      (k : Answers) (fd : ℤ) (c : Child) (t : Option HttpTcp)
      → object_at c.heap k.address ≡ none
      → AllTyped c
      → Yields (λ r. AllTyped r.1) (register k fd c t)
  register-AllTyped k fd c none new s = tt
  register-AllTyped k fd c (some t) new s =
      Yields-and_then (λ r. AllTyped r.1) (setnoblock k.flags k.set_flags) _
        (λ n.
          AllTyped-new c k.address (tcp t) (add_in fd (pointer k.address)) new
            (t, object_at-new k.address (tcp t) c.heap) s)

  pub new_client-AllTyped :
      (k : Answers) (c : Child)
      → object_at c.heap k.address ≡ none
      → AllTyped c
      → Yields (λ r. AllTyped r.1) (new_client k c)
  unfolding new_client
  new_client-AllTyped k c new s =
      Yields-and_then (λ r. AllTyped r.1) (sock_fd_read k.size k.control) _
        (λ r. elim (Bool-cases (is_neg r.0 && would_block k.error)) [
          | inl e ↦ rw e s
          | inr e ↦ rw e (register-AllTyped k r.1 c _ new s)
        ])

  await_write-AllTyped :
      (k : Answers) (c : Child) (req : Option HttpRequest)
      → object_at c.heap k.address ≡ none
      → AllTyped c
      → Yields (λ r. AllTyped r.1) (await_write k c req)
  await_write-AllTyped k c none new s = s
  await_write-AllTyped k c (some req) new s =
      AllTyped-new c k.address (request req) (mod_out c.clientfd (pointer k.address)) new
        (req, object_at-new k.address (request req) c.heap) s

  pub read_event-AllTyped :
      (k : Answers) (p : ℕ) (t : HttpTcp) (c : Child)
      → object_at c.heap p ≡ some (tcp t)
      → object_at c.heap k.address ≡ none
      → AllTyped c
      → Yields (λ r. AllTyped r.1) (read_event k p t c)
  unfolding read_event
  read_event-AllTyped k p t c old new s =
      Yields-and_then (λ r. AllTyped r.1) (call_back t k.got_request (c.inbox t.fd)) _
        (λ r.
          let t' : HttpTcp = record t { http_contxt = r.context; buf = some r.buf } in
          await_write-AllTyped k _ r.result
            (object_at-still c.heap p k.address (tcp t') (tcp t) new old)
            (All-map (Typed fd0 c.heap) (Typed fd0 ((p, tcp t') ∷ c.heap))
              (λ y hy. Typed-changed fd0 c.heap p t t' y old hy) c.calls s))
