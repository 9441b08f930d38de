-- ===== src/Serve/Passed.antt =====
-- Which clients `start` of src/core/epoll_circle.h passes to the children.
use http_callback_serve_vers.Base.{
  ℕ, suc, ◌+◌, ◌≤◌, true, false, List, [], ◌∷◌, ◌++◌, map, ok, ℤ, pos, minus_one, eq_ℤ, leb_ℤ, ◌≡◌,
  refl, ◌∙◌, ap, sym, arith, length, drop, All, ◌==◌, append_assoc, append-nil,
}
use http_callback_serve_vers.Io.{Errno, eagain}
use http_callback_serve_vers.Sock.{accept}
use http_callback_serve_vers.Serve.{Main, pass_loop, accept_loop, main_event, MainEvent}

-- The results of `accept` for these descriptors, and then for no client.
abbrev pub arrivals : List ℕ → List (ℤ × Errno)
arrivals [] = (minus_one, eagain) ∷ []
arrivals (n ∷ ns) = (pos (suc n), eagain) ∷ arrivals ns

abbrev pub fds : List ℕ → List ℤ
fds ns = map (λ n. pos (suc n)) ns

-- A `sendmsg` that passes something.
abbrev pub Passes : ℤ → Type 0
Passes r = leb_ℤ r (pos 0) ≡ false

pass_loop-first :
    (fd r : ℤ) (sends : List ℤ) → Passes r → pass_loop fd (r ∷ sends) ≡ ok (fd ∷ [], sends)
unfolding pass_loop
pass_loop-first fd r [] h = rw h refl
pass_loop-first fd r (r' ∷ sends) h = rw h refl

-- The state behind the clients `ns`, when no other waits.
abbrev pub after : List ℕ → Main → Main
after ns m = record m {
  clientfd = pos 0;
  passed = m.passed ++ fds ns;
  g_count = m.g_count + length ns;
}

state : Main → List ℤ → ℕ → Main
state m p g = record m { clientfd = pos 0; passed = p; g_count = g }

after-nil : (m : Main) → after [] m ≡ record m { clientfd = pos 0 }
unfolding state
after-nil m =
    let count : m.g_count + 0 ≡ m.g_count = omega arith in
    ap (λ p. state m p (m.g_count + 0)) (append-nil m.passed) ∙ ap (λ g. state m m.passed g) count

after-cons :
    (n : ℕ) (ns : List ℕ) (m : Main)
    → after ns (record m {
      clientfd = pos (suc n);
      passed = m.passed ++ pos (suc n) ∷ [];
      g_count = m.g_count + 1;
    })
      ≡ after (n ∷ ns) m
unfolding state
after-cons n ns m =
    let count : m.g_count + 1 + length ns ≡ m.g_count + suc (length ns) = omega arith in
    ap (λ p. state m p (m.g_count + 1 + length ns))
      (append_assoc m.passed (pos (suc n) ∷ []) (fds ns))
    ∙ ap (λ g. state m (m.passed ++ fds (n ∷ ns)) g) count

suc-zero : (n : ℕ) → (suc n == 0) ≡ false
suc-zero n = ground arith

accept_loop-after :
    (ns : List ℕ) (sends : List ℤ) (m : Main)
    → All Passes sends
    → length ns ≤ length sends
    → accept_loop (arrivals ns) sends m ≡ ok (after ns m, drop (length ns) sends)
unfolding accept_loop accept
accept_loop-after [] sends m hs hl = ap (λ a. ok (a, sends)) (sym (after-nil m))
accept_loop-after (n ∷ ns) [] m hs hl = absurd (omega arith)
accept_loop-after (n ∷ ns) (r ∷ sends) m (h, hs) hl =
    let next = record m {
      clientfd = pos (suc n);
      passed = m.passed ++ pos (suc n) ∷ [];
      g_count = m.g_count + 1;
    } in
    rw (suc-zero n) (
      rw (pass_loop-first (pos (suc n)) r sends h) (
        accept_loop-after ns sends next hs (omega arith)
        ∙ ap (λ a. ok (a, drop (length ns) sends)) (after-cons n ns m)))

-- On an event of the listening socket, `start` passes every waiting client to the children, once and
-- in the order of arrival, and counts it, where no client is descriptor 0 and each `sendmsg` passes
-- something.
pub main_event-passed :
    (listenfd : ℤ) (ns : List ℕ) (e : MainEvent) (m : Main)
    → e.failed ≡ false
    → eq_ℤ e.fd listenfd ≡ true
    → e.accepts ≡ arrivals ns
    → All Passes e.sends
    → length ns ≤ length e.sends
    → main_event listenfd e m ≡ ok (after ns m)
unfolding main_event
main_event-passed listenfd ns e m h0 h1 h2 hs hl =
    rw h0 (rw h1 (rw h2 (rw (accept_loop-after ns e.sends m hs hl) refl)))

-- If `sendmsg` passes nothing for a client and the next two calls pass something, the client is passed twice: the
-- loop sends once more behind its repeated call, whose result it drops.
pub pass_loop-twice :
    (fd r r' r'' : ℤ) (sends : List ℤ)
    → leb_ℤ r (pos 0) ≡ true
    → Passes r'
    → Passes r''
    → pass_loop fd (r ∷ r' ∷ r'' ∷ sends) ≡ ok (fd ∷ fd ∷ [], sends)
unfolding pass_loop
pass_loop-twice fd r r' r'' sends h h' h'' =
    rw h (rw (pass_loop-first fd r'' sends h'') (rw h' refl))
