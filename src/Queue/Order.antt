-- ===== src/Queue/Order.antt =====
-- The queues of inc/http_ipc.h keep the order of their messages.
use http_callback_serve_vers.Base.{
  ℕ, zero, suc, false, List, [], ◌∷◌, ◌++◌, some, Run, ok, and_then, ℤ, minus_one, eq_ℤ, ◌≡◌, refl,
  ap, sym, ◌∙◌, append_assoc, append-nil, length,
}
use http_callback_serve_vers.Pool.SList.{erase_first}
use http_callback_serve_vers.Queue.{Msg, Kernel, wanted, first_wanted, send_queue, rcv_queue}

module _ (K : Kernel) where
  open K use {State, queued, msgsnd, queued-msgsnd, queued-msgrcv}

  -- `send_queue` for message after message, as far as the calls return.
  pub send_all : ℤ → List Msg → State → Run State
  send_all q [] s = ok s
  send_all q (m ∷ ms) s = and_then (send_queue K q m s) (λ (r : ℤ × State). send_all q ms r.1)

  -- `rcv_queue` for messages of any type, `k` times.
  pub receive_all : ℤ → ℕ → State → Run (List Msg × State)
  receive_all q zero s = ok ([], s)
  receive_all q (suc k) s = and_then (rcv_queue K q 0 s) (λ (r : ℤ × Msg × State).
      and_then (receive_all q k r.2) (λ (rest : List Msg × State). ok (r.1 ∷ rest.0, rest.1)))

  send_all-queued :
      (q : ℤ) (ms : List Msg) (s : State)
      → ((m : Msg) (t : State) → eq_ℤ (msgsnd q m t).0 minus_one ≡ false)
      → (s' : State) × (send_all q ms s ≡ ok s') × (queued s' q ≡ queued s q ++ ms)
  unfolding send_all send_queue
  send_all-queued q [] s room = (s, refl, sym (append-nil (queued s q)))
  send_all-queued q (m ∷ ms) s room =
      let next = (msgsnd q m s).1 in
      let (s', run, order) = send_all-queued q ms next room in
      (
        s',
        rw (room m s) run,
        order
            ∙ ap (λ l. l ++ ms) (queued-msgsnd q m s (room m s))
            ∙ append_assoc (queued s q) (m ∷ []) ms,
      )

  receive_all-queued :
      (q : ℤ) (ms : List Msg) (s : State)
      → queued s q ≡ ms
      → (s' : State) × (receive_all q (length ms) s ≡ ok (ms, s')) × (queued s' q ≡ [])
  unfolding receive_all rcv_queue
  receive_all-queued q [] s e = (s, refl, e)
  receive_all-queued q (m ∷ ms) s e =
      let front : first_wanted 0 (queued s q) ≡ some m = rw e refl in
      let (n, next, got, left) = queued-msgrcv q 0 s m front in
      let fewer : queued next q ≡ ms = left ∙ ap (erase_first (wanted 0)) e in
      let (s', run, empty) = receive_all-queued q ms next fewer in
      (s', rw (got, rcv_queue) (rw run refl), empty)

  -- What goes into an empty queue by `send_queue`, where `msgsnd` succeeds for every message and in every state, comes out
  -- by `rcv_queue` for any type: the same messages in the same order, and then the queue is empty
  -- again.
  pub receive_all-send_all :
      (q : ℤ) (ms : List Msg) (s : State)
      → queued s q ≡ []
      → ((m : Msg) (t : State) → eq_ℤ (msgsnd q m t).0 minus_one ≡ false)
      → (s' s'' : State) × (send_all q ms s ≡ ok s')
        × (receive_all q (length ms) s' ≡ ok (ms, s''))
        × (queued s'' q ≡ [])
  receive_all-send_all q ms s empty room =
      let (s', sent, order) = send_all-queued q ms s room in
      let (s'', received, left) = receive_all-queued q ms s' (order ∙ ap (λ l. l ++ ms) empty) in
      (s', s'', sent, received, left)
