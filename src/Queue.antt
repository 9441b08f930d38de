-- ===== src/Queue.antt =====
-- The message queues of inc/http_ipc.h. The kernel's queues are a parameter: an interface with the
-- behaviour that msgsnd(2), msgrcv(2) and msgctl(2) document.
pub mod Order
use http_callback_serve_vers.Base.{
  ℕ, zero, suc, ◌+◌, Bool, true, false, List, [], ◌∷◌, ◌++◌, Option, none, some, if◌then◌else◌,
  ◌==◌, Bytes, codes, Run, ok, exit, and_then, ℤ, pos, negsuc, minus_one, eq_ℤ, is_neg, ◌≡◌,
}
use http_callback_serve_vers.Common.{check_minus_one}
use http_callback_serve_vers.Pool.SList.{position, erase_first}

-- `msg_t`.
pub record Msg : Type 0 where
  pub mtype : ℕ
  pub mcontext : Bytes
  pub pid : ℤ

-- The call failed with E2BIG, or for another reason.
pub data IpcErrno : Type 0 where
  e2big other : IpcErrno

-- `arr`: the queues from the main process to the master, from the master to a child, and for errors.
pub record Queues : Type 0 where
  pub main_master : ℤ
  pub master_child : ℤ
  pub errors : ℤ

-- `Ftok(i)`, from the result of `ftok`.
abbrev pub ftok : ℤ → Run ℤ
ftok = check_minus_one (codes "ftok")

-- `open_queue()`, from the results of `ftok` and `msgget`, and the two that differ in the message.
abbrev pub open_queue_as : Bytes → ℤ → ℤ → Run ℤ
open_queue_as msg key qid = and_then (ftok key) (λ (_ : ℤ). check_minus_one msg qid)

abbrev pub open_queue : ℤ → ℤ → Run ℤ
open_queue = open_queue_as (codes "msgget")

abbrev pub open_queue2 : ℤ → ℤ → Run ℤ
open_queue2 = open_queue_as (codes "msget2")

abbrev pub open_queue3 : ℤ → ℤ → Run ℤ
open_queue3 = open_queue_as (codes "msgget3")

-- `create_queue()`, from the results of `ftok` for 1, 2 and 3 and of `msgget` for what `ftok` gave.
unfoldable pub create_queue : (ℕ → ℤ) → (ℤ → ℤ) → Run Queues
create_queue keys ids = and_then (open_queue (keys 1) (ids (keys 1))) (λ (a : ℤ).
    and_then (open_queue2 (keys 2) (ids (keys 2))) (λ (b : ℤ).
      and_then (open_queue3 (keys 3) (ids (keys 3)))
        (λ (c : ℤ). ok (record { main_master = a; master_child = b; errors = c }))))

-- `peek_message(qid, type)`, from the result of `msgrcv` with IPC_NOWAIT and `errno`.
unfoldable pub peek_message : ℤ → IpcErrno → ℤ
peek_message r e2big = if eq_ℤ r minus_one then minus_one else pos 0
peek_message r other = pos 0

-- What a comparison is worth that is assigned in place of the value compared.
abbrev pub truth : Bool → ℤ
truth true = pos 1
truth false = pos 0

-- The kernel's queues. A call that fails changes nothing. `msgrcv` with type 0 takes the first message,
-- with another type the first of that type, and waits where there is none.
abbrev pub wanted : ℕ → Msg → Bool
wanted type m = if type == 0 then true else m.mtype == type

abbrev pub first_wanted : ℕ → List Msg → Option Msg
first_wanted type [] = none
first_wanted type (m ∷ ms) =
    let rest = first_wanted type ms in if wanted type m then some m else rest

pub record Kernel : Type 1 where
  pub State : Type 0
  pub queued : State → ℤ → List Msg
  pub msgsnd : ℤ → Msg → State → ℤ × State
  pub msgrcv : ℤ → ℕ → State → Option (ℤ × Msg × State)
  pub msgctl_rmid : ℤ → State → ℤ × State
  pub queued-msgsnd :
      (q : ℤ) (m : Msg) (s : State)
      → eq_ℤ (msgsnd q m s).0 minus_one ≡ false
      → queued (msgsnd q m s).1 q ≡ queued s q ++ m ∷ []
  pub queued-msgrcv :
      (q : ℤ) (type : ℕ) (s : State) (m : Msg)
      → first_wanted type (queued s q) ≡ some m
      → (n : ℕ) × (s' : State) × (msgrcv q type s ≡ some (pos n, m, s'))
        × (queued s' q ≡ erase_first (wanted type) (queued s q))

module _ (K : Kernel) where
  open K use {State, msgsnd, msgrcv, msgctl_rmid}

  -- `send_queue(msgid, p)`. The comparison is assigned to `result`.
  unfoldable pub send_queue : ℤ → Msg → State → Run (ℤ × State)
  send_queue q m s =
      let failed = eq_ℤ (msgsnd q m s).0 minus_one in
      if failed then exit (codes "msgsnd") else ok (truth failed, (msgsnd q m s).1)

  -- `rcv_queue(msgid, p, type)`; with no message of the type the call waits.
  unfoldable pub rcv_queue : ℤ → ℕ → State → Run (ℤ × Msg × State)
  rcv_queue q type s = elim (msgrcv q type s) [
    | none ↦ Run.waiting
    | some (r, m, s') ↦ and_then (check_minus_one (codes "msgrcv") r) (λ (n : ℤ). ok (n, m, s'))
  ]

  -- `remove_message(msgqid)`. The comparison is assigned to `rval`.
  unfoldable pub remove_message : ℤ → State → Run (ℤ × State)
  remove_message q s =
      let failed = is_neg (msgctl_rmid q s).0 in
      if failed then exit (codes "msgqid") else ok (truth failed, (msgctl_rmid q s).1)

  -- `destroy_queue()`.
  unfoldable pub destroy_queue : Queues → State → Run State
  unfolding remove_message
  destroy_queue qs s = and_then (remove_message qs.main_master s) (λ (a : ℤ × State).
      and_then (remove_message qs.master_child a.1)
        (λ (b : ℤ × State). and_then (remove_message qs.errors b.1) (λ (c : ℤ × State). ok c.1)))
