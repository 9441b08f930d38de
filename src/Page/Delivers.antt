-- ===== src/Page/Delivers.antt =====
-- What an action puts on the wire of a connection whose kernel buffer takes every line whole.
use http_callback_serve_vers.Base.{
  ℕ, zero, suc, ◌+◌, ◌-◌, ◌≤◌, ◌<◌, Bool, false, List, [], ◌∷◌, ◌++◌, ◌≡◌, refl, ◌∙◌, arith, min,
  Bytes, length, take, drop, All, length-drop, ok, pos, append_assoc, take-length, drop-drop, ◌==◌,
}
use http_callback_serve_vers.Io.{
  Errno, SendAnswer, room, Conn, conn, write_loop, retry_send, http_send, send_once,
}
use http_callback_serve_vers.Io.Send.{int_of_size-pos}
use http_callback_serve_vers.Page.{Action, ◌>>◌, say, say_once}

-- Each answer has room for `b` bytes.
abbrev pub HasRoom : ℕ → SendAnswer → Type 0
HasRoom b (room k) = b ≤ k
HasRoom b (SendAnswer.failed e) = ⊥

abbrev pub Roomy : ℕ → List SendAnswer → Type 0
Roomy b = All (HasRoom b)

pub drop-Roomy : (n b : ℕ) (answers : List SendAnswer) → Roomy b answers → Roomy b (drop n answers)
drop-Roomy zero b answers h = h
drop-Roomy (suc n) b [] h = h
drop-Roomy (suc n) b (a ∷ answers) h = drop-Roomy n b answers h.1

-- On a connection whose answers each have room for `b` bytes, the action takes `n` of them and puts
-- exactly the text on the wire.
abbrev pub Delivers : ℕ → Action → ℕ → Bytes → Type 0
Delivers b m n text =
    (c : Conn)
    → Roomy b c.answers
    → n ≤ length c.answers
    → m c ≡ ok (conn (drop n c.answers) (c.wire ++ text))

module _ {b : ℕ} {m k : Action} {n j : ℕ} {s t : Bytes} where
  pub >>-Delivers : Delivers b m n s → Delivers b k j t → Delivers b (m >> k) (n + j) (s ++ t)
  >>-Delivers first second c roomy enough =
      let step = first c roomy (omega arith) in
      let rest = drop n c.answers in
      let next =
        second (conn rest (c.wire ++ s)) (drop-Roomy n b c.answers roomy)
          (omega (arith, length-drop n c.answers)) in
      rw step (next ∙ rw (drop-drop n j c.answers, append_assoc c.wire s t))

take-min : (k : ℕ) (line : Bytes) → length line ≤ k → take (min k (length line)) line ≡ line
take-min k line h = take-length line (min k (length line)) (omega arith)

-- The proof is by the answers that the connection has.
say_once_at :
    (b : ℕ) (line : Bytes) (answers : List SendAnswer) (wire : Bytes)
    → length line ≤ b
    → Roomy b answers
    → 1 ≤ length answers
    → say_once line (conn answers wire) ≡ ok (conn (drop 1 answers) (wire ++ line))
unfolding say_once send_once
say_once_at b line [] wire fits roomy enough = absurd (omega arith)
say_once_at b line (SendAnswer.failed e ∷ answers) wire fits roomy enough = absurd roomy.0
say_once_at b line (room k ∷ answers) wire fits roomy enough =
    rw (take-min k line (omega (arith, roomy.0)))

pub say_once-Delivers : (b : ℕ) (line : Bytes) → length line ≤ b → Delivers b (say_once line) 1 line
say_once-Delivers b line fits c roomy enough = say_once_at b line c.answers c.wire fits roomy enough

-- One answer with room is enough for a loop that has something to write.
pub write_loop_whole :
    (again : Errno → Bool) (n k : ℕ) (line : Bytes) (answers : List SendAnswer) (wire : Bytes)
    → length line ≡ suc n
    → suc n ≤ k
    → write_loop again (suc n) line 0 (room k ∷ answers) wire
      ≡ ok (pos (suc n), conn answers (wire ++ line))
unfolding write_loop
write_loop_whole again n k line answers wire e h =
    let m : min k (suc n) ≡ suc n = omega arith in
    let some_room : (suc n == 0) ≡ false = ground arith in
    let none_left : suc n - suc n ≡ 0 = omega arith in
    let all : 0 + suc n ≡ suc n = omega arith in
    rw (m, some_room, none_left, all, take-length line (suc n) (omega arith))

pub http_send_at :
    (len b : ℕ) (line : Bytes) (answers : List SendAnswer) (wire : Bytes)
    → length line ≡ len
    → 0 < len
    → len ≤ b
    → b < 0x8000_0000
    → Roomy b answers
    → 1 ≤ length answers
    → http_send len line (conn answers wire) ≡ ok (pos len, conn (drop 1 answers) (wire ++ line))
unfolding http_send
http_send_at zero b line answers wire e some fits small roomy enough = absurd (omega arith)
http_send_at (suc n) b line [] wire e some fits small roomy enough = absurd (omega arith)
http_send_at (suc n) b line (SendAnswer.failed x ∷ answers) wire e some fits small roomy enough =
    absurd roomy.0
http_send_at (suc n) b line (room k ∷ answers) wire e some fits small roomy enough =
    rw (int_of_size-pos (suc n) (omega arith))
      (write_loop_whole retry_send n k line answers wire e (omega (arith, roomy.0)))

pub say-Delivers :
    (b : ℕ) (line : Bytes)
    → 0 < length line
    → (length line ≤ b) × (b < 0x8000_0000)
    → Delivers b (say line) 1 line
unfolding say
say-Delivers b line some (fits, small) c roomy enough =
    rw (http_send_at (length line) b line c.answers c.wire refl some fits small roomy enough)
