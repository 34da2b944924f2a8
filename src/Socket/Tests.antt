-- ===== src/Socket/Tests.antt =====
-- Runs of the receive loop, and its theorems at concrete streams.
use youdge.Base.{ℕ, ◌+◌, ◌≡◌, refl, inl, [], ◌∷◌, ◌++◌, Option, none, some, Str, take, drop, arith}
use youdge.Pdu.{Pdu, zeros, mk_pdu, le32, u32, encode, cast}
use youdge.Pdu.Wire.{mk_pdu-IsFrame}
use youdge.Socket.{
  Socket, to_int, remove_front, send_msg, take_frame, has_frame, recv_loop, recv_msg, recv_all,
}
use youdge.Socket.Framing.{encode_all, socket, deliver, deliver_all}
use youdge.Socket.Chunks.{recv_all-concat}
use youdge.Socket.Endless.{recv_loop-endless}

-- Counts the PDUs, and answers each with the next message type.
abbrev count : ℕ → Pdu → ℕ × Option Pdu
count n p = (n + 1, some (mk_pdu (p.msg_type + 1) 0))

abbrev login : Pdu
login = mk_pdu 3 0

abbrev stream : Str
stream = encode login ++ encode login

computed : Unit {0}
unfolding mk_pdu le32 u32 encode cast to_int remove_front send_msg take_frame has_frame recv_loop
    recv_msg recv_all encode_all deliver deliver_all
computed = tt

abbrev handled : Option (Socket ℕ) → Option ℕ
handled none = none
handled (some s) = some s.state

two_in_three :
    handled (
      recv_all count 4
        (socket count [] 0 [])
        (take 20 stream ∷ take 100 (drop 20 stream) ∷ drop 120 stream ∷ []))
    ≡ some 2
unfolding computed
two_in_three = refl

recv_all-concat_example :
    recv_all count 4 (socket count [] 0 []) (take 20 (encode login) ∷ drop 20 (encode login) ∷ [])
    ≡ some (
        socket count []
          (deliver_all count (login ∷ []) (0, [])).0
          (deliver_all count (login ∷ []) (0, [])).1)
unfolding mk_pdu le32 encode encode_all
recv_all-concat_example =
    recv_all-concat count (take 20 (encode login) ∷ drop 20 (encode login) ∷ []) (login ∷ []) 4 []
      [] [] 0 (mk_pdu-IsFrame 3 0 (omega arith) (omega arith), tt) ((λ state rest. refl), tt)
      (inl (omega arith)) (inl (omega arith)) refl (omega arith)

recv_loop-endless_example : recv_loop count 5 (socket count (zeros 80) 0 []) ≡ none
unfolding u32
recv_loop-endless_example =
    recv_loop-endless count 5 (socket count (zeros 80) 0 []) (omega arith) (inl refl)
