-- ===== src/Socket.antt =====
-- `MyTcpSocket::recvMsg` of Server/mytcpsocket.cpp: bytes arrive in chunks, and the loop cuts PDUs
-- from the buffer and hands each to `handlePDU`. The handler is a parameter of this file; it gets
-- the struct as it lies at the front of the buffer, with all that follows. The loop has fuel:
-- `none` means that it still runs.
pub mod Framing
pub mod Chunks
pub mod Endless
mod Tests
use youdge.Base.{
  ℕ, zero, suc, ◌+◌, ◌-◌, ◌^◌, Bool, true, false, not, List, [], ◌∷◌, ◌++◌, Option, none, some, Str,
  length, take, drop, ltb, leb, if◌then◌else◌, ◌>>=◌,
}
use youdge.Base.Int.{ℤ, pos, negsuc, ltb_ℤ}
use youdge.Pdu.{Pdu, sizeof_pdu, encode, cast}

-- `int(n)` of an unsigned 32-bit word.
unfoldable pub to_int : ℕ → ℤ
to_int n = if ltb n (2 ^ 31) then pos n else negsuc (2 ^ 32 - n - 1)

-- `buffer.remove(0, n)`: a count that is not positive removes nothing.
unfoldable pub remove_front : ℤ → Str → Str
remove_front (pos n) buffer = drop n buffer
remove_front (negsuc n) buffer = buffer

pub record Socket (S : Type 0) : Type 0 where
  pub buffer : Str
  pub state : S
  pub sent : Str

-- `sendMsg`: nothing for a null pointer, else the first `uiPDULen` bytes.
unfoldable pub send_msg : Option Pdu → Str → Str
send_msg none sent = sent
send_msg (some p) sent = sent ++ take p.pdu_len (encode p)

module _ {S : Type 0} (handle : S → Pdu → S × Option Pdu) where
  -- The body of the loop, behind its two tests.
  unfoldable pub take_frame : Socket S → Socket S
  take_frame s =
      let pdu = cast s.buffer in
      let (state, resp) = handle s.state pdu in
      record {
        buffer = remove_front (to_int pdu.pdu_len) s.buffer;
        state = state;
        sent = send_msg resp s.sent;
      }

  -- The loop runs on: a whole struct is there, and so is the length that it states.
  unfoldable pub has_frame : Socket S → Bool
  has_frame s =
      if leb sizeof_pdu (length s.buffer)
      then not (ltb_ℤ (pos (length s.buffer)) (to_int (cast s.buffer).pdu_len))
      else false

  unfoldable pub recv_loop : ℕ → Socket S → Option (Socket S)
  recv_loop zero s = none
  recv_loop (suc fuel) s = elim (has_frame s) [
    | true ↦ recv_loop fuel (take_frame s)
    | false ↦ some s
  ]

  unfoldable pub recv_msg : ℕ → Socket S → Str → Option (Socket S)
  recv_msg fuel s chunk = recv_loop fuel (record s { buffer = s.buffer ++ chunk })

  -- The chunks of one connection, in the order of arrival.
  unfoldable pub recv_all : ℕ → Socket S → List Str → Option (Socket S)
  recv_all fuel s [] = some s
  recv_all fuel s (chunk ∷ chunks) = do s' ← recv_msg fuel s chunk; recv_all fuel s' chunks
