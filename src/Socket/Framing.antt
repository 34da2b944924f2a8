-- ===== src/Socket/Framing.antt =====
-- The loop of `recvMsg` on a buffer of whole frames and the start of another.
use mathlib.Core.List.{append_assoc}
use youdge.Base.{
  ℕ, zero, suc, ◌^◌, ◌<◌, ◌≡◌, refl, ap, ◌∙◌, ◌⊎◌, inl, inr, true, false, List, [], ◌∷◌, ◌++◌,
  Option, some, Str, length, length-append, arith,
}
use youdge.Base.Int.{pos}
use youdge.Pdu.{Pdu, u32, encode, cast, IsFrame}
use youdge.Pdu.Wire.{length-encode, cast-encode, drop-append}
use youdge.Socket.{Socket, to_int, remove_front, send_msg, take_frame, has_frame, recv_loop}

-- Less than a struct, or less than the length that the struct states.
abbrev pub IsPartial : Str → Type 0
IsPartial b = (length b < 76) ⊎ ((length b < u32 b) × (u32 b < 2 ^ 31))

abbrev pub AllFrames : List Pdu → Type 0
AllFrames [] = Unit {0}
AllFrames (p ∷ ps) = IsFrame p × AllFrames ps

-- The bytes of PDUs that are sent one after the other.
unfoldable pub encode_all : List Pdu → Str
encode_all [] = []
encode_all (p ∷ ps) = encode p ++ encode_all ps

-- The buffer's front states its length.
pub cast_len : (b : Str) → (cast b).pdu_len ≡ u32 b
unfolding cast
cast_len b = refl

to_int_small : (n : ℕ) → n < 2 ^ 31 → to_int n ≡ pos n
unfolding to_int
to_int_small n h = ground arith

module _ {S : Type 0} (handle : S → Pdu → S × Option Pdu) where
  abbrev pub socket : Str → S → Str → Socket S
  socket b state sent = record { buffer = b; state = state; sent = sent }

  -- The loop waits on a partial frame.
  pub has_frame-IsPartial : (s : Socket S) → IsPartial s.buffer → has_frame handle s ≡ false
  unfolding has_frame to_int
  has_frame-IsPartial s (inl h) = ground (arith, cast_len s.buffer)
  has_frame-IsPartial s (inr h) = ground (arith, cast_len s.buffer)

  frame_len : (p : Pdu) (rest : Str) → IsFrame p → (cast (encode p ++ rest)).pdu_len ≡ p.pdu_len
  frame_len p rest f = ap (λ (q : Pdu). q.pdu_len) (cast-encode p rest f)

  has_frame-encode :
      (p : Pdu) (rest sent : Str) (state : S)
      → IsFrame p
      → has_frame handle (socket (encode p ++ rest) state sent) ≡ true
  unfolding has_frame to_int
  has_frame-encode p rest sent state f = ground (
    arith,
    frame_len p rest f,
    length-append (encode p) rest,
    length-encode p f.params,
    f.total,
    f.small,
  )

  remove_frame :
      (p : Pdu) (rest : Str) → IsFrame p → remove_front (to_int p.pdu_len) (encode p ++ rest) ≡ rest
  unfolding remove_front
  remove_frame p rest f =
      ap (λ z. remove_front z (encode p ++ rest)) (to_int_small p.pdu_len f.small)
      ∙ drop-append p.pdu_len (encode p) rest (omega (arith, length-encode p f.params, f.total))

  -- What handling a PDU does to the handler's state and to what has been sent.
  unfoldable pub deliver : Pdu → S × Str → S × Str
  deliver p (state, sent) = let (state', resp) = handle state p in (state', send_msg resp sent)

  unfoldable pub deliver_all : List Pdu → S × Str → S × Str
  deliver_all [] r = r
  deliver_all (p ∷ ps) r = deliver_all ps (deliver p r)

  -- The handler reads no byte behind this frame.
  abbrev pub ReadsFrame : Pdu → Type 0
  ReadsFrame p =
      (state : S) (rest : Str)
      → handle state (record p { ca_msg = p.ca_msg ++ rest }) ≡ handle state p

  abbrev pub AllReadFrame : List Pdu → Type 0
  AllReadFrame [] = Unit {0}
  AllReadFrame (p ∷ ps) = ReadsFrame p × AllReadFrame ps

  take_frame-encode :
      (p : Pdu) (rest sent : Str) (state : S)
      → IsFrame p
      → ReadsFrame p
      → take_frame handle (socket (encode p ++ rest) state sent)
        ≡ socket rest (deliver p (state, sent)).0 (deliver p (state, sent)).1
  unfolding take_frame deliver
  take_frame-encode p rest sent state f reads =
      let read : handle state (cast (encode p ++ rest)) ≡ handle state p =
        ap (handle state) (cast-encode p rest f) ∙ reads state rest in
      let left : remove_front (to_int (cast (encode p ++ rest)).pdu_len) (encode p ++ rest) ≡ rest =
        ap (λ n. remove_front (to_int n) (encode p ++ rest)) (frame_len p rest f)
        ∙ remove_frame p rest f in
      λ i. record { buffer = left i; state = (read i).0; sent = send_msg (read i).1 sent }

  -- The frames are handled in order, each once, and the partial frame stays in the buffer.
  pub recv_loop-frames :
      (pdus : List Pdu) (fuel : ℕ) (rest sent : Str) (state : S)
      → AllFrames pdus
      → AllReadFrame pdus
      → IsPartial rest
      → length pdus < fuel
      → recv_loop handle fuel (socket (encode_all pdus ++ rest) state sent)
        ≡ some (socket rest (deliver_all pdus (state, sent)).0 (deliver_all pdus (state, sent)).1)
  unfolding recv_loop encode_all deliver_all
  recv_loop-frames pdus zero rest sent state fs rs partial h = absurd (omega arith)
  recv_loop-frames [] (suc fuel) rest sent state fs rs partial h =
      rw (has_frame-IsPartial (socket rest state sent) partial, recv_loop) refl
  recv_loop-frames (p ∷ ps) (suc fuel) rest sent state fs rs partial h =
      rw (append_assoc (encode p) (encode_all ps) rest) (
        rw (has_frame-encode p (encode_all ps ++ rest) sent state fs.0, recv_loop)
          (rw (take_frame-encode p (encode_all ps ++ rest) sent state fs.0 rs.0)
            (recv_loop-frames ps fuel rest _ _ fs.1 rs.1 partial (omega arith))))
