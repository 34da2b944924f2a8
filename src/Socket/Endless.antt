-- ===== src/Socket/Endless.antt =====
-- Lengths on which the loop of `recvMsg` makes no progress.
use youdge.Base.{
  ℕ, zero, suc, ◌^◌, ◌≤◌, ◌<◌, ◌≡◌, refl, sym, ap, subst, ◌⊎◌, inl, inr, true, Option, none, length,
  arith,
}
use youdge.Pdu.{Pdu, u32}
use youdge.Socket.{Socket, to_int, remove_front, take_frame, has_frame, recv_loop}
use youdge.Socket.Framing.{cast_len}

module _ {S : Type 0} (handle : S → Pdu → S × Option Pdu) where
  stays :
      (s : Socket S)
      → 76 ≤ length s.buffer
      → (u32 s.buffer ≡ 0) ⊎ ((2 ^ 31 ≤ u32 s.buffer) × (u32 s.buffer < 2 ^ 32))
      → (has_frame handle s ≡ true) × ((take_frame handle s).buffer ≡ s.buffer)
  unfolding has_frame take_frame to_int remove_front
  stays s h (inl e) = ground (arith, cast_len s.buffer)
  stays s h (inr e) = ground (arith, cast_len s.buffer)

  -- A struct that states the length 0, or one of 2 ^ 31 or more, is handled again and again: the
  -- loop does not end, whatever the handler does.
  pub recv_loop-endless :
      (fuel : ℕ) (s : Socket S)
      → 76 ≤ length s.buffer
      → (u32 s.buffer ≡ 0) ⊎ ((2 ^ 31 ≤ u32 s.buffer) × (u32 s.buffer < 2 ^ 32))
      → recv_loop handle fuel s ≡ none
  unfolding recv_loop
  recv_loop-endless zero s h e = refl
  recv_loop-endless (suc fuel) s h e =
      let (more, same) = stays s h e in
      let next = take_frame handle s in
      let long : 76 ≤ length next.buffer = omega (arith, ap length same) in
      rw (more, recv_loop)
        (recv_loop-endless fuel next long
          (subst (λ b. (u32 b ≡ 0) ⊎ ((2 ^ 31 ≤ u32 b) × (u32 b < 2 ^ 32))) (sym same) e))
