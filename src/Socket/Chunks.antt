-- ===== src/Socket/Chunks.antt =====
-- However the network cuts the stream, the same PDUs are handled.
use mathlib.Core.List.{append_assoc, append-nil}
use youdge.Base.{
  ℕ, ◌+◌, ◌≤◌, ◌<◌, ◌≡◌, refl, sym, ap, subst, ◌∙◌, inl, inr, List, [], ◌∷◌, ◌++◌, Option, some,
  Str, length, length-append, arith, ◌>>=◌, ltb, Bool-cases,
}
use youdge.Pdu.{Pdu, u32, encode, IsFrame}
use youdge.Pdu.Wire.{length-encode, u32-encode}
use youdge.Socket.{recv_msg, recv_all}
use youdge.Socket.Framing.{
  IsPartial, AllFrames, AllReadFrame, encode_all, socket, deliver_all, deliver, recv_loop-frames,
}

-- The length word of a prefix that holds it.
u32-append : (b r : Str) → 4 ≤ length b → u32 (b ++ r) ≡ u32 b
unfolding u32
u32-append (a ∷ b ∷ c ∷ d ∷ l) r h = refl
u32-append (a ∷ b ∷ c ∷ []) r h = absurd (omega arith)
u32-append (a ∷ b ∷ []) r h = absurd (omega arith)
u32-append (a ∷ []) r h = absurd (omega arith)
u32-append [] r h = absurd (omega arith)

prefix-IsPartial : (b r : Str) → IsPartial (b ++ r) → IsPartial b
prefix-IsPartial b r h = elim (Bool-cases (ltb (length b) 76)) [
  | inl short ↦ inl (ground arith)
  | inr long ↦
      let four : 4 ≤ length b = ground arith in
      ground (arith, h, u32-append b r four, length-append b r)
]

-- A proper prefix of a frame is partial.
encode-IsPartial :
    (p : Pdu) (b r x : Str)
    → IsFrame p
    → b ++ r ≡ encode p ++ x
    → length b < length (encode p)
    → IsPartial b
encode-IsPartial p b r x f e h = elim (Bool-cases (ltb (length b) 76)) [
  | inl short ↦ inl (ground arith)
  | inr long ↦
      let four : 4 ≤ length b = ground arith in
      let len : u32 b ≡ p.pdu_len = sym (u32-append b r four) ∙ ap u32 e ∙ u32-encode p x f in
      inr (omega (arith, len, length-encode p f.params, f.total), omega (arith, len, f.small))
]

-- Cancelling a common front.
split_append :
    (b r e x : Str)
    → b ++ r ≡ e ++ x
    → length e ≤ length b
    → (b' : Str) × (b ≡ e ++ b') × (b' ++ r ≡ x)
split_append b r [] x eq h = (b, refl, eq)
split_append [] r (c ∷ e) x eq h = absurd (omega arith)
split_append (c' ∷ b) r (c ∷ e) x eq h =
    let (b', front, rest) = split_append b r e x (ground (arith, eq)) (omega arith) in
    (b', ground (arith, eq, front), rest)

-- A prefix of a stream of frames is some of the frames and a partial one.
record Cut (b r rest : Str) (pdus : List Pdu) : Type 0 where
  before : List Pdu
  after : List Pdu
  left : Str
  all : pdus ≡ before ++ after
  front : b ≡ encode_all before ++ left
  back : left ++ r ≡ encode_all after ++ rest
  partial : IsPartial left

cut :
    (pdus : List Pdu) (b r rest : Str)
    → AllFrames pdus
    → IsPartial rest
    → b ++ r ≡ encode_all pdus ++ rest
    → Cut b r rest pdus
unfolding encode_all
cut [] b r rest fs h e = record {
  before = [];
  after = [];
  left = b;
  all = refl;
  front = refl;
  back = e;
  partial = prefix-IsPartial b r (subst IsPartial (sym e) h);
}
cut (p ∷ ps) b r rest fs h e =
    let e' : b ++ r ≡ encode p ++ (encode_all ps ++ rest) =
      e ∙ append_assoc (encode p) (encode_all ps) rest in
    elim (Bool-cases (ltb (length b) (length (encode p)))) [
      | inl short ↦ record {
        before = [];
        after = p ∷ ps;
        left = b;
        all = refl;
        front = refl;
        back = e;
        partial = encode-IsPartial p b r _ fs.0 e' (ground arith);
      }
      | inr long ↦
          let (b', front, back) = split_append b r (encode p) _ e' (ground arith) in
          let c = cut ps b' r rest fs.1 h back in
          record {
            before = p ∷ c.before;
            after = c.after;
            left = c.left;
            all = ap (◌∷◌ p) c.all;
            front =
                front
                ∙ ap (λ x. encode p ++ x) c.front
                ∙ sym (append_assoc (encode p) (encode_all c.before) c.left);
            back = c.back;
            partial = c.partial;
          }
    ]

abbrev pub concat : List Str → Str
concat [] = []
concat (chunk ∷ chunks) = chunk ++ concat chunks

not-IsPartial : (p : Pdu) (x : Str) → IsFrame p → ¬ IsPartial (encode p ++ x)
not-IsPartial p x f h =
    ground
      (arith, h, length-append (encode p) x, length-encode p f.params, u32-encode p x f, f.total)

AllFrames-append : (ps qs : List Pdu) → AllFrames (ps ++ qs) → AllFrames ps × AllFrames qs
AllFrames-append [] qs h = (tt, h)
AllFrames-append (p ∷ ps) qs h = let (a, b) = AllFrames-append ps qs h.1 in ((h.0, a), b)

module _ {S : Type 0} (handle : S → Pdu → S × Option Pdu) where
  AllReadFrame-append :
      (ps qs : List Pdu)
      → AllReadFrame handle (ps ++ qs)
      → AllReadFrame handle ps × AllReadFrame handle qs
  AllReadFrame-append [] qs h = (tt, h)
  AllReadFrame-append (p ∷ ps) qs h = let (a, b) = AllReadFrame-append ps qs h.1 in ((h.0, a), b)

  deliver_all-append :
      (ps qs : List Pdu) (r : S × Str)
      → deliver_all handle (ps ++ qs) r ≡ deliver_all handle qs (deliver_all handle ps r)
  unfolding deliver_all
  deliver_all-append [] qs r = refl
  deliver_all-append (p ∷ ps) qs r = deliver_all-append ps qs (deliver handle p r)

  -- `recvMsg` reassembles the stream: if the handler reads no byte behind the frames, then from a
  -- buffer with a partial frame, and for any cut of the frames' bytes (and a last partial frame)
  -- into chunks, each PDU is handled once and in order, and the last partial frame is kept. One
  -- round for each PDU and one more are fuel enough.
  pub recv_all-concat :
      (chunks : List Str) (pdus : List Pdu) (fuel : ℕ) (b rest sent : Str) (state : S)
      → AllFrames pdus
      → AllReadFrame handle pdus
      → IsPartial b
      → IsPartial rest
      → b ++ concat chunks ≡ encode_all pdus ++ rest
      → length pdus < fuel
      → recv_all handle fuel (socket handle b state sent) chunks
        ≡ some (
            socket handle rest
              (deliver_all handle pdus (state, sent)).0
              (deliver_all handle pdus (state, sent)).1)
  unfolding recv_all recv_msg deliver_all encode_all
  recv_all-concat [] [] fuel b rest sent state fs rs hb hr e h =
      ap (λ x. some (socket handle x state sent)) (sym (append-nil b) ∙ e)
  recv_all-concat [] (p ∷ ps) fuel b rest sent state fs rs hb hr e h = absurd (
      not-IsPartial p (encode_all ps ++ rest) fs.0 (
        subst IsPartial (sym (append-nil b) ∙ e ∙ append_assoc (encode p) (encode_all ps) rest) hb))
  recv_all-concat (chunk ∷ chunks) pdus fuel b rest sent state fs rs hb hr e h =
      let c =
        cut pdus (b ++ chunk) (concat chunks) rest fs hr
          (append_assoc b chunk (concat chunks) ∙ e) in
      let (one, two) = AllFrames-append c.before c.after (subst AllFrames c.all fs) in
      let (reads, later) =
        AllReadFrame-append c.before c.after (subst (AllReadFrame handle) c.all rs) in
      let count : length pdus ≡ length c.before + length c.after =
        ap length c.all ∙ length-append c.before c.after in
      rw
        (
          c.front,
          recv_loop-frames handle c.before fuel c.left sent state one reads c.partial
              (omega (arith, count)),
          ◌>>=◌,
        )
        (recv_all-concat chunks c.after fuel c.left rest _ _ two later c.partial hr c.back
            (omega (arith, count))
          ∙ ap (λ (r : S × Str). some (socket handle rest r.0 r.1))
              (sym (deliver_all-append c.before c.after (state, sent))
                ∙ ap (λ ps. deliver_all handle ps (state, sent)) (sym c.all)))
