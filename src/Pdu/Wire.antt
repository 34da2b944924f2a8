-- ===== src/Pdu/Wire.antt =====
-- The bytes of a PDU and back.
use youdge.Base.{
  ℕ, zero, suc, ◌+◌, ◌-◌, ◌%◌, ◌^◌, ◌<◌, ◌≡◌, refl, ap, ◌∙◌, List, [], ◌∷◌, ◌++◌, Str, length, take,
  drop, length-append, arith,
}
use mathlib.Core.List.{append_assoc}
use youdge.Pdu.{Pdu, zeros, mk_pdu, le32, u32, encode, cast, IsFrame}

pub u32-le32 : (n : ℕ) (r : Str) → n < 2 ^ 32 → u32 (le32 n ++ r) ≡ n
unfolding u32 le32
u32-le32 n r h = omega arith

pub length-encode : (p : Pdu) → length p.ca_data ≡ 64 → length (encode p) ≡ 76 + length p.ca_msg
unfolding encode le32
length-encode p h = omega (arith, length-append p.ca_data p.ca_msg)

pub take-append {ℓ} : {A : Type ℓ} (n : ℕ) (xs ys : List A) → length xs ≡ n → take n (xs ++ ys) ≡ xs
take-append zero [] ys h = refl
take-append zero (x ∷ xs) ys h = absurd (omega arith)
take-append (suc n) [] ys h = absurd (omega arith)
take-append (suc n) (x ∷ xs) ys h = ap (◌∷◌ x) (take-append n xs ys (omega arith))

pub drop-append {ℓ} : {A : Type ℓ} (n : ℕ) (xs ys : List A) → length xs ≡ n → drop n (xs ++ ys) ≡ ys
drop-append zero [] ys h = refl
drop-append zero (x ∷ xs) ys h = absurd (omega arith)
drop-append (suc n) [] ys h = absurd (omega arith)
drop-append (suc n) (x ∷ xs) ys h = drop-append n xs ys (omega arith)

-- Reading back what a sender writes, with whatever follows it in the buffer: the fields are the
-- sender's, and the message is followed by the rest.
pub cast-encode :
    (p : Pdu) (rest : Str)
    → IsFrame p
    → cast (encode p ++ rest) ≡ record p { ca_msg = p.ca_msg ++ rest }
unfolding cast encode le32
cast-encode p rest f =
    let body : (p.ca_data ++ p.ca_msg) ++ rest ≡ p.ca_data ++ (p.ca_msg ++ rest) =
      append_assoc p.ca_data p.ca_msg rest in
    let small : p.pdu_len < 2 ^ 32 = omega (arith, f.small) in
    let short : p.msg_len < 2 ^ 32 = omega (arith, f.small, f.total, f.message) in
    let len =
      u32-le32 p.pdu_len (le32 p.msg_len ++ (le32 p.msg_type ++ ((p.ca_data ++ p.ca_msg) ++ rest)))
        small in
    let msg = u32-le32 p.msg_len (le32 p.msg_type ++ ((p.ca_data ++ p.ca_msg) ++ rest)) short in
    let type = u32-le32 p.msg_type ((p.ca_data ++ p.ca_msg) ++ rest) f.typed in
    let params = ap (take 64) body ∙ take-append 64 p.ca_data (p.ca_msg ++ rest) f.params in
    let message = ap (drop 64) body ∙ drop-append 64 p.ca_data (p.ca_msg ++ rest) f.params in
    λ i. record {
      pdu_len = len i;
      msg_len = msg i;
      msg_type = type i;
      ca_data = params i;
      ca_msg = message i;
    }

pub length-zeros : (n : ℕ) → length (zeros n) ≡ n
length-zeros zero = refl
length-zeros (suc n) = ap suc (length-zeros n)

-- What `mkPDU` builds is a frame as long as the sum does not reach 2 ^ 31.
pub mk_pdu-IsFrame :
    (msg_type msg_len : ℕ)
    → msg_type < 2 ^ 32
    → msg_len + 76 < 2 ^ 31
    → IsFrame (mk_pdu msg_type msg_len)
unfolding mk_pdu
mk_pdu-IsFrame msg_type msg_len t h = record {
  params = length-zeros 64;
  total = omega (arith, length-zeros ((76 + msg_len) % 2 ^ 32 - 76));
  message = omega (arith, length-zeros ((76 + msg_len) % 2 ^ 32 - 76));
  small = omega arith;
  typed = t;
}

-- The length that a frame states.
pub u32-encode : (p : Pdu) (rest : Str) → IsFrame p → u32 (encode p ++ rest) ≡ p.pdu_len
unfolding cast
u32-encode p rest f = ap (λ (q : Pdu). q.pdu_len) (cast-encode p rest f)
