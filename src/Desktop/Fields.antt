-- ===== src/Desktop/Fields.antt =====
-- The fields that the client writes into a PDU, and what the server reads there.
use mathlib.Core.List.{append_assoc, append-nil}
use youdge.Base.{
  ℕ, zero, suc, ◌+◌, ◌-◌, ◌%◌, ◌^◌, ◌<◌, ◌≤◌, ◌≡◌, refl, sym, ap, ◌∙◌, [], ◌∷◌, ◌++◌, some, Str,
  length, take, drop, length-append, arith,
}
use youdge.Pdu.{Pdu, zeros, mk_pdu}
use youdge.Pdu.Wire.{take-append, drop-append, length-zeros}
use youdge.Handlers.{cstr, overwrite, name_at}
use youdge.Handlers.Types.{MsgType}
use youdge.Desktop.{put_at, field, with_text}

-- A text has no zero byte.
abbrev pub IsText : Str → Type 0
IsText [] = Unit {0}
IsText (c ∷ l) = (0 < c) × IsText l

-- There are 31 bytes at least in memory behind any string's zero byte.
abbrev pub IsReadable : (Str → Str) → Type 0
IsReadable behind = (name : Str) → 31 ≤ length (behind name)

-- A name that leaves room for the zero byte in a field.
pub record IsName (name : Str) : Type 0 where
  pub text : IsText name
  pub short : length name < 32

pub drop_nil : (n : ℕ) → drop {A = ℕ} n [] ≡ []
drop_nil zero = refl
drop_nil (suc n) = refl

pub overwrite_lem :
    (bytes old : Str)
    → length bytes ≤ length old
    → overwrite bytes old ≡ bytes ++ drop (length bytes) old
unfolding overwrite
overwrite_lem [] old h = refl
overwrite_lem (b ∷ bytes) [] h = absurd (omega arith)
overwrite_lem (b ∷ bytes) (o ∷ old) h = ap (◌∷◌ b) (overwrite_lem bytes old (omega arith))

pub take-append_more :
    (m k : ℕ) (xs ys : Str) → m ≡ length xs + k → take m (xs ++ ys) ≡ xs ++ take k ys
take-append_more m k [] ys e = ap (λ n. take n ys) (omega (arith, e))
take-append_more zero k (x ∷ xs) ys e = absurd (omega (arith, e))
take-append_more (suc m) k (x ∷ xs) ys e =
    ap (◌∷◌ x) (take-append_more m k xs ys (omega (arith, e)))

pub length-drop : (n : ℕ) (l : Str) → length (drop n l) ≡ length l - n
length-drop zero l = omega arith
length-drop (suc n) [] = omega arith
length-drop (suc n) (x ∷ l) = omega (arith, length-drop n l)

pub length-take : (n : ℕ) (l : Str) → n ≤ length l → length (take n l) ≡ n
length-take zero l h = refl
length-take (suc n) [] h = absurd (omega arith)
length-take (suc n) (x ∷ l) h = ap suc (length-take n l (omega arith))

-- A write behind what was written before.
pub put_at-append :
    (n : ℕ) (xs bytes ys : Str)
    → length xs ≡ n
    → length bytes ≤ length ys
    → put_at n bytes (xs ++ ys) ≡ (xs ++ bytes) ++ drop (length bytes) ys
unfolding put_at
put_at-append n xs bytes ys e h =
    rw (take-append n xs ys e, drop-append n xs ys e)
      (ap (◌++◌ xs) (overwrite_lem bytes ys h)
        ∙ sym (append_assoc xs bytes (drop (length bytes) ys)))

pub put_at-zero :
    (bytes ys : Str)
    → length bytes ≤ length ys
    → put_at 0 bytes ys ≡ bytes ++ drop (length bytes) ys
unfolding put_at
put_at-zero bytes ys h = overwrite_lem bytes ys h

pub drop_all : (n : ℕ) (l : Str) → length l ≤ n → drop n l ≡ []
drop_all n [] h = drop_nil n
drop_all zero (x ∷ l) h = absurd (omega arith)
drop_all (suc n) (x ∷ l) h = drop_all n l (omega arith)

-- Two fields fill the parameters.
pub two_fields :
    (f g d : Str)
    → length f ≡ 32
    → length g ≡ 32
    → length d ≡ 64
    → put_at 32 g (put_at 0 f d) ≡ f ++ g
two_fields f g d hf hg hd =
    ap (put_at 32 g) (put_at-zero f d (omega (arith, hf, hd)))
    ∙ put_at-append 32 f g (drop (length f) d) hf
        (omega (arith, hf, hg, hd, length-drop (length f) d))
    ∙ ap (◌++◌ (f ++ g)) (
        drop_all (length g) (drop (length f) d)
          (omega (arith, hf, hg, hd, length-drop (length f) d)))
    ∙ append-nil (f ++ g)

pub cstr-append : (name r : Str) → IsText name → cstr (name ++ (0 ∷ r)) ≡ some name
unfolding cstr
cstr-append [] r h = refl
cstr-append (c ∷ name) r h = ground (arith, h.0, cstr-append name r h.1)

-- A field holds its name and a zero byte.
pub field_lem :
    (behind : Str → Str) (name : Str)
    → length name < 32
    → field behind name ≡ name ++ (0 ∷ take (31 - length name) (behind name))
unfolding field
field_lem behind name h =
    let k : ℕ = 31 - length name in take-append_more 32 (suc k) name (0 ∷ behind name) (omega arith)

pub length-field :
    (behind : Str → Str) (name : Str) → IsReadable behind → length (field behind name) ≡ 32
unfolding field
length-field behind name r =
    length-take 32 (name ++ (0 ∷ behind name))
      (omega (arith, length-append name (0 ∷ behind name), r name))

pub cstr-field :
    (behind : Str → Str) (name : Str) → IsName name → cstr (field behind name) ≡ some name
cstr-field behind name n = ap cstr (field_lem behind name n.short) ∙ cstr-append name _ n.text

-- What a PDU with two fields as its parameters tells the server.
pub name_at-first :
    (behind : Str → Str) (name g : Str) (p : Pdu)
    → IsReadable behind
    → IsName name
    → p.ca_data ≡ field behind name ++ g
    → name_at 0 p ≡ some name
name_at-first behind name g p r n e =
    ap (λ d. cstr (take 32 d)) e
    ∙ ap cstr (take-append 32 (field behind name) g (length-field behind name r))
    ∙ cstr-field behind name n

pub name_at-second :
    (behind : Str → Str) (name f : Str) (p : Pdu)
    → IsReadable behind
    → IsName name
    → length f ≡ 32
    → p.ca_data ≡ f ++ field behind name
    → name_at 32 p ≡ some name
name_at-second behind name f p r n hf e =
    ap (λ d. cstr (take 32 (drop 32 d))) e
    ∙ ap (λ d. cstr (take 32 d)) (drop-append 32 f (field behind name) hf)
    ∙ ap (λ d. cstr (take 32 d)) (sym (append-nil (field behind name)))
    ∙ ap cstr (take-append 32 (field behind name) [] (length-field behind name r))
    ∙ cstr-field behind name n

-- The message of a PDU with a text.
pub with_text-ca_msg :
    (type : MsgType) (text : Str)
    → length text < 2 ^ 31
    → (with_text type text).ca_msg ≡ text ++ (0 ∷ [])
unfolding with_text mk_pdu
with_text-ca_msg type text h =
    let n : (76 + (length text + 1)) % 2 ^ 32 - 76 ≡ length text + 1 = omega arith in
    rw n (
      put_at-zero text (zeros (length text + 1)) (omega (arith, length-zeros (length text + 1)))
      ∙ ap (◌++◌ text) (last_zero (length text)))
  where
    last_zero : (n : ℕ) → drop n (zeros (n + 1)) ≡ 0 ∷ []
    last_zero zero = refl
    last_zero (suc n) = let e : suc n + 1 ≡ suc (n + 1) = omega arith in rw e (last_zero n)
