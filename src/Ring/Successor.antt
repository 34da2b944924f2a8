-- ===== src/Ring/Successor.antt =====
-- The place on the ring that `Get` finds, against the clockwise order from a hash.
use youdge.Base.{
  ℕ, ◌≤◌, ◌<◌, ◌≡◌, ap, ◌∙◌, Bool, true, false, not, ◌||◌, List, [], ◌∷◌, none, some, arith, leb,
  if◌then◌else◌, Bool-cases, Option-cases, inl, inr,
}
use youdge.Ring.{remove_hash, insert_sorted, sort, lower_bound, ring_position}
use youdge.Ring.Members.{mem}

-- The ring is in ascending order; a hash may stand more than once.
abbrev AtMost : ℕ → List ℕ → Type 0
AtMost k [] = Unit {0}
AtMost k (j ∷ l) = (k ≤ j) × AtMost k l

abbrev pub IsSorted : List ℕ → Type 0
IsSorted [] = Unit {0}
IsSorted (k ∷ l) = AtMost k l × IsSorted l

AtMost-mono : (i k : ℕ) (l : List ℕ) → i ≤ k → AtMost k l → AtMost i l
AtMost-mono i k [] h a = tt
AtMost-mono i k (j ∷ l) h a = (omega arith, AtMost-mono i k l h a.1)

AtMost-insert : (i k : ℕ) (l : List ℕ) → i ≤ k → AtMost i l → AtMost i (insert_sorted k l)
unfolding insert_sorted
AtMost-insert i k [] h a = (h, tt)
AtMost-insert i k (j ∷ l) h a = ground (arith, AtMost-insert i k l h a.1)

insert-IsSorted : (k : ℕ) (l : List ℕ) → IsSorted l → IsSorted (insert_sorted k l)
unfolding insert_sorted
insert-IsSorted k [] s = (tt, tt)
insert-IsSorted k (j ∷ l) s =
    ground (arith, insert-IsSorted k l s.1, AtMost-mono k j l, AtMost-insert j k l)

pub sort-IsSorted : (l : List ℕ) → IsSorted (sort l)
unfolding sort
sort-IsSorted [] = tt
sort-IsSorted (k ∷ l) = insert-IsSorted k (sort l) (sort-IsSorted l)

-- Clockwise from `h` around the ring, `x` comes no later than `y`.
unfoldable pub before : ℕ → ℕ → ℕ → Bool
before h x y =
    if leb h x then (if leb h y then leb x y else true) else (if leb h y then false else leb x y)

pub before_antisymm : (h x y : ℕ) → before h x y ≡ true → before h y x ≡ true → x ≡ y
unfolding before
before_antisymm h x y p q = ground arith

-- The first hash of the ring clockwise from `h`.
pub record IsFirst (h : ℕ) (keys : List ℕ) (x : ℕ) : Type 0 where
  pub member : mem x keys ≡ true
  pub first : (y : ℕ) → (not (mem y keys) || before h x y) ≡ true

AtMost-mem : (k y : ℕ) (l : List ℕ) → AtMost k l → mem y l ≡ true → k ≤ y
unfolding mem
AtMost-mem k y [] a m = absurd (ground arith)
AtMost-mem k y (j ∷ l) a m = ground (arith, AtMost-mem k y l a.1)

lower_bound-some :
    (h x : ℕ) (l : List ℕ) → IsSorted l → lower_bound h l ≡ some x → (h ≤ x) × IsFirst h l x
unfolding lower_bound mem before
lower_bound-some h x [] s e = cc
lower_bound-some h x (k ∷ l) s e = elim (Bool-cases (leb h k)) [
  | inl here ↦
      let p : k ≡ x = ground arith in
      (
        ground arith,
        record { member = ground arith; first = λ y. ground (arith, AtMost-mem k y l s.0) },
      )
  | inr there ↦
      let ih = lower_bound-some h x l s.1 (ground arith) in
      (
        ih.0,
        record {
          member = ground (arith, ih.1.member);
          first = λ y. ground (arith, ih.1.first y, ih.0);
        },
      )
]

lower_bound-none : (h y : ℕ) (l : List ℕ) → lower_bound h l ≡ none → mem y l ≡ true → y < h
unfolding lower_bound mem
lower_bound-none h y [] e m = absurd (ground arith)
lower_bound-none h y (k ∷ l) e m = ground (arith, lower_bound-none h y l)

-- `Get` stops at the first hash clockwise.
pub ring_position-IsFirst :
    (h x : ℕ) (keys : List ℕ) → IsSorted keys → ring_position h keys ≡ some x → IsFirst h keys x
unfolding ring_position mem before
ring_position-IsFirst h x [] s e = cc
ring_position-IsFirst h x (k ∷ l) s e = elim (Option-cases (lower_bound h (k ∷ l))) [
  | inl past ↦
      let p : k ≡ x = ground (arith, past, e) in
      record {
        member = ground arith;
        first = λ y. ground (
          arith,
          AtMost-mem k y l s.0,
          lower_bound-none h y (k ∷ l) past,
          lower_bound-none h k (k ∷ l) past,
        );
      }
  | inr (j, found) ↦
      let p : j ≡ x = ground (arith, found, e) in
      (lower_bound-some h x (k ∷ l) s (found ∙ ap some p)).1
]

-- On a ring that is not empty it stops somewhere, and nowhere on an empty one.
pub ring_position-cons : (h k : ℕ) (l : List ℕ) → (x : ℕ) × (ring_position h (k ∷ l) ≡ some x)
unfolding ring_position
ring_position-cons h k l = elim (Option-cases (lower_bound h (k ∷ l))) [
  | inl past ↦ (k, ground arith)
  | inr (j, found) ↦ (j, ground arith)
]

-- Two hashes that are first among the same members are one.
pub IsFirst-unique :
    (h x y : ℕ) (k l : List ℕ)
    → IsFirst h k x
    → IsFirst h l y
    → mem y k ≡ true
    → mem x l ≡ true
    → x ≡ y
IsFirst-unique h x y k l p q m n =
    before_antisymm h x y (ground (arith, p.first y)) (ground (arith, q.first x))

AtMost-remove_hash : (i k : ℕ) (l : List ℕ) → AtMost i l → AtMost i (remove_hash k l)
unfolding remove_hash
AtMost-remove_hash i k [] a = tt
AtMost-remove_hash i k (j ∷ l) a = ground (arith, AtMost-remove_hash i k l a.1)

pub remove_hash-IsSorted : (k : ℕ) (l : List ℕ) → IsSorted l → IsSorted (remove_hash k l)
unfolding remove_hash
remove_hash-IsSorted k [] s = tt
remove_hash-IsSorted k (j ∷ l) s =
    ground (arith, remove_hash-IsSorted k l s.1, AtMost-remove_hash j k l s.0)
