-- ===== src/Lru/Nodes.antt =====
-- Lemmas on the linked list of the LRU cache and on its iterators.
use youdge.Base.{
  ℕ, ◌+◌, ◌≤◌, ◌<◌, ◌≡◌, refl, List, [], ◌∷◌, map, Option, none, some, ite, if_pos, if_neg,
  ℕ_discrete, Str, str_dec, arith,
}
use youdge.Lru.{ByteView, Entry, Node, size, deref, erase_node}

-- The iterator of the first node with the key.
unfoldable pub index : Str → List Node → Option ℕ
index k [] = none
index k ((i, e) ∷ l) = ite (str_dec e.key_ k) (some i) (index k l)

-- Iterators fall along the list and stay under the bound.
abbrev pub Below : ℕ → List Node → Type 0
Below n [] = Unit {0}
Below n ((i, e) ∷ l) = (i < n) × Below i l

-- No key stands in two nodes.
abbrev pub IsKeyed : List Node → Type 0
IsKeyed [] = Unit {0}
IsKeyed ((i, e) ∷ l) = (index e.key_ l ≡ none) × IsKeyed l

abbrev pub total : List Node → ℕ
total [] = 0
total ((i, e) ∷ l) = size e + total l

-- What a client can see of the list.
abbrev pub entries : List Node → List Entry
entries = map (λ n. n.1)

-- Drops the first entry with the key.
unfoldable pub remove : Str → List Entry → List Entry
remove k [] = []
remove k (e ∷ l) = ite (str_dec e.key_ k) l (e ∷ remove k l)

unfoldable pub lookup : Str → List Entry → Option ByteView
lookup k [] = none
lookup k (e ∷ l) = ite (str_dec e.key_ k) (some e.value_) (lookup k l)

pub Below-mono : (m n : ℕ) (l : List Node) → m ≤ n → Below m l → Below n l
Below-mono m n [] h b = tt
Below-mono m n ((i, e) ∷ l) h b = (omega arith, b.1)

pub Below-erase : (it n : ℕ) (l : List Node) → Below n l → Below n (erase_node it l)
unfolding erase_node
Below-erase it n [] b = tt
Below-erase it n ((i, e) ∷ l) b =
    ground (arith, Below-erase it i l b.1, Below-mono i n l (omega arith) b.1)

pub index-lt : (k : Str) (n i : ℕ) (l : List Node) → Below n l → index k l ≡ some i → i < n
unfolding index
index-lt k n i [] b h = cc
index-lt k n i ((j, e) ∷ l) b h = ground (arith, index-lt k j i l b.1)

-- An iterator that `index` finds leads to a node, and what is left of the list has lost the key.
module _ (k : Str) where
  pub deref-index :
      (n i : ℕ) (l : List Node)
      → Below n l
      → index k l ≡ some i
      → (e : Entry) × (deref i l ≡ some e)
        × (e.key_ ≡ k)
        × (lookup k (entries l) ≡ some e.value_)
        × (entries (erase_node i l) ≡ remove k (entries l))
        × (total (erase_node i l) + size e ≡ total l)
  unfolding index deref erase_node remove lookup
  deref-index n i [] b h = cc
  deref-index n i ((j, e) ∷ l) b h = elim (str_dec e.key_ k) [
    | yes p ↦
        let here : j ≡ i = ground arith in
        (e, rw (if_pos _ here), p, rw (if_pos _ p), ground arith, rw (if_pos _ here) (omega arith))
    | no p ↦
        let there : index k l ≡ some i = ground arith in
        let (f, found, key, value, rest, sum) = deref-index j i l b.1 there in
        let other : ¬ (j ≡ i) = λ q. omega (arith, index-lt k j i l b.1 there) in
        (
          f,
          rw (if_neg _ other) found,
          key,
          rw (if_neg _ p) value,
          rw (if_neg (ℕ_discrete j i) other, if_neg (str_dec e.key_ k) p, rest) refl,
          rw (if_neg (ℕ_discrete j i) other) (omega arith),
        )
  ]

  pub index-erase :
      (q : Str) (n i : ℕ) (l : List Node)
      → Below n l
      → IsKeyed l
      → index k l ≡ some i
      → index q (erase_node i l) ≡ ite (str_dec k q) none (index q l)
  unfolding index erase_node
  index-erase q n i [] b u h = cc
  index-erase q n i ((j, e) ∷ l) b u h =
      ground (arith, index-erase q j i l b.1 u.1, index-lt k j i l b.1)

  pub IsKeyed-erase :
      (n i : ℕ) (l : List Node)
      → Below n l
      → IsKeyed l
      → index k l ≡ some i
      → IsKeyed (erase_node i l)
  unfolding index erase_node
  IsKeyed-erase n i [] b u h = cc
  IsKeyed-erase n i ((j, e) ∷ l) b u h =
      ground
        (arith, IsKeyed-erase j i l b.1 u.1, index-lt k j i l b.1, index-erase e.key_ j i l b.1 u.1)

pub lookup-index : (k : Str) (l : List Node) → index k l ≡ none → lookup k (entries l) ≡ none
unfolding index lookup
lookup-index k [] h = refl
lookup-index k ((i, e) ∷ l) h = ground (arith, lookup-index k l)

pub remove-index : (k : Str) (l : List Node) → index k l ≡ none → remove k (entries l) ≡ entries l
unfolding index remove
remove-index k [] h = refl
remove-index k ((i, e) ∷ l) h = ground (arith, remove-index k l)
