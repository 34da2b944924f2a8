-- ===== src/Lru/Back.antt =====
-- Lemmas on the last node of the LRU cache's list, which `RemoveOldest` takes away.
use youdge.Base.{
  ℕ, suc, ◌+◌, ◌≡◌, refl, ap, List, [], ◌∷◌, none, some, ite, if_pos, if_neg, Str, str_dec, length,
  back, pop_back, arith,
}
use youdge.Lru.{Node, size}
use youdge.Lru.Nodes.{index, Below, IsKeyed, total, entries}

pub back-index :
    (l : List Node) (node : Node) → back l ≡ some node → (i : ℕ) × (index node.1.key_ l ≡ some i)
unfolding back index
back-index [] node h = cc
back-index ((i, e) ∷ []) node h = (i, ground arith)
back-index ((i, e) ∷ (j, f) ∷ l) node h =
    let (n, found) = back-index ((j, f) ∷ l) node h in
    elim (str_dec e.key_ node.1.key_) [ yes p ↦ (i, ground arith) | no p ↦ (n, ground arith) ]

pub index-pop_back :
    (l : List Node) (node : Node)
    → back l ≡ some node
    → IsKeyed l
    → (k : Str) → index k (pop_back l) ≡ ite (str_dec node.1.key_ k) none (index k l)
unfolding back pop_back index
index-pop_back [] node h u k = cc
index-pop_back ((i, e) ∷ []) node h u k = ground arith
index-pop_back ((i, e) ∷ (j, f) ∷ l) node h u k =
    let (n, found) = back-index ((j, f) ∷ l) node h in
    elim (str_dec e.key_ k) [
      | yes p ↦
          let kept : ¬ (node.1.key_ ≡ k) = λ q. ground (arith, u.0, found) in
          rw (if_pos _ p, if_pos _ p) (ground arith)
      | no p ↦ rw (if_neg _ p, if_neg _ p) (index-pop_back ((j, f) ∷ l) node h u.1 k)
    ]

index-pop_back-none : (k : Str) (l : List Node) → index k l ≡ none → index k (pop_back l) ≡ none
unfolding index pop_back
index-pop_back-none k [] h = refl
index-pop_back-none k ((i, e) ∷ []) h = refl
index-pop_back-none k ((i, e) ∷ (j, f) ∷ l) h = ground (arith, index-pop_back-none k ((j, f) ∷ l))

pub IsKeyed-pop_back : (l : List Node) → IsKeyed l → IsKeyed (pop_back l)
unfolding pop_back
IsKeyed-pop_back [] u = tt
IsKeyed-pop_back ((i, e) ∷ []) u = tt
IsKeyed-pop_back ((i, e) ∷ (j, f) ∷ l) u =
    (index-pop_back-none e.key_ ((j, f) ∷ l) u.0, IsKeyed-pop_back ((j, f) ∷ l) u.1)

pub Below-pop_back : (n : ℕ) (l : List Node) → Below n l → Below n (pop_back l)
unfolding pop_back
Below-pop_back n [] b = tt
Below-pop_back n ((i, e) ∷ []) b = tt
Below-pop_back n ((i, e) ∷ (j, f) ∷ l) b = (b.0, Below-pop_back i ((j, f) ∷ l) b.1)

pub total-pop_back :
    (l : List Node) (node : Node) → back l ≡ some node → total (pop_back l) + size node.1 ≡ total l
unfolding back pop_back
total-pop_back [] node h = cc
total-pop_back ((i, e) ∷ []) node h = ground arith
total-pop_back ((i, e) ∷ (j, f) ∷ l) node h = omega (arith, total-pop_back ((j, f) ∷ l) node h)

pub length-pop_back {ℓ} : {A : Type ℓ} (x : A) (l : List A) → length (pop_back (x ∷ l)) ≡ length l
unfolding pop_back
length-pop_back x [] = refl
length-pop_back x (y ∷ l) = ap suc (length-pop_back y l)

pub entries-pop_back : (l : List Node) → entries (pop_back l) ≡ pop_back (entries l)
unfolding pop_back
entries-pop_back [] = refl
entries-pop_back ((i, e) ∷ []) = refl
entries-pop_back ((i, e) ∷ (j, f) ∷ l) = ap (◌∷◌ e) (entries-pop_back ((j, f) ∷ l))
