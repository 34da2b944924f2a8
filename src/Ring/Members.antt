-- ===== src/Ring/Members.antt =====
-- Which hashes stand on the ring, and whose they are, after the loops over virtual nodes.
use youdge.Base.{
  ℕ, zero, suc, ◌+◌, ◌≡◌, refl, ap, ◌∙◌, Bool, false, not, ◌&&◌, ◌||◌, List, [], ◌∷◌, ◌++◌, Option,
  none, some, ℕ_discrete, Str, arith, ◌==◌, if◌then◌else◌,
}
use youdge.Base.UnorderedMap
use youdge.Ring.{Ring, hash_key, remove_hash, insert_sorted, sort, add_vnodes, remove_vnodes}

unfoldable pub mem : ℕ → List ℕ → Bool
mem h [] = false
mem h (k ∷ l) = k == h || mem h l

-- The hash is one of the virtual nodes `i`, …, `i + n - 1` of the node.
unfoldable pub covers : (Str → ℕ) → ℕ → ℕ → Str → ℕ → Bool
covers f zero i node h = false
covers f (suc n) i node h = f (hash_key node i) == h || covers f n (i + 1) node h

pub mem-append : (h : ℕ) (l r : List ℕ) → mem h (l ++ r) ≡ (mem h l || mem h r)
unfolding mem
mem-append h [] r = refl
mem-append h (k ∷ l) r = ground (arith, mem-append h l r)

pub mem-remove_hash : (h k : ℕ) (l : List ℕ) → mem h (remove_hash k l) ≡ (mem h l && not (k == h))
unfolding mem remove_hash
mem-remove_hash h k [] = ground arith
mem-remove_hash h k (j ∷ l) = ground (arith, mem-remove_hash h k l)

mem-insert_sorted : (h k : ℕ) (l : List ℕ) → mem h (insert_sorted k l) ≡ (k == h || mem h l)
unfolding mem insert_sorted
mem-insert_sorted h k [] = refl
mem-insert_sorted h k (j ∷ l) = ground (arith, mem-insert_sorted h k l)

pub mem-sort : (h : ℕ) (l : List ℕ) → mem h (sort l) ≡ mem h l
unfolding mem sort
mem-sort h [] = refl
mem-sort h (k ∷ l) = mem-insert_sorted h k (sort l) ∙ ap (λ b. k == h || b) (mem-sort h l)

find_hash : ℕ → Ring → Option Str
find_hash h m = UnorderedMap.find ℕ_discrete h m.hash_map_

-- `AddNode`'s loop: the ring gains the covered hashes, and they belong to the node.
pub mem-add_vnodes :
    (h n i : ℕ) (node : Str) (m : Ring)
    → mem h (add_vnodes n i node m).keys_ ≡ (mem h m.keys_ || covers m.config_.hash_func n i node h)
unfolding add_vnodes covers mem
mem-add_vnodes h zero i node m = ground arith
mem-add_vnodes h (suc n) i node m =
    mem-add_vnodes h n (i + 1) node _
    ∙ ground (arith, mem-append h m.keys_ (m.config_.hash_func (hash_key node i) ∷ []))

pub find-add_vnodes :
    (h n i : ℕ) (node : Str) (m : Ring)
    → UnorderedMap.find ℕ_discrete h (add_vnodes n i node m).hash_map_ ≡ (
        if covers m.config_.hash_func n i node h
        then some node
        else UnorderedMap.find ℕ_discrete h m.hash_map_)
unfolding add_vnodes covers
find-add_vnodes h zero i node m = refl
find-add_vnodes h (suc n) i node m =
    find-add_vnodes h n (i + 1) node _
    ∙ ground (
      arith,
      UnorderedMap.find-insert ℕ_discrete (m.config_.hash_func (hash_key node i)) h node
          m.hash_map_,
    )

-- `Remove`'s loop: the covered hashes leave the ring and the map.
pub mem-remove_vnodes :
    (h n i : ℕ) (node : Str) (m : Ring)
    → mem h (remove_vnodes n i node m).keys_
      ≡ (mem h m.keys_ && not (covers m.config_.hash_func n i node h))
unfolding remove_vnodes covers
mem-remove_vnodes h zero i node m = ground arith
mem-remove_vnodes h (suc n) i node m =
    mem-remove_vnodes h n (i + 1) node _
    ∙ ground (arith, mem-remove_hash h (m.config_.hash_func (hash_key node i)) m.keys_)

pub find-remove_vnodes :
    (h n i : ℕ) (node : Str) (m : Ring)
    → UnorderedMap.find ℕ_discrete h (remove_vnodes n i node m).hash_map_ ≡ (
        if covers m.config_.hash_func n i node h
        then none
        else UnorderedMap.find ℕ_discrete h m.hash_map_)
unfolding remove_vnodes covers
find-remove_vnodes h zero i node m = refl
find-remove_vnodes h (suc n) i node m =
    find-remove_vnodes h n (i + 1) node _
    ∙ ground (
      arith,
      UnorderedMap.find-erase ℕ_discrete (m.config_.hash_func (hash_key node i)) h m.hash_map_,
    )

-- The other fields stay.
pub record SameRest (m r : Ring) : Type 0 where
  pub config : r.config_ ≡ m.config_
  pub replicas : r.node_replicas_ ≡ m.node_replicas_
  pub counts : r.node_counts_ ≡ m.node_counts_
  pub requests : r.total_requests_ ≡ m.total_requests_

pub add_vnodes-SameRest : (n i : ℕ) (node : Str) (m : Ring) → SameRest m (add_vnodes n i node m)
unfolding add_vnodes
add_vnodes-SameRest zero i node m = ground arith
add_vnodes-SameRest (suc n) i node m =
    let r = add_vnodes-SameRest n (i + 1) node _ in
    record { config = r.config; replicas = r.replicas; counts = r.counts; requests = r.requests }

pub remove_vnodes-SameRest :
    (n i : ℕ) (node : Str) (m : Ring) → SameRest m (remove_vnodes n i node m)
unfolding remove_vnodes
remove_vnodes-SameRest zero i node m = ground arith
remove_vnodes-SameRest (suc n) i node m =
    let r = remove_vnodes-SameRest n (i + 1) node _ in
    record { config = r.config; replicas = r.replicas; counts = r.counts; requests = r.requests }
