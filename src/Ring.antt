-- ===== src/Ring.antt =====
-- src/consistent_hash/consistent_hash.cpp and src/include/kcache/consistent_hash.h: the ring of
-- virtual nodes. Its hash function is a field of the configuration, as in the source. A method
-- under the lock is one step. `std::sort` is an insertion sort, `std::remove` with `erase` a
-- filter, and `std::lower_bound` on the sorted ring the first hash that is not below. Doubles are
-- the record `Doubles` of the operations that the balancer calls.
pub mod Crc32
pub mod Members
pub mod Invariant
pub mod Successor
pub mod Removal
pub mod Routing
pub mod Departure
pub mod Balance
pub mod Limits
pub mod Bounds
mod Tests
use youdge.Base.{
  ℕ, zero, suc, ◌+◌, ◌-◌, ◌/◌, ◌%◌, Bool, true, false, not, List, [], ◌∷◌, ◌++◌, Option, none, some,
  ite, ℕ_discrete, Str, str_dec, codes, length, ltb, leb, ◌==◌, if◌then◌else◌,
}
use youdge.Base.Int.{ℤ, pos, negsuc, pos_part, ltb_ℤ}
use youdge.Base.UnorderedMap

pub record HashConfig : Type 0 where
  pub replicas : ℤ
  pub min_replicas : ℤ
  pub max_replicas : ℤ
  pub hash_func : Str → ℕ

pub record Ring : Type 0 where
  pub config_ : HashConfig
  pub keys_ : List ℕ
  pub hash_map_ : List (ℕ × Str)
  pub node_replicas_ : List (Str × ℤ)
  pub node_counts_ : List (Str × ℕ)
  pub total_requests_ : ℕ

unfoldable pub init : HashConfig → Ring
init cfg = record {
  config_ = cfg;
  keys_ = [];
  hash_map_ = [];
  node_replicas_ = [];
  node_counts_ = [];
  total_requests_ = 0;
}

-- `std::to_string` of a counter: the decimal digits, with fuel above the number.
unfoldable pub digits : ℕ → ℕ → Str → Str
digits zero n rest = rest
digits (suc fuel) n rest =
    let more = digits fuel (n / 10) ((b'0' + n % 10) ∷ rest) in
    if ltb n 10 then (b'0' + n) ∷ rest else more

abbrev pub to_string : ℕ → Str
to_string n = digits (suc n) n []

-- `fmt::format("{}-{}", node, std::to_string(i))`
unfoldable pub hash_key : Str → ℕ → Str
unfolding digits
hash_key node i = node ++ (b'-' ∷ to_string i)

-- `keys_.erase(std::remove(keys_.begin(), keys_.end(), hash), keys_.end())`
unfoldable pub remove_hash : ℕ → List ℕ → List ℕ
remove_hash hash [] = []
remove_hash hash (k ∷ l) = if k == hash then remove_hash hash l else k ∷ remove_hash hash l

unfoldable pub insert_sorted : ℕ → List ℕ → List ℕ
insert_sorted k [] = k ∷ []
insert_sorted k (j ∷ l) = if leb k j then k ∷ j ∷ l else j ∷ insert_sorted k l

unfoldable pub sort : List ℕ → List ℕ
sort [] = []
sort (k ∷ l) = insert_sorted k (sort l)

unfoldable pub lower_bound : ℕ → List ℕ → Option ℕ
lower_bound hash [] = none
lower_bound hash (k ∷ l) = if leb hash k then some k else lower_bound hash l

-- The loop of `AddNode`: `n` rounds left from the counter `i`.
unfoldable pub add_vnodes : ℕ → ℕ → Str → Ring → Ring
add_vnodes zero i node m = m
add_vnodes (suc n) i node m =
    let hash = m.config_.hash_func (hash_key node i) in
    add_vnodes n (i + 1) node (record m {
      keys_ = m.keys_ ++ hash ∷ [];
      hash_map_ = UnorderedMap.insert ℕ_discrete hash node m.hash_map_;
    })

abbrev pub count_or_zero : Option ℕ → ℕ
count_or_zero none = 0
count_or_zero (some n) = n

-- `node_replicas_[node]`, with 0 for a name that is not there.
abbrev pub int_or_zero : Option ℤ → ℤ
int_or_zero none = pos 0
int_or_zero (some r) = r

unfoldable pub add_node : Ring → Str → ℤ → Ring
add_node m node replicas =
    let r = add_vnodes (pos_part replicas) 0 node m in
    record r {
      node_replicas_ = UnorderedMap.insert str_dec node replicas r.node_replicas_;
      node_counts_ = elim (UnorderedMap.find str_dec node r.node_counts_) [
        | none ↦ UnorderedMap.insert str_dec node 0 r.node_counts_
        | some n ↦ r.node_counts_
      ];
    }

-- The loop of `Add`: an empty name is skipped.
unfoldable pub add_nodes : Ring → List Str → Ring
add_nodes m [] = m
add_nodes m ([] ∷ nodes) = add_nodes m nodes
add_nodes m ((c ∷ name) ∷ nodes) = add_nodes (add_node m (c ∷ name) m.config_.replicas) nodes

abbrev pub sorted : Ring → Ring
sorted m = record m { keys_ = sort m.keys_ }

unfoldable pub add : Ring → List Str → Ring × Bool
add m [] = (m, false)
add m (node ∷ nodes) = (sorted (add_nodes m (node ∷ nodes)), true)

-- The loop that takes the virtual nodes `i`, `i + 1`, … of a node away.
unfoldable pub remove_vnodes : ℕ → ℕ → Str → Ring → Ring
remove_vnodes zero i node m = m
remove_vnodes (suc n) i node m =
    let hash = m.config_.hash_func (hash_key node i) in
    remove_vnodes n (i + 1) node (record m {
      keys_ = remove_hash hash m.keys_;
      hash_map_ = UnorderedMap.erase ℕ_discrete hash m.hash_map_;
    })

unfoldable pub remove : Ring → Str → Ring × Bool
remove m [] = (m, false)
remove m (c ∷ name) = elim (UnorderedMap.find str_dec (c ∷ name) m.node_replicas_) [
  | none ↦ (m, false)
  | some replicas ↦
      let r = remove_vnodes (pos_part replicas) 0 (c ∷ name) m in
      (
        record r {
          node_replicas_ = UnorderedMap.erase str_dec (c ∷ name) r.node_replicas_;
          node_counts_ = UnorderedMap.erase str_dec (c ∷ name) r.node_counts_;
        },
        true,
      )
]

-- Where `Get` stops on the ring: the lower bound, or the first hash past the end.
unfoldable pub ring_position : ℕ → List ℕ → Option ℕ
ring_position hash [] = none
ring_position hash (k ∷ l) = elim (lower_bound hash (k ∷ l)) [ none ↦ some k | some j ↦ some j ]

-- `hash_map_[hash]`, which inserts the empty name where there is none.
unfoldable pub owner : Ring → ℕ → Ring × Str
owner m hash = elim (UnorderedMap.find ℕ_discrete hash m.hash_map_) [
  | none ↦ (record m { hash_map_ = UnorderedMap.insert ℕ_discrete hash [] m.hash_map_ }, [])
  | some node ↦ (m, node)
]

-- `++node_counts_[node]; ++total_requests_;`
unfoldable pub count_request : Ring → Str → Ring
count_request m node = record m {
  node_counts_ =
      UnorderedMap.insert str_dec node
        (count_or_zero (UnorderedMap.find str_dec node m.node_counts_) + 1) m.node_counts_;
  total_requests_ = m.total_requests_ + 1;
}

unfoldable pub get : Ring → Str → Ring × Str
get m [] = (m, [])
get m (c ∷ key) = elim (ring_position (m.config_.hash_func (c ∷ key)) m.keys_) [
  | none ↦ (m, [])
  | some hash ↦ let (m', node) = owner m hash in (count_request m' node, node)
]
