-- ===== src/Lru.antt =====
-- src/cache/lru.cpp and src/include/kcache/cache.h: the LRU cache of a node.
-- `list_` is a linked list of nodes; an iterator is the number of a node, drawn from `next_iter`,
-- and `cache_` maps a key to an iterator. A step that follows an iterator to no node is undefined
-- behaviour and has the result `none`. `evictions` logs the calls of the eviction callback, the
-- earliest first. The lock makes each method one step.
pub mod Nodes
pub mod Back
pub mod Invariant
pub mod Recency
pub mod Methods
pub mod History
pub mod Simulation
mod Tests
use youdge.Base.{
  ℕ, zero, suc, ◌+◌, Bool, true, false, not, ◌&&◌, List, [], ◌∷◌, ◌++◌, Option, none, some, ite,
  ℕ_discrete, Str, str_dec, length, is_empty, back, pop_back, ◌==◌, if◌then◌else◌, ◌>>=◌,
}
use youdge.Base.Int.{ℤ, pos, negsuc, ◌+ℤ◌, ◌-ℤ◌, ltb_ℤ}
use youdge.Base.UnorderedMap

pub record ByteView : Type 0 where
  pub data_ : Str

-- `ByteView::Len`
abbrev pub len : ByteView → ℕ
len v = length v.data_

pub record Entry : Type 0 where
  pub key_ : Str
  pub value_ : ByteView

abbrev pub Node : Type 0
Node = ℕ × Entry

pub record LruCache : Type 0 where
  pub bytes_ : ℤ
  pub max_bytes_ : ℤ
  pub has_evicted_func : Bool
  pub evictions : List Entry
  pub cache_ : List (Str × ℕ)
  pub list_ : List Node
  pub next_iter : ℕ

unfoldable pub init : ℤ → Bool → LruCache
init max_bytes has = record {
  bytes_ = pos 0;
  max_bytes_ = max_bytes;
  has_evicted_func = has;
  evictions = [];
  cache_ = [];
  list_ = [];
  next_iter = 0;
}

-- `*it`
unfoldable pub deref : ℕ → List Node → Option Entry
deref it [] = none
deref it ((i, e) ∷ l) = ite (ℕ_discrete i it) (some e) (deref it l)

-- `list_.erase(it)`
unfoldable pub erase_node : ℕ → List Node → List Node
erase_node it [] = []
erase_node it ((i, e) ∷ l) = ite (ℕ_discrete i it) l ((i, e) ∷ erase_node it l)

-- The bytes that an entry counts for.
abbrev pub size : Entry → ℕ
size e = length e.key_ + len e.value_

-- `list_.emplace_front(key, value); cache_[key] = list_.begin();`
unfoldable pub push_front : LruCache → Str → ByteView → LruCache
push_front c key value = record c {
  cache_ = UnorderedMap.insert str_dec key c.next_iter c.cache_;
  list_ = (c.next_iter, record { key_ = key; value_ = value }) ∷ c.list_;
  next_iter = c.next_iter + 1;
}

-- `if (evicted_func_) evicted_func_(key, value);`
abbrev pub notify : LruCache → Entry → List Entry
notify c e = if c.has_evicted_func then c.evictions ++ e ∷ [] else c.evictions

unfoldable pub remove_oldest : LruCache → LruCache
remove_oldest c = elim (back c.list_) [
  | none ↦ c
  | some node ↦ record c {
    cache_ = UnorderedMap.erase str_dec node.1.key_ c.cache_;
    list_ = pop_back c.list_;
    bytes_ = c.bytes_ -ℤ pos (size node.1);
    evictions = notify c node.1;
  }
]

is_zero : ℤ → Bool
is_zero (pos n) = n == 0
is_zero (negsuc n) = false

-- The condition of the loop of `Set`.
unfoldable pub over_limit : LruCache → Bool
unfolding is_zero
over_limit c = not (is_zero c.max_bytes_) && (ltb_ℤ c.max_bytes_ c.bytes_ && not (is_empty c.list_))

-- The loop, with fuel: each round takes one node away.
unfoldable pub evict : ℕ → LruCache → LruCache
evict zero c = c
evict (suc fuel) c = elim (over_limit c) [ true ↦ evict fuel (remove_oldest c) | false ↦ c ]

unfoldable pub get : LruCache → Str → Option (LruCache × Option ByteView)
get c key = elim (UnorderedMap.find str_dec key c.cache_) [
  | none ↦ some (c, none)
  | some ele ↦ do
    e ← deref ele c.list_
    some (push_front (record c { list_ = erase_node ele c.list_ }) key e.value_, some e.value_)
]

-- `Set` up to the loop.
unfoldable pub place : LruCache → Str → ByteView → Option LruCache
place c key value = elim (UnorderedMap.find str_dec key c.cache_) [
  | some ele ↦ do
    e ← deref ele c.list_
    some (
        push_front
          (record c {
            bytes_ = c.bytes_ +ℤ (pos (len value) -ℤ pos (len e.value_));
            list_ = erase_node ele c.list_;
          })
          key value)
  | none ↦
      some (push_front (record c { bytes_ = c.bytes_ +ℤ pos (length key + len value) }) key value)
]

unfoldable pub set : LruCache → Str → ByteView → Option LruCache
set c key value = do c' ← place c key value; some (evict (length c'.list_) c')

unfoldable pub delete : LruCache → Str → Option LruCache
delete c key = elim (UnorderedMap.find str_dec key c.cache_) [
  | none ↦ some c
  | some ele ↦ do
    e ← deref ele c.list_
    some (record c {
      cache_ = UnorderedMap.erase str_dec key c.cache_;
      list_ = erase_node ele c.list_;
      bytes_ = c.bytes_ -ℤ pos (length key + len e.value_);
      evictions = notify c (record { key_ = key; value_ = e.value_ });
    })
]
