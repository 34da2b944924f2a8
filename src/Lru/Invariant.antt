-- ===== src/Lru/Invariant.antt =====
-- The representation invariant of the LRU cache, and that every method keeps it.
use youdge.Base.{
  ℕ, zero, suc, ◌+◌, ◌≡◌, refl, sym, ap, ◌∙◌, Bool, ◌⊎◌, inl, inr, none, some, ite, Str, str_dec,
  length, back, pop_back, arith, Option-cases,
}
use youdge.Base.Int.{ℤ, pos, -ℤ_pos}
use youdge.Base.UnorderedMap
use youdge.Lru.{
  ByteView, len, Entry, LruCache, size, deref, erase_node, push_front, remove_oldest, evict, init,
}
use youdge.Lru.Back.{index-pop_back, IsKeyed-pop_back, Below-pop_back, total-pop_back}
use youdge.Lru.Nodes.{
  index, Below, IsKeyed, total, Below-erase, deref-index, index-erase, IsKeyed-erase, entries,
  lookup, remove,
}

-- The map leads each key to its node and no other key anywhere, iterators are not reused, no key
-- stands twice, and `bytes_` is the size of what is held.
pub record IsValid (c : LruCache) : Type 0 where
  pub linked : (k : Str) → UnorderedMap.find str_dec k c.cache_ ≡ index k c.list_
  pub fresh : Below c.next_iter c.list_
  pub keyed : IsKeyed c.list_
  pub counted : c.bytes_ ≡ pos (total c.list_)

pub init-IsValid : (max_bytes : ℤ) (has : Bool) → IsValid (init max_bytes has)
unfolding init index UnorderedMap.find
init-IsValid m has = record { linked = λ k. refl; fresh = tt; keyed = tt; counted = refl }

-- Pushing a key that the list has lost.
pub push_front-IsValid :
    (c : LruCache) (key : Str) (v : ByteView)
    → ((k : Str)
        → ite (str_dec key k) none (UnorderedMap.find str_dec k c.cache_) ≡ index k c.list_)
    → Below c.next_iter c.list_
    → IsKeyed c.list_
    → c.bytes_ ≡ pos (length key + len v + total c.list_)
    → IsValid (push_front c key v)
unfolding push_front index
push_front-IsValid c key v linked fresh keyed counted = record {
  linked =
      λ k. ground (arith, linked k, UnorderedMap.find-insert str_dec key k c.next_iter c.cache_);
  fresh = (omega arith, fresh);
  keyed = (ground (arith, linked key), keyed);
  counted = counted;
}

pub remove_oldest-IsValid : (c : LruCache) → IsValid c → IsValid (remove_oldest c)
unfolding remove_oldest
remove_oldest-IsValid c v = elim (Option-cases (back c.list_)) [
  | inl e ↦ rw (e, remove_oldest) v
  | inr (node, e) ↦
      let sum : total (pop_back c.list_) + size node.1 ≡ total c.list_ =
        total-pop_back c.list_ node e in
      rw (e, remove_oldest)
        (record {
          linked = λ k.
              UnorderedMap.find-erase str_dec node.1.key_ k c.cache_
              ∙ ap (ite (str_dec node.1.key_ k) none) (v.linked k)
              ∙ sym (index-pop_back c.list_ node e v.keyed k);
          fresh = Below-pop_back c.next_iter c.list_ v.fresh;
          keyed = IsKeyed-pop_back c.list_ v.keyed;
          counted =
              rw (v.counted, -ℤ_pos (total c.list_) (size node.1) (omega arith))
                (ap pos (omega arith));
        })
]

pub evict-IsValid : (fuel : ℕ) (c : LruCache) → IsValid c → IsValid (evict fuel c)
unfolding evict
evict-IsValid zero c v = v
evict-IsValid (suc fuel) c v =
    ground (arith, evict-IsValid fuel (remove_oldest c) (remove_oldest-IsValid c v))

-- What following the iterator of a cached key gives.
pub record Hit (c : LruCache) (key : Str) (it : ℕ) (e : Entry) : Type 0 where
  pub found : UnorderedMap.find str_dec key c.cache_ ≡ some it
  pub node : deref it c.list_ ≡ some e
  pub same : e.key_ ≡ key
  pub value : lookup key (entries c.list_) ≡ some e.value_
  pub rest : entries (erase_node it c.list_) ≡ remove key (entries c.list_)
  pub sum : total (erase_node it c.list_) + size e ≡ total c.list_
  pub indexed : index key c.list_ ≡ some it

-- A key is cached nowhere, or the map leads to its node.
pub found_or_absent :
    (c : LruCache) (key : Str)
    → IsValid c
    → (UnorderedMap.find str_dec key c.cache_ ≡ none) ⊎ ((it : ℕ) × (e : Entry) × Hit c key it e)
found_or_absent c key v = elim (Option-cases (UnorderedMap.find str_dec key c.cache_)) [
  | inl miss ↦ inl miss
  | inr (it, e) ↦
      let indexed : index key c.list_ ≡ some it = sym (v.linked key) ∙ e in
      let (f, node, same, value, rest, sum) =
        deref-index key c.next_iter it c.list_ v.fresh indexed in
      inr (
        it,
        f,
        record {
          found = e;
          node = node;
          same = same;
          value = value;
          rest = rest;
          sum = sum;
          indexed = indexed;
        },
      )
]

-- A cached key moves to the front, with a value that `bytes` already counts.
pub move_front-IsValid :
    (c : LruCache) (key : Str) (it : ℕ) (e : Entry) (value : ByteView) (bytes : ℤ)
    → IsValid c
    → Hit c key it e
    → bytes ≡ pos (length key + len value + total (erase_node it c.list_))
    → IsValid (push_front (record c { bytes_ = bytes; list_ = erase_node it c.list_ }) key value)
move_front-IsValid c key it e value bytes v h counted =
    push_front-IsValid _ key value
      (λ k.
        ap (ite (str_dec key k) none) (v.linked k)
        ∙ sym (index-erase key k c.next_iter it c.list_ v.fresh v.keyed h.indexed))
      (Below-erase it c.next_iter c.list_ v.fresh)
      (IsKeyed-erase key c.next_iter it c.list_ v.fresh v.keyed h.indexed) counted
