-- ===== src/Lru/Methods.antt =====
-- What each method of the LRU cache does to the abstract view.
use youdge.Base.{
  ℕ, ◌+◌, ◌≡◌, refl, sym, ap, ◌∙◌, inl, inr, List, [], ◌∷◌, ◌++◌, none, some, ite, Str, str_dec,
  length, arith, ◌>>=◌,
}
use youdge.Base.Int.{pos, ◌-ℤ◌, ◌+ℤ◌, +ℤ_pos, -ℤ_pos, +ℤ-ℤ_pos}
use youdge.Base.UnorderedMap
use youdge.Lru.{
  ByteView, len, Entry, LruCache, push_front, evict, get, place, set, delete, notify, erase_node,
}
use youdge.Lru.Nodes.{
  index, total, entries, lookup, remove, lookup-index, remove-index, index-erase, Below-erase,
  IsKeyed-erase,
}
use youdge.Lru.Invariant.{
  IsValid, Hit, found_or_absent, push_front-IsValid, move_front-IsValid, evict-IsValid,
}
use youdge.Lru.Recency.{kept, notified, evict-Evicted}

abbrev pub entry : Str → ByteView → Entry
entry key value = record { key_ = key; value_ = value }

-- A lookup that hits moves the entry to the front.
pub touch : Str → List Entry → List Entry
touch key l = elim (lookup key l) [ none ↦ l | some value ↦ entry key value ∷ remove key l ]

touch_hit :
    (key : Str) (l : List Entry) (value : ByteView)
    → lookup key l ≡ some value
    → touch key l ≡ entry key value ∷ remove key l
unfolding touch
touch_hit key l value h = ground arith

touch_miss : (key : Str) (l : List Entry) → lookup key l ≡ none → touch key l ≡ l
unfolding touch
touch_miss key l h = ground arith

entries-push_front :
    (c : LruCache) (key : Str) (value : ByteView)
    → entries (push_front c key value).list_ ≡ entry key value ∷ entries c.list_
unfolding push_front
entries-push_front c key value = refl

size-rest :
    (c : LruCache) (key : Str) (it : ℕ) (e : Entry)
    → Hit c key it e
    → length key + len e.value_ + total (erase_node it c.list_) ≡ total c.list_
size-rest c key it e h = omega (arith, h.sum, ap length h.same)

-- `Get` on a valid cache follows no dangling iterator: it returns the value that is held for the
-- key, if any, moves the entry to the front, and drops nothing.
pub get-touch :
    (c : LruCache) (key : Str)
    → IsValid c
    → (c' : LruCache) × (get c key ≡ some (c', lookup key (entries c.list_)))
      × IsValid c'
      × (entries c'.list_ ≡ touch key (entries c.list_))
      × (c'.bytes_ ≡ c.bytes_)
      × (c'.evictions ≡ c.evictions)
      × (c'.max_bytes_ ≡ c.max_bytes_)
unfolding get push_front
get-touch c key v = elim (found_or_absent c key v) [
  | inl miss ↦
      let absent : lookup key (entries c.list_) ≡ none =
        lookup-index key c.list_ (sym (v.linked key) ∙ miss) in
      (
        c,
        rw (miss, get, absent),
        v,
        sym (touch_miss key (entries c.list_) absent),
        refl,
        refl,
        refl,
      )
  | inr (it, e, h) ↦ (
    push_front (record c { list_ = erase_node it c.list_ }) key e.value_,
    rw (h.found, get, h.node, ◌>>=◌, h.value) refl,
    move_front-IsValid c key it e e.value_ c.bytes_ v h
        (v.counted ∙ ap pos (sym (size-rest c key it e h))),
    entries-push_front (record c { list_ = erase_node it c.list_ }) key e.value_
        ∙ ap (◌∷◌ (entry key e.value_)) h.rest
        ∙ sym (touch_hit key (entries c.list_) e.value_ h.value),
    refl,
    refl,
    refl,
  )
]

-- `Set` up to its loop.
place_lem :
    (c : LruCache) (key : Str) (value : ByteView)
    → IsValid c
    → (c' : LruCache) × (place c key value ≡ some c')
      × IsValid c'
      × (entries c'.list_ ≡ entry key value ∷ remove key (entries c.list_))
      × (c'.evictions ≡ c.evictions)
      × (c'.max_bytes_ ≡ c.max_bytes_)
      × (c'.has_evicted_func ≡ c.has_evicted_func)
unfolding place push_front
place_lem c key value v = elim (found_or_absent c key v) [
  | inl miss ↦
      let absent : index key c.list_ ≡ none = sym (v.linked key) ∙ miss in
      (
        push_front (record c { bytes_ = c.bytes_ +ℤ pos (length key + len value) }) key value,
        rw (miss, place),
        push_front-IsValid _ key value (λ k. ground (arith, v.linked k, miss)) v.fresh v.keyed
            (ap (λ b. b +ℤ pos (length key + len value)) v.counted
              ∙ +ℤ_pos (total c.list_) (length key + len value)
              ∙ ap pos (omega arith)),
        ap (◌∷◌ (entry key value)) (sym (remove-index key c.list_ absent)),
        refl,
        refl,
        refl,
      )
  | inr (it, e, h) ↦ (
    push_front
        (record c {
          bytes_ = c.bytes_ +ℤ (pos (len value) -ℤ pos (len e.value_));
          list_ = erase_node it c.list_;
        })
        key value,
    rw (h.found, place, h.node, ◌>>=◌) refl,
    move_front-IsValid c key it e value _ v h (
        ap (λ b. b +ℤ (pos (len value) -ℤ pos (len e.value_))) v.counted
        ∙ +ℤ-ℤ_pos (total c.list_) (len value) (len e.value_) (omega (arith, h.sum))
        ∙ ap pos (omega (arith, h.sum, ap length h.same))),
    ap (◌∷◌ (entry key value)) h.rest,
    refl,
    refl,
    refl,
  )
]

-- `Set` on a valid cache follows no dangling iterator. The new entry goes to the front, an older
-- one with its key goes away, and the longest prefix that the limit allows stays. The callback
-- gets exactly the entries that this drops, the oldest first.
pub set-kept :
    (c : LruCache) (key : Str) (value : ByteView)
    → IsValid c
    → let updated = entry key value ∷ remove key (entries c.list_) in
      (c' : LruCache) × (dropped : List Entry) × (set c key value ≡ some c')
      × IsValid c'
      × (entries c'.list_ ≡ kept c.max_bytes_ updated)
      × (updated ≡ entries c'.list_ ++ dropped)
      × (c'.evictions ≡ notified c dropped)
      × (c'.max_bytes_ ≡ c.max_bytes_)
unfolding set
set-kept c key value v =
    let (p, placed, valid, list, log, limit, has) = place_lem c key value v in
    let r = evict-Evicted (length p.list_) p valid (omega arith) in
    (
      evict (length p.list_) p,
      r.dropped,
      rw (placed, set),
      evict-IsValid (length p.list_) p valid,
      r.stays ∙ rw (list, limit) refl,
      sym list ∙ r.split,
      r.logged ∙ rw (log, has) refl,
      r.limit ∙ limit,
    )

delete-IsValid :
    (c : LruCache) (key : Str) (it : ℕ) (e : Entry)
    → IsValid c
    → Hit c key it e
    → (log : List Entry)
    → IsValid (record c {
      cache_ = UnorderedMap.erase str_dec key c.cache_;
      list_ = erase_node it c.list_;
      bytes_ = c.bytes_ -ℤ pos (length key + len e.value_);
      evictions = log;
    })
delete-IsValid c key it e v h log = record {
  linked = λ k.
      UnorderedMap.find-erase str_dec key k c.cache_
      ∙ ap (ite (str_dec key k) none) (v.linked k)
      ∙ sym (index-erase key k c.next_iter it c.list_ v.fresh v.keyed h.indexed);
  fresh = Below-erase it c.next_iter c.list_ v.fresh;
  keyed = IsKeyed-erase key c.next_iter it c.list_ v.fresh v.keyed h.indexed;
  counted =
      ap (λ b. b -ℤ pos (length key + len e.value_)) v.counted
      ∙ -ℤ_pos (total c.list_) (length key + len e.value_) (omega (arith, size-rest c key it e h))
      ∙ ap pos (omega (arith, size-rest c key it e h));
}

-- `Delete` on a valid cache follows no dangling iterator; it takes away the entry with the key,
-- and the callback gets that entry if there is one.
pub delete-remove :
    (c : LruCache) (key : Str)
    → IsValid c
    → (c' : LruCache) × (delete c key ≡ some c')
      × IsValid c'
      × (entries c'.list_ ≡ remove key (entries c.list_))
      × (c'.evictions ≡ elim (lookup key (entries c.list_)) [
        | none ↦ c.evictions
        | some value ↦ notified c (entry key value ∷ [])
      ])
      × (c'.max_bytes_ ≡ c.max_bytes_)
unfolding delete
delete-remove c key v = elim (found_or_absent c key v) [
  | inl miss ↦
      let absent : index key c.list_ ≡ none = sym (v.linked key) ∙ miss in
      (
        c,
        rw (miss, delete),
        v,
        sym (remove-index key c.list_ absent),
        ground (arith, lookup-index key c.list_ absent),
        refl,
      )
  | inr (it, e, h) ↦ (
    record c {
      cache_ = UnorderedMap.erase str_dec key c.cache_;
      list_ = erase_node it c.list_;
      bytes_ = c.bytes_ -ℤ pos (length key + len e.value_);
      evictions = notify c (record { key_ = key; value_ = e.value_ });
    },
    rw (h.found, delete, h.node, ◌>>=◌) refl,
    delete-IsValid c key it e v h _,
    h.rest,
    ground (arith, h.value),
    refl,
  )
]
