-- ===== src/Lru/Tests.antt =====
-- Runs of src/cache/lru.cpp on the inputs of test/test_lru.cpp, and the theorems at concrete caches.
use youdge.Base.{
  ◌≡◌, refl, List, [], ◌∷◌, ◌++◌, true, Option, none, some, str_dec, codes, arith, back, pop_back,
}
use youdge.Base.Int.{pos, ◌≤ℤ◌, ◌+ℤ◌, ◌-ℤ◌}
use youdge.Base.UnorderedMap
use youdge.Lru.{
  ByteView, Entry, LruCache, init, deref, erase_node, push_front, remove_oldest, is_zero,
  over_limit, evict, get, place, set, delete,
}
use youdge.Lru.Nodes.{entries, remove, index}
use youdge.Lru.Invariant.{IsValid}
use youdge.Lru.Recency.{kept, notified}
use youdge.Lru.Methods.{entry, set-kept}
use youdge.Lru.History.{Call, gets, sets, deletes, step, run, run-init-Within}
use youdge.Lru.Simulation.{answering, recency_answers, recency_list, init-answering}

opened : Unit {0}
unfolding init deref erase_node push_front remove_oldest is_zero over_limit evict get place set
    delete step run str_dec UnorderedMap.find UnorderedMap.insert UnorderedMap.erase index back
    pop_back ◌+ℤ◌ ◌-ℤ◌
opened = tt

abbrev value : ByteView
value = record { data_ = codes "v2" }

-- TestEvictedFunc
abbrev four : List Call
four =
    sets (codes "key1") (record { data_ = codes "123456" })
    ∷ sets (codes "k2") value
    ∷ sets (codes "k3") (record { data_ = codes "v3" })
    ∷ sets (codes "k4") (record { data_ = codes "v4" })
    ∷ []

abbrev logged : Option LruCache → List Entry
logged none = []
logged (some c) = c.evictions

evicted_func :
    logged (run four (init (pos 10) true))
    ≡ entry (codes "key1") (record { data_ = codes "123456" }) ∷ entry (codes "k2") value ∷ []
unfolding opened
evicted_func = refl

abbrev two : LruCache
two = record {
  bytes_ = pos 8;
  max_bytes_ = pos 10;
  has_evicted_func = true;
  evictions = [];
  cache_ = (codes "k3", 1) ∷ (codes "k2", 0) ∷ [];
  list_ = (1, entry (codes "k3") value) ∷ (0, entry (codes "k2") value) ∷ [];
  next_iter = 2;
}

two-IsValid : IsValid two
unfolding opened
two-IsValid = record {
  linked = λ k. refl;
  fresh = omega arith;
  keyed = (refl, (refl, tt));
  counted = refl;
}

run-init-Within_example :
    (c : LruCache) × (run four (init (pos 10) true) ≡ some c)
    × (c.max_bytes_ ≡ pos 10)
    × (c.bytes_ ≤ℤ c.max_bytes_)
run-init-Within_example = run-init-Within 9 true four

set-kept_example :
    let updated = entry (codes "k4") value ∷ remove (codes "k4") (entries two.list_) in
    (c : LruCache) × (dropped : List Entry) × (set two (codes "k4") value ≡ some c)
    × IsValid c
    × (entries c.list_ ≡ kept (pos 10) updated)
    × (updated ≡ entries c.list_ ++ dropped)
    × (c.evictions ≡ notified two dropped)
    × (c.max_bytes_ ≡ pos 10)
set-kept_example = set-kept two (codes "k4") value two-IsValid

abbrev mixed : List Call
mixed =
    sets (codes "k1") value
    ∷ sets (codes "k2") value
    ∷ gets (codes "k1")
    ∷ deletes (codes "k2")
    ∷ gets (codes "k2")
    ∷ []

init-answering_example :
    (c : LruCache) × (answering mixed (init (pos 10) true)
      ≡ some (c, recency_answers (pos 10) mixed []))
    × (entries c.list_ ≡ recency_list (pos 10) mixed [])
init-answering_example = init-answering (pos 10) true mixed
