-- ===== src/Lru/History.antt =====
-- Any history of calls on an LRU cache, from its construction.
use youdge.Base.{
  ℕ, suc, ◌+◌, ◌≤◌, ◌≡◌, refl, sym, ap, ◌∙◌, List, [], ◌∷◌, Bool, Option, some, Str, length, arith,
  ◌>>=◌,
}
use youdge.Base.Int.{ℤ, pos, ◌≤ℤ◌, le_of_pos}
use youdge.Lru.{ByteView, len, Entry, LruCache, init, get, set, delete}
use youdge.Lru.Nodes.{entries, lookup, remove}
use youdge.Lru.Invariant.{IsValid, init-IsValid}
use youdge.Lru.Recency.{keep, kept, keep-le, total_entries, total-entries}
use youdge.Lru.Methods.{entry, get-touch, set-kept, delete-remove}

pub data Call : Type 0 where
  gets : Str → Call
  sets : Str → ByteView → Call
  deletes : Str → Call

unfoldable pub step : LruCache → Call → Option LruCache
step c (gets key) = do (c', v) ← get c key; some c'
step c (sets key value) = set c key value
step c (deletes key) = delete c key

unfoldable pub run : List Call → LruCache → Option LruCache
run [] c = some c
run (call ∷ calls) c = do c' ← step c call; run calls c'

-- The limit bounds what is held.
abbrev Within : ℕ → LruCache → Type 0
Within m c = (c.max_bytes_ ≡ pos (suc m)) × (c.bytes_ ≤ℤ c.max_bytes_)

remove-le : (key : Str) (l : List Entry) → total_entries (remove key l) ≤ total_entries l
unfolding remove total_entries
remove-le key [] = omega arith
remove-le key (e ∷ l) = ground (arith, remove-le key l)

bytes-entries : (c : LruCache) → IsValid c → c.bytes_ ≡ pos (total_entries (entries c.list_))
bytes-entries c v = v.counted ∙ ap pos (sym (total-entries c.list_))

Within-entries :
    (m : ℕ) (c : LruCache)
    → IsValid c
    → c.max_bytes_ ≡ pos (suc m)
    → total_entries (entries c.list_) ≤ suc m
    → Within m c
Within-entries m c v limit h = (limit, rw (bytes-entries c v, limit) (omega arith))

kept-keep :
    (m : ℕ) (c : LruCache) (l : List Entry)
    → c.max_bytes_ ≡ pos (suc m)
    → kept c.max_bytes_ l ≡ keep (suc m) l
unfolding kept
kept-keep m c l limit = ap (λ z. kept z l) limit

counted-Within :
    (m : ℕ) (c : LruCache) → IsValid c → Within m c → total_entries (entries c.list_) ≤ suc m
counted-Within m c v w = le_of_pos c.bytes_ c.max_bytes_ _ (suc m) (bytes-entries c v) w.0 w.1

step-Within :
    (m : ℕ) (c : LruCache) (call : Call)
    → IsValid c
    → Within m c
    → (c' : LruCache) × (step c call ≡ some c') × IsValid c' × Within m c'
unfolding step
step-Within m c (gets key) v w =
    let (c', got, v', list, bytes, log, limit) = get-touch c key v in
    (c', rw (got, ◌>>=◌) refl, v', rw (bytes, limit) w)
step-Within m c (sets key value) v w =
    let (c', dropped, done, v', list, split, log, limit) = set-kept c key value v in
    (
      c',
      done,
      v',
      Within-entries m c' v' (limit ∙ w.0) (
          rw (list, kept-keep m c (entry key value ∷ remove key (entries c.list_)) w.0)
            (keep-le (suc m) (entry key value ∷ remove key (entries c.list_)))),
    )
step-Within m c (deletes key) v w =
    let (c', done, v', list, log, limit) = delete-remove c key v in
    (
      c',
      done,
      v',
      Within-entries m c' v' (limit ∙ w.0)
          (rw list (omega (arith, remove-le key (entries c.list_), counted-Within m c v w))),
    )

step-IsValid :
    (c : LruCache) (call : Call)
    → IsValid c
    → (c' : LruCache) × (step c call ≡ some c') × IsValid c'
unfolding step
step-IsValid c (gets key) v = let r = get-touch c key v in (r.0, rw (r.1, ◌>>=◌) refl, r.2)
step-IsValid c (sets key value) v = let r = set-kept c key value v in (r.0, r.2, r.3)
step-IsValid c (deletes key) v = let r = delete-remove c key v in (r.0, r.1, r.2)

run-IsValid :
    (calls : List Call) (c : LruCache)
    → IsValid c
    → (c' : LruCache) × (run calls c ≡ some c') × IsValid c'
unfolding run
run-IsValid [] c v = (c, refl, v)
run-IsValid (call ∷ calls) c v =
    let (d, stepped, valid) = step-IsValid c call v in
    let (c', ran, v') = run-IsValid calls d valid in (c', rw (stepped, ◌>>=◌) ran, v')

run-Within :
    (m : ℕ) (calls : List Call) (c : LruCache)
    → IsValid c
    → Within m c
    → (c' : LruCache) × (run calls c ≡ some c') × Within m c'
unfolding run
run-Within m [] c v w = (c, refl, w)
run-Within m (call ∷ calls) c v w =
    let (d, stepped, valid, within) = step-Within m c call v w in
    let (c', ran, w') = run-Within m calls d valid within in (c', rw (stepped, ◌>>=◌) ran, w')

-- From its construction, with any limit, no history of calls makes the cache follow a dangling
-- iterator, and after it the map, the list and `bytes_` agree.
pub run-init-IsValid :
    (max_bytes : ℤ) (has : Bool) (calls : List Call)
    → (c : LruCache) × (run calls (init max_bytes has) ≡ some c) × IsValid c
run-init-IsValid max_bytes has calls = run-IsValid calls _ (init-IsValid max_bytes has)

pub run-init-Within :
    (m : ℕ) (has : Bool) (calls : List Call)
    → (c : LruCache) × (run calls (init (pos (suc m)) has) ≡ some c)
      × (c.max_bytes_ ≡ pos (suc m))
      × (c.bytes_ ≤ℤ c.max_bytes_)
unfolding init
run-init-Within m has calls =
    let (c, ran, within) =
      run-Within m calls (init (pos (suc m)) has) (init-IsValid (pos (suc m)) has)
        (refl, omega arith) in
    (c, ran, within.0, within.1)

-- On a valid cache with a positive limit, an entry that fits the limit is there right after its
-- `Set`: `Get` returns its value.
pub get-set :
    (m : ℕ) (c : LruCache) (key : Str) (value : ByteView)
    → IsValid c
    → c.max_bytes_ ≡ pos (suc m)
    → length key + len value ≤ suc m
    → (c' : LruCache) × (c'' : LruCache) × (set c key value ≡ some c')
      × (get c' key ≡ some (c'', some value))
unfolding lookup keep
get-set m c key value v limit fits =
    let (c', dropped, done, v', list, split, log, limit') = set-kept c key value v in
    let r = get-touch c' key v' in
    let updated = entry key value ∷ remove key (entries c.list_) in
    let front : lookup key (entries c'.list_) ≡ some value =
      ap (lookup key) (list ∙ kept-keep m c updated limit) ∙ ground arith in
    (c', r.0, done, r.1 ∙ ap (λ o. some (r.0, o)) front)
