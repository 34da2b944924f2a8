-- ===== src/Group/Writes.antt =====
-- Calls on a group after other calls, its refusals, and that no call is undefined.
use youdge.Base.{
  ℕ, suc, ◌+◌, ◌≤◌, ◌≡◌, ◌⊎◌, refl, ap, subst, ◌∙◌, ◌≢◌, inl, inr, Bool, true, false, List, [], ◌∷◌,
  Option, none, some, if_pos, Str, str_dec, is_empty, length, arith, if◌then◌else◌, ◌>>=◌,
  Bool-cases,
}
use youdge.Base.Int.{pos}
use youdge.Lru
use youdge.Lru.{ByteView, LruCache, Entry, Node, len}
use youdge.Lru.Nodes.{index, IsKeyed, entries, lookup, remove, lookup-index}
use youdge.Lru.Invariant.{IsValid}
use youdge.Lru.Methods.{set-kept, delete-remove}
use youdge.Lru.History.{get-set}
use youdge.Group.Reads.{
  held, stored, get_open, set_open, delete_open, lookup_or_load_miss, get-read_through,
}
use youdge.Group.{KCacheGroup, lookup_or_load, get, set, delete, invalidate_from_peer, hit}

-- A key that was taken out of a list of different keys is gone.
lookup-remove : (key : Str) (l : List Node) → IsKeyed l → lookup key (remove key (entries l)) ≡ none
unfolding lookup remove index
lookup-remove key [] u = refl
lookup-remove key ((i, e) ∷ l) u = elim (str_dec e.key_ key) [
  | yes p ↦ rw (if_pos _ p) (subst (λ k. lookup k (entries l) ≡ none) p (lookup-index e.key_ l u.0))
  | no p ↦ ground (arith, lookup-remove key l u.1)
]

-- `Delete` of an open group with a valid cache, for a key that is not empty, returns true and leaves no value for the
-- key, so the next `Get` of the key asks the getter again.
pub get-delete :
    (g : KCacheGroup) (key : Str)
    → IsValid g.cache_
    → g.is_close_ ≡ false
    → key ≢ []
    → (g' : KCacheGroup) × (g'' : KCacheGroup) × (delete g key ≡ some (g', true))
      × (get g' key ≡ some (g'', g.getter_ key))
get-delete g key v running named =
    let (d, deleted, valid, list, log, limit) = delete-remove g.cache_ key v in
    let g' = record g { cache_ = d } in
    let gone : held g' key ≡ none =
      ap (lookup key) list ∙ lookup-remove key g.cache_.list_ v.keyed in
    let r = lookup_or_load_miss g' key valid gone in
    (
      g',
      r.0,
      delete_open g running key named ∙ rw (deleted, ◌>>=◌) refl,
      get_open g' running key named ∙ r.1,
    )

-- On an open group whose cache is valid and has a positive limit, `Set` of an entry that fits the
-- limit, with a key that is not empty, returns true, and the next `Get` of the key returns the value that was set, whatever the getter says.
pub get-set_fits :
    (m : ℕ) (g : KCacheGroup) (key : Str) (value : ByteView)
    → IsValid g.cache_
    → g.is_close_ ≡ false
    → key ≢ []
    → g.cache_.max_bytes_ ≡ pos (suc m)
    → length key + len value ≤ suc m
    → (g' : KCacheGroup) × (g'' : KCacheGroup) × (set g key value ≡ some (g', true))
      × (get g' key ≡ some (g'', some value))
unfolding lookup_or_load
get-set_fits m g key value v running named limit fits =
    let (d, d', stored, got) = get-set m g.cache_ key value v limit fits in
    let g' = record g { cache_ = d } in
    (
      g',
      hit (record g { cache_ = d' }),
      set_open g running key value named ∙ rw (stored, ◌>>=◌) refl,
      get_open g' running key named ∙ rw (got, ◌>>=◌) refl,
    )

-- A closed group refuses every call, and so does an open one for the empty key: nothing changes,
-- and the answer is no value, or false.
refused :
    (g : KCacheGroup) (key : Str) (value : ByteView)
    → (g.is_close_ ≡ true) ⊎ (key ≡ [])
    → (get g key ≡ some (g, none))
      × (set g key value ≡ some (g, false))
      × (delete g key ≡ some (g, false))
      × (invalidate_from_peer g key ≡ some (g, false))
unfolding get set delete invalidate_from_peer
refused g key value (inl closed) = (
  ap (λ b. if b then some (g, none) else open_get) closed,
  ap (λ b. if b then some (g, false) else open_set) closed,
  ap (λ b. if b then some (g, false) else open_delete) closed,
  ap (λ b. if b then some (g, false) else open_delete) closed,
)
  where
    open_get : Option (KCacheGroup × Option ByteView)
    open_get = if is_empty key then some (g, none) else lookup_or_load g key

    open_set : Option (KCacheGroup × Bool)
    open_set = if is_empty key then some (g, false) else (Lru.set g.cache_ key value >>= stored g)

    open_delete : Option (KCacheGroup × Bool)
    open_delete = if is_empty key then some (g, false) else (Lru.delete g.cache_ key >>= stored g)
refused g key value (inr empty) = ground (arith, empty)

-- A call from a peer does what `Delete` does.
pub invalidate_from_peer-delete :
    (g : KCacheGroup) (key : Str) → invalidate_from_peer g key ≡ delete g key
unfolding invalidate_from_peer delete
invalidate_from_peer-delete g key = refl

-- A call is refused, or it goes through the guards.
data Guard (g : KCacheGroup) (key : Str) : Type 0 where
  shut : (g.is_close_ ≡ true) ⊎ (key ≡ []) → Guard g key
  through : g.is_close_ ≡ false → key ≢ [] → Guard g key

guard : (g : KCacheGroup) (key : Str) → Guard g key
guard g key = elim (Bool-cases g.is_close_) [
  | inl closed ↦ shut (inl closed)
  | inr running ↦ elim (str_dec key []) [ yes e ↦ shut (inr e) | no named ↦ through running named ]
]

-- No call on a group with a valid cache is undefined, whether the group is open or not.
module _ (g : KCacheGroup) (key : Str) (v : IsValid g.cache_) where
  pub get_total :
      (g' : KCacheGroup) × (o : Option ByteView) × (get g key ≡ some (g', o)) × IsValid g'.cache_
  get_total = elim (guard g key) [
    | shut why ↦ (g, none, (refused g key (record { data_ = [] }) why).0, v)
    | through running named ↦
        let r = get-read_through g key v running named in (r.0, _, r.1, r.2.valid)
  ]

  pub set_total :
      (value : ByteView)
      → (g' : KCacheGroup) × (b : Bool) × (set g key value ≡ some (g', b)) × IsValid g'.cache_
  set_total value = elim (guard g key) [
    | shut why ↦ (g, false, (refused g key value why).1, v)
    | through running named ↦
        let r = set-kept g.cache_ key value v in
        (
          record g { cache_ = r.0 },
          true,
          set_open g running key value named ∙ rw (r.2, ◌>>=◌) refl,
          r.3,
        )
  ]

  pub delete_total :
      (g' : KCacheGroup) × (b : Bool) × (delete g key ≡ some (g', b)) × IsValid g'.cache_
  delete_total = elim (guard g key) [
    | shut why ↦ (g, false, (refused g key (record { data_ = [] }) why).2, v)
    | through running named ↦
        let r = delete-remove g.cache_ key v in
        (
          record g { cache_ = r.0 },
          true,
          delete_open g running key named ∙ rw (r.1, ◌>>=◌) refl,
          r.2,
        )
  ]
