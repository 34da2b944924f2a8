-- ===== src/Group/Reads.antt =====
-- What a group answers, over the contents of its cache and its getter.
use youdge.Base.{
  ◌+◌, ◌≡◌, refl, ap, ◌∙◌, ◌≢◌, inl, inr, Bool, true, false, [], ◌∷◌, Option, none, some, Str,
  if◌then◌else◌, ◌>>=◌, Option-cases,
}
use youdge.Lru
use youdge.Lru.{ByteView, LruCache, Entry, Node, len}
use youdge.Lru.Nodes.{entries, lookup}
use youdge.Lru.Invariant.{IsValid}
use youdge.Lru.Methods.{get-touch, set-kept}
use youdge.Group.{
  GroupStatus, KCacheGroup, load, keep_loaded, load_data, lookup_or_load, get, set, delete, hit,
  miss,
}

-- What a group holds for a key.
abbrev pub held : KCacheGroup → Str → Option ByteView
held g key = lookup key (entries g.cache_.list_)

-- What `Get` answers: the cache first, then the source.
abbrev pub read_through : Option ByteView → Option ByteView → Option ByteView
read_through none source = source
read_through (some value) source = some value

-- The counters after a `Get`: a value that the getter supplies counts as a miss and as a hit.
abbrev pub answered : GroupStatus → Option ByteView → Option ByteView → GroupStatus
answered st (some value) source = record st { local_hits = st.local_hits + 1 }
answered st none (some value) = record st {
  local_hits = st.local_hits + 1;
  local_misses = st.local_misses + 1;
}
answered st none none = record st { local_misses = st.local_misses + 1 }

-- What every call leaves of a group.
pub record Same (g g' : KCacheGroup) : Type 0 where
  pub valid : IsValid g'.cache_
  pub limit : g'.cache_.max_bytes_ ≡ g.cache_.max_bytes_
  pub state : g'.is_close_ ≡ g.is_close_
  pub getter : g'.getter_ ≡ g.getter_

lookup_or_load_hit :
    (g : KCacheGroup) (key : Str) (value : ByteView)
    → IsValid g.cache_
    → held g key ≡ some value
    → (g' : KCacheGroup) × (lookup_or_load g key ≡ some (g', some value))
      × Same g g'
      × (g'.status_ ≡ answered g.status_ (some value) none)
unfolding lookup_or_load
lookup_or_load_hit g key value v h =
    let (c, got, valid, list, bytes, log, limit) = get-touch g.cache_ key v in
    (
      hit (record g { cache_ = c }),
      rw (got, ◌>>=◌, h) refl,
      record { valid = valid; limit = limit; state = refl; getter = refl },
      refl,
    )

load_data-none : (g : KCacheGroup) (key : Str) → g.getter_ key ≡ none → load_data g key ≡ (g, none)
unfolding load_data
load_data-none g key h = rw (h, load_data) refl

load_data-some :
    (g : KCacheGroup) (key : Str) (value : ByteView)
    → g.getter_ key ≡ some value
    → load_data g key ≡ (hit g, some value)
unfolding load_data
load_data-some g key value h = rw (h, load_data) refl

-- A miss goes to the getter.
pub lookup_or_load_miss :
    (g : KCacheGroup) (key : Str)
    → IsValid g.cache_
    → held g key ≡ none
    → (g' : KCacheGroup) × (lookup_or_load g key ≡ some (g', g.getter_ key))
      × Same g g'
      × (g'.status_ ≡ answered g.status_ none (g.getter_ key))
unfolding lookup_or_load load keep_loaded
lookup_or_load_miss g key v h =
    let (c, got, valid, list, bytes, log, limit) = get-touch g.cache_ key v in
    let missed = miss (record g { cache_ = c }) in
    elim (Option-cases (g.getter_ key)) [
      | inl absent ↦ (
        missed,
        rw (got, ◌>>=◌, h, absent) (ap (keep_loaded key) (load_data-none missed key absent)),
        record { valid = valid; limit = limit; state = refl; getter = refl },
        rw absent refl,
      )
      | inr (value, found) ↦
          let (d, dropped, stored, valid', list', split, log', limit') =
            set-kept c key value valid in
          (
            hit (record missed { cache_ = d }),
            rw (got, ◌>>=◌, h, found)
                (ap (keep_loaded key) (load_data-some missed key value found)
                  ∙ rw (stored, ◌>>=◌) refl),
            record { valid = valid'; limit = limit' ∙ limit; state = refl; getter = refl },
            rw found refl,
          )
    ]

-- The end of a call that changes the cache.
abbrev pub stored : KCacheGroup → LruCache → Option (KCacheGroup × Bool)
stored g cache = some (record g { cache_ = cache }, true)

-- The guards of an open group let every key through that is not empty.
module _ (g : KCacheGroup) (running : g.is_close_ ≡ false) where
  pub get_open : (key : Str) → key ≢ [] → get g key ≡ lookup_or_load g key
  unfolding get
  get_open [] named = absurd (named refl)
  get_open (c ∷ key) named =
      ap (λ b. if b then some (g, none) else lookup_or_load g (c ∷ key)) running

  pub set_open :
      (key : Str) (value : ByteView)
      → key ≢ []
      → set g key value ≡ (Lru.set g.cache_ key value >>= stored g)
  unfolding set
  set_open [] value named = absurd (named refl)
  set_open (c ∷ key) value named =
      ap (λ b. if b then some (g, false) else (Lru.set g.cache_ (c ∷ key) value >>= stored g))
        running

  pub delete_open : (key : Str) → key ≢ [] → delete g key ≡ (Lru.delete g.cache_ key >>= stored g)
  unfolding delete
  delete_open [] named = absurd (named refl)
  delete_open (c ∷ key) named =
      ap (λ b. if b then some (g, false) else (Lru.delete g.cache_ (c ∷ key) >>= stored g)) running

-- `Get` of an open group with a valid cache, for a key that is not empty, answers from the cache, and from the getter
-- only where the cache has no value. The cache stays valid, and the two counters that the call
-- touches count as `answered` says.
pub get-read_through :
    (g : KCacheGroup) (key : Str)
    → IsValid g.cache_
    → g.is_close_ ≡ false
    → key ≢ []
    → (g' : KCacheGroup) × (get g key ≡ some (g', read_through (held g key) (g.getter_ key)))
      × Same g g'
      × (g'.status_ ≡ answered g.status_ (held g key) (g.getter_ key))
get-read_through g key v running named = elim (Option-cases (held g key)) [
  | inl none_held ↦
      let r = lookup_or_load_miss g key v none_held in
      (r.0, get_open g running key named ∙ rw none_held r.1, r.2, rw none_held r.3)
  | inr (value, is_held) ↦
      let r = lookup_or_load_hit g key value v is_held in
      (r.0, get_open g running key named ∙ rw is_held r.1, r.2, rw is_held r.3)
]
