-- ===== src/Group.antt =====
-- src/group/group.cpp, src/include/kcache/group.h and src/server/server.cpp: the cache groups of a
-- node and its four remote calls. Logging is left out. This file runs one call at a time, where
-- `SingleFlight::Do` runs its function at once. `none` as the whole result is the undefined
-- behaviour of the LRU cache.
pub mod Reads
pub mod Writes
pub mod Rpc
pub mod Service
pub mod Bounds
mod Tests
use youdge.Base.{
  ℕ, zero, suc, ◌+◌, ◌-◌, ◌%◌, ◌^◌, Bool, true, false, List, [], ◌∷◌, Option, none, some, Str,
  str_dec, is_empty, ltb, if◌then◌else◌, ◌>>=◌,
}
use youdge.Base.Int.{ℤ, pos, negsuc}
use youdge.Base.UnorderedMap
use youdge.Lru
use youdge.Lru.{ByteView, LruCache}

pub record GroupStatus : Type 0 where
  pub loads : ℕ
  pub local_hits : ℕ
  pub local_misses : ℕ
  pub peer_hits : ℕ
  pub peer_misses : ℕ
  pub loader_hits : ℕ
  pub loader_errors : ℕ
  pub load_duration : ℕ

abbrev pub DataGetter : Type 0
DataGetter = Str → Option ByteView

pub record KCacheGroup : Type 0 where
  pub cache_ : LruCache
  pub name_ : Str
  pub is_close_ : Bool
  pub getter_ : DataGetter
  pub status_ : GroupStatus

abbrev pub no_status : GroupStatus
no_status = record {
  loads = 0;
  local_hits = 0;
  local_misses = 0;
  peer_hits = 0;
  peer_misses = 0;
  loader_hits = 0;
  loader_errors = 0;
  load_duration = 0;
}

-- An `int64_t` that is passed as an `int`.
unfoldable pub narrow : ℤ → ℤ
narrow (pos n) =
    if ltb (n % 2 ^ 32) (2 ^ 31) then pos (n % 2 ^ 32) else negsuc (2 ^ 32 - n % 2 ^ 32 - 1)
narrow (negsuc n) =
    if ltb (n % 2 ^ 32) (2 ^ 31) then negsuc (n % 2 ^ 32) else pos (2 ^ 32 - n % 2 ^ 32 - 1)

-- The constructor: the cache's limit is an `int`, and no callback is given.
unfoldable pub new_group : Str → ℤ → DataGetter → KCacheGroup
new_group name bytes getter = record {
  cache_ = Lru.init (narrow bytes) false;
  name_ = name;
  is_close_ = false;
  getter_ = getter;
  status_ = no_status;
}

-- Move assignment takes the cache, the name and the getter, and leaves the rest of the target.
unfoldable pub move_assign : KCacheGroup → KCacheGroup → KCacheGroup
move_assign target other = record target {
  cache_ = other.cache_;
  name_ = other.name_;
  getter_ = other.getter_;
}

abbrev pub hit : KCacheGroup → KCacheGroup
hit g = record g { status_ = record (g.status_) { local_hits = g.status_.local_hits + 1 } }

abbrev pub miss : KCacheGroup → KCacheGroup
miss g = record g { status_ = record (g.status_) { local_misses = g.status_.local_misses + 1 } }

unfoldable pub load_data : KCacheGroup → Str → KCacheGroup × Option ByteView
load_data g key = elim (g.getter_ key) [ none ↦ (g, none) | some value ↦ (hit g, some value) ]

-- `Load` once the getter has answered.
unfoldable pub keep_loaded :
    Str → KCacheGroup × Option ByteView → Option (KCacheGroup × Option ByteView)
keep_loaded key (g, none) = some (g, none)
keep_loaded key (g, some value) = do
  cache ← Lru.set g.cache_ key value
  some (record g { cache_ = cache }, some value)

unfoldable pub load : KCacheGroup → Str → Option (KCacheGroup × Option ByteView)
load g key = keep_loaded key (load_data g key)

-- `Get` behind its two guards.
unfoldable pub lookup_or_load : KCacheGroup → Str → Option (KCacheGroup × Option ByteView)
lookup_or_load g key = do
  (cache, ret) ← Lru.get g.cache_ key
  let g' = record g { cache_ = cache }
  elim ret [ some value ↦ some (hit g', some value) | none ↦ load (miss g') key ]

unfoldable pub get : KCacheGroup → Str → Option (KCacheGroup × Option ByteView)
get g key =
    if g.is_close_
    then some (g, none)
    else if is_empty key
    then some (g, none)
    else lookup_or_load g key

unfoldable pub set : KCacheGroup → Str → ByteView → Option (KCacheGroup × Bool)
set g key value =
    if g.is_close_
    then some (g, false)
    else if is_empty key
    then some (g, false)
    else do cache ← Lru.set g.cache_ key value; some (record g { cache_ = cache }, true)

unfoldable pub delete : KCacheGroup → Str → Option (KCacheGroup × Bool)
delete g key =
    if g.is_close_
    then some (g, false)
    else if is_empty key
    then some (g, false)
    else do cache ← Lru.delete g.cache_ key; some (record g { cache_ = cache }, true)

unfoldable pub invalidate_from_peer : KCacheGroup → Str → Option (KCacheGroup × Bool)
invalidate_from_peer g key =
    if g.is_close_
    then some (g, false)
    else if is_empty key
    then some (g, false)
    else do cache ← Lru.delete g.cache_ key; some (record g { cache_ = cache }, true)
