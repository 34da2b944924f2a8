-- ===== src/Group/Rpc.antt =====
-- The registry of cache groups (src/group/group.cpp) and the four remote calls of a node
-- (src/server/server.cpp). A reply is a status code and the field of the response; `set_value` is
-- not called on the error paths, where the field keeps its protobuf default. The outer `none` is
-- the undefined behaviour of the LRU cache, and in `make_cache_group` the exit of the process.
use youdge.Base.{Bool, false, List, [], Option, none, some, Str, str_dec, ◌>>=◌}
use youdge.Base.Int.{ℤ}
use youdge.Base.UnorderedMap
use youdge.Lru.{ByteView}
use youdge.Group.{KCacheGroup, DataGetter, new_group, move_assign}
use youdge.Group

abbrev pub Groups : Type 0
Groups = List (Str × KCacheGroup)

-- `cache_groups[name] = std::move(KCacheGroup{name, bytes, getter})`, where a name that is new
-- stands for a group with every field at its default.
unfoldable pub make_cache_group : Groups → Str → ℤ → Option DataGetter → Option Groups
make_cache_group groups name bytes none = none
make_cache_group groups name bytes (some getter) =
    let made = new_group name bytes getter in
    some (
      UnorderedMap.insert str_dec name
        (elim (UnorderedMap.find str_dec name groups) [
          | none ↦ made
          | some target ↦ move_assign target made
        ])
        groups)

abbrev pub get_cache_group : Groups → Str → Option KCacheGroup
get_cache_group groups name = UnorderedMap.find str_dec name groups

pub data StatusCode : Type 0 where
  ok : StatusCode
  not_found : StatusCode

abbrev pub Reply : Type 0 → Type 0
Reply A = Option (Groups × StatusCode × A)

-- The group that a pointer into the map leads to has changed.
abbrev pub update : Groups → Str → KCacheGroup → Groups
update groups name g = UnorderedMap.insert str_dec name g groups

abbrev pub value_reply : Groups → Str → KCacheGroup × Option ByteView → Reply Str
value_reply groups name (g, none) = some (update groups name g, not_found, [])
value_reply groups name (g, some value) = some (update groups name g, ok, value.data_)

abbrev pub bool_reply : Groups → Str → KCacheGroup × Bool → Reply Bool
bool_reply groups name (g, done) = some (update groups name g, ok, done)

unfoldable pub rpc_get : Groups → Str → Str → Reply Str
rpc_get groups name key = elim (get_cache_group groups name) [
  | none ↦ some (groups, not_found, [])
  | some g ↦ Group.get g key >>= value_reply groups name
]

unfoldable pub rpc_set : Groups → Str → Str → Str → Reply Bool
rpc_set groups name key value = elim (get_cache_group groups name) [
  | none ↦ some (groups, not_found, false)
  | some g ↦ Group.set g key (record { data_ = value }) >>= bool_reply groups name
]

unfoldable pub rpc_delete : Groups → Str → Str → Reply Bool
rpc_delete groups name key = elim (get_cache_group groups name) [
  | none ↦ some (groups, not_found, false)
  | some g ↦ Group.delete g key >>= bool_reply groups name
]

unfoldable pub rpc_invalidate : Groups → Str → Str → Reply Bool
rpc_invalidate groups name key = elim (get_cache_group groups name) [
  | none ↦ some (groups, not_found, false)
  | some g ↦ Group.invalidate_from_peer g key >>= bool_reply groups name
]
