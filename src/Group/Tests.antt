-- ===== src/Group/Tests.antt =====
-- Runs of src/group/group.cpp and src/server/server.cpp, and the theorems at concrete groups.
use youdge.Base.{
  ◌+◌, ◌*◌, ◌^◌, ◌≡◌, refl, List, [], ◌∷◌, true, false, some, Str, str_dec, codes, arith,
}
use youdge.Base.Int.{pos}
use youdge.Base.UnorderedMap
use youdge.Lru.{ByteView}
use youdge.Lru
use youdge.Lru.Invariant.{IsValid, init-IsValid}
use youdge.Group.{KCacheGroup, DataGetter, new_group, narrow, get}
use youdge.Group.Reads.{held, read_through, Same, answered, get-read_through}
use youdge.Group.Rpc.{Groups, get_cache_group, ok, update, rpc_get, rpc_set, rpc_invalidate}
use youdge.Group.Service.{
  AllValid, AllValid-update, Request, gets, sets, deletes, invalidates, serve_all,
  serve_all-AllValid, rpc_get-set, rpc_get-invalidate,
}
use youdge.Group.Bounds.{new_group_limit}

abbrev view : Str → ByteView
view s = record { data_ = s }

-- A source that knows one key.
abbrev source : DataGetter
source key = UnorderedMap.find str_dec key ((codes "Tom", view (codes "630")) ∷ [])

abbrev scores : KCacheGroup
scores = new_group (codes "score") (pos 64) source

scores-IsValid : IsValid scores.cache_
unfolding new_group
scores-IsValid = init-IsValid (narrow (pos 64)) false

running : scores.is_close_ ≡ false
unfolding new_group
running = refl

abbrev node : Groups
node = update [] (codes "score") scores

node-AllValid : AllValid node
unfolding UnorderedMap.find
node-AllValid = AllValid-update [] (codes "score") scores (λ n g e. cc) scores-IsValid

get-read_through_example :
    (g : KCacheGroup) × (get scores (codes "Tom")
      ≡ some (g, read_through (held scores (codes "Tom")) (scores.getter_ (codes "Tom"))))
    × Same scores g
    × (g.status_
        ≡ answered scores.status_ (held scores (codes "Tom")) (scores.getter_ (codes "Tom")))
get-read_through_example = get-read_through scores (codes "Tom") scores-IsValid running (λ e. cc)

limited : scores.cache_.max_bytes_ ≡ pos 64
unfolding new_group narrow Lru.init
limited = refl

new_group_limit_example :
    (new_group (codes "score") (pos (1 * 2 ^ 32 + 0)) source).cache_.max_bytes_ ≡ pos 0
new_group_limit_example = new_group_limit (codes "score") source 1 0 (omega arith)

abbrev requests : List Request
requests =
    gets (codes "score") (codes "Tom")
    ∷ sets (codes "score") (codes "Sam") (codes "567")
    ∷ invalidates (codes "score") (codes "Sam")
    ∷ deletes (codes "other") (codes "Sam")
    ∷ []

serve_all-AllValid_example :
    (groups : Groups) × (serve_all requests node ≡ some groups) × AllValid groups
serve_all-AllValid_example = serve_all-AllValid requests node node-AllValid

in_node : get_cache_group node (codes "score") ≡ some scores
unfolding UnorderedMap.find UnorderedMap.insert UnorderedMap.erase str_dec
in_node = refl

rpc_get-set_example :
    (groups : Groups) × (groups' : Groups) × (rpc_set node
        (codes "score")
        (codes "Sam")
        (codes "567")
      ≡ some (groups, ok, true))
    × (rpc_get groups (codes "score") (codes "Sam") ≡ some (groups', ok, codes "567"))
rpc_get-set_example =
    rpc_get-set node (codes "score") scores 63 (codes "Sam") (codes "567") node-AllValid in_node
      running (λ e. cc) limited (omega arith)

known : scores.getter_ (codes "Tom") ≡ some (view (codes "630"))
unfolding new_group str_dec UnorderedMap.find
known = refl

rpc_get-invalidate_example :
    (groups : Groups) × (groups' : Groups) × (rpc_invalidate node (codes "score") (codes "Tom")
      ≡ some (groups, ok, true))
    × (rpc_get groups (codes "score") (codes "Tom") ≡ some (groups', ok, codes "630"))
rpc_get-invalidate_example =
    rpc_get-invalidate node (codes "score") scores (codes "Tom") (view (codes "630")) node-AllValid
      in_node running (λ e. cc) known
