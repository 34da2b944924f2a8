-- ===== src/Group/Bounds.antt =====
-- The byte limit of src/include/kcache/group.h, an `int64_t`, on its way to the `int` of the cache.
use youdge.Base.{ℕ, ◌+◌, ◌*◌, ◌%◌, ◌^◌, ◌<◌, ◌≡◌, Str, arith}
use youdge.Base.Int.{pos}
use youdge.Lru
use youdge.Group.{DataGetter, new_group, narrow}

low_bits : (k r : ℕ) → r < 2 ^ 31 → (k * 2 ^ 32 + r) % 2 ^ 32 ≡ r
low_bits k r small = omega arith

-- The limit of a new group keeps only the low 32 bits of what was asked for, if these are below
-- 2^31: it is exact below 2^31, and a multiple of 2^32 becomes 0, which is no limit at all.
pub new_group_limit :
    (name : Str) (getter : DataGetter) (k r : ℕ)
    → r < 2 ^ 31
    → (new_group name (pos (k * 2 ^ 32 + r)) getter).cache_.max_bytes_ ≡ pos r
unfolding new_group narrow Lru.init
new_group_limit name getter k r small = ground (arith, low_bits k r small)
