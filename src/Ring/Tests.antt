-- ===== src/Ring/Tests.antt =====
-- Runs of the ring, and its theorems at concrete rings.
use youdge.Base.{
  ℕ, ◌-◌, ◌*◌, ◌/◌, ltb, ◌≡◌, refl, ◌⊎◌, ◌≢◌, [], ◌∷◌, Str, str_dec, codes, arith, length,
  ℕ_discrete,
}
use youdge.Base.Int.{pos, pos_part}
use youdge.Base.UnorderedMap
use youdge.Ring.{
  HashConfig, Ring, init, digits, hash_key, remove_hash, insert_sorted, sort, lower_bound,
  add_vnodes, add_node, add_nodes, add, remove_vnodes, remove, ring_position, owner, count_request,
  get,
}
use youdge.Ring.Crc32.{
  crc32_table, get_or, crc32_round, crc32_loop, crc32_ieee, poly_steps, table-poly_steps,
}
use youdge.Ring.Members.{covers, mem}
use youdge.Ring.Invariant.{IsValid, init-IsValid, add-IsValid}
use youdge.Ring.Routing.{route, Routed, get-Routed, route-add}
use youdge.Ring.Departure.{route-remove_ne, route-remove_stays}
use youdge.Ring.Balance.{Doubles, rebalanced, rebalance_nodes}
use youdge.Ring.Limits.{rebalance_nodes-IsValid}
use youdge.Ring.Bounds.{AllInLimits, rebalanced-AllInLimits}

run : Unit {0}
unfolding init digits hash_key remove_hash insert_sorted sort lower_bound add_vnodes add_node
    add_nodes add remove_vnodes remove ring_position owner count_request get str_dec ℕ_discrete
    UnorderedMap.find UnorderedMap.insert UnorderedMap.erase crc32_table get_or crc32_round
    crc32_loop crc32_ieee covers mem
run = tt

-- The check value of the standard.
check_value : crc32_ieee (codes "123456789") ≡ 0xcbf4_3926
unfolding run
check_value = refl

table-poly_steps_example : get_or crc32_table 255 0 ≡ poly_steps 8 255
table-poly_steps_example = table-poly_steps 255 (omega arith)

abbrev config : HashConfig
config = record {
  replicas = pos 3;
  min_replicas = pos 2;
  max_replicas = pos 5;
  hash_func = crc32_ieee;
}

abbrev node_a : Str
node_a = codes "node1"

abbrev node_b : Str
node_b = codes "node2"

one : Ring
one = (add (init config) (node_a ∷ [])).0

both : Ring
both = (add one (node_b ∷ [])).0

one-IsValid : IsValid one
unfolding one run
one-IsValid = add-IsValid (init config) (node_a ∷ []) (tt, tt) (init-IsValid config)

both-IsValid : IsValid both
unfolding both one run
both-IsValid = add-IsValid one (node_b ∷ []) (tt, tt) one-IsValid

-- A ring with the length of a text for its hash, and one virtual node for each node.
abbrev small_config : HashConfig
small_config = record {
  replicas = pos 1;
  min_replicas = pos 1;
  max_replicas = pos 2;
  hash_func = length;
}

small : Ring
small = (add (init small_config) (codes "a" ∷ codes "bb" ∷ [])).0

small_keys : small.keys_ ≡ 3 ∷ 4 ∷ []
unfolding small run
small_keys = refl

small-IsValid : IsValid small
unfolding small run
small-IsValid =
    add-IsValid (init small_config) (codes "a" ∷ codes "bb" ∷ []) (tt, (tt, tt))
      (init-IsValid small_config)

get-Routed_example : Routed both (codes "key1")
get-Routed_example = get-Routed both b'k' (codes "ey1") both-IsValid

route-add_example :
    (route (add one (node_b ∷ [])).0 (codes "key1") ≡ node_b)
    ⊎ (route (add one (node_b ∷ [])).0 (codes "key1") ≡ route one (codes "key1"))
unfolding one run
route-add_example = route-add one b'n' (codes "ode2") (codes "key1") one-IsValid tt

route-remove_ne_example : route (remove both node_b).0 (codes "key1") ≢ node_b
unfolding both one run
route-remove_ne_example =
    route-remove_ne both node_b (pos 3) (codes "key1") both-IsValid (λ e. cc) refl

-- Doubles that round every result down.
abbrev floors : Doubles
floors = record {
  Double = ℕ;
  of_long = λ n. n;
  of_int = pos_part;
  div = ◌/◌;
  mul = ◌*◌;
  sub = ◌-◌;
  abs = λ x. x;
  gt = λ x y. ltb y x;
  round_to_int = pos;
}

rebalance_nodes-IsValid_example : IsValid (rebalance_nodes floors both)
unfolding both one run
rebalance_nodes-IsValid_example =
    rebalance_nodes-IsValid floors both ((λ e. cc), ((λ e. cc), tt)) both-IsValid

rebalanced-AllInLimits_example : AllInLimits config (rebalanced floors both) both.node_counts_
unfolding both one run
rebalanced-AllInLimits_example = rebalanced-AllInLimits floors both (omega arith)

route-remove_stays_example :
    route (remove small (codes "bb")).0 (codes "k") ≡ route small (codes "k")
unfolding small run
route-remove_stays_example =
    route-remove_stays small (codes "bb") (pos 1) (codes "k") small-IsValid (λ e. cc) refl
      (λ h e. ground arith) (λ e. cc)
