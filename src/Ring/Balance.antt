-- ===== src/Ring/Balance.antt =====
-- `CheckAndRebalance` and `RebalanceNodes` of src/consistent_hash/consistent_hash.cpp. The loops go
-- over the maps in list order.
use youdge.Base.{
  ℕ, Bool, List, [], ◌∷◌, ite, Str, str_dec, length, is_empty, map, ltb, if◌then◌else◌,
}
use youdge.Base.Int.{ℤ, pos_part, ltb_ℤ, ℤ_discrete}
use youdge.Base.UnorderedMap
use youdge.Ring.{HashConfig, Ring, int_or_zero, add_node, remove_vnodes, sorted}

-- IEEE doubles, of which the model uses the operations alone.
pub record Doubles : Type 1 where
  pub Double : Type 0
  pub of_long : ℕ → Double
  pub of_int : ℤ → Double
  pub div : Double → Double → Double
  pub mul : Double → Double → Double
  pub sub : Double → Double → Double
  pub abs : Double → Double
  pub gt : Double → Double → Bool
  pub round_to_int : Double → ℤ

module _ (d : Doubles) where
  open d use {Double, of_long, of_int, div, mul, sub, abs, gt, round_to_int}

  unfoldable pub load_ratio : Double → ℕ → Double
  load_ratio avg_load count =
      if gt avg_load (of_long 0)
      then div (of_long count) avg_load
      else if ltb 0 count
      then of_long 2
      else of_long 1

  -- Both bounds of the configuration are applied, the upper one last.
  unfoldable pub clamp : HashConfig → ℤ → ℤ
  clamp cfg n =
      let low = if ltb_ℤ n cfg.min_replicas then cfg.min_replicas else n in
      if ltb_ℤ cfg.max_replicas low then cfg.max_replicas else low

  unfoldable pub adjusted : ℤ → Double → ℤ
  adjusted old ratio =
      if gt ratio (of_long 1)
      then round_to_int (div (of_int old) ratio)
      else round_to_int (mul (of_int old) (sub (of_long 2) ratio))

  unfoldable pub new_replicas : HashConfig → ℤ → Double → ℤ
  new_replicas cfg old ratio = clamp cfg (adjusted old ratio)

  -- `node_replicas_[node]` virtual nodes leave the ring, and `replicas` new ones come.
  unfoldable pub replace_node : Ring → Str → ℤ → Ring
  replace_node m node replicas =
      let to_remove = int_or_zero (UnorderedMap.find str_dec node m.node_replicas_) in
      let r = remove_vnodes (pos_part to_remove) 0 node m in
      add_node (record r { node_replicas_ = UnorderedMap.erase str_dec node r.node_replicas_ }) node
        replicas

  -- One round of the loop over `curr_counts`; `curr` is the copy of the replica map.
  unfoldable pub rebalance_node : Double → List (Str × ℤ) → Ring → Str → ℕ → Ring
  rebalance_node avg_load curr m node count =
      let old = int_or_zero (UnorderedMap.find str_dec node curr) in
      let new = new_replicas m.config_ old (load_ratio avg_load count) in
      ite (ℤ_discrete new old) m (replace_node m node new)

  unfoldable pub rebalance_loop : Double → List (Str × ℤ) → List (Str × ℕ) → Ring → Ring
  rebalance_loop avg_load curr [] m = m
  rebalance_loop avg_load curr ((node, count) ∷ counts) m =
      rebalance_loop avg_load curr counts (rebalance_node avg_load curr m node count)

  abbrev pub average : Ring → Double
  average m = div (of_long m.total_requests_) (of_long (length m.node_replicas_))

  -- The body behind the guard: the loop, the reset of the counters, the sort.
  unfoldable pub rebalanced : Ring → Ring
  rebalanced m =
      let r = rebalance_loop (average m) m.node_replicas_ m.node_counts_ m in
      sorted (record r { node_counts_ = map (λ e. (e.0, 0)) r.node_counts_; total_requests_ = 0 })

  unfoldable pub rebalance_nodes : Ring → Ring
  rebalance_nodes m = if is_empty m.node_replicas_ then m else rebalanced m

  -- The largest relative deviation from the average, over the counts.
  unfoldable pub max_deviation : Double → List (Str × ℕ) → Double → Double
  max_deviation avg_load [] max_diff = max_diff
  max_deviation avg_load ((node, count) ∷ counts) max_diff =
      let diff = abs (sub (of_long count) avg_load) in
      max_deviation avg_load counts (
        if gt avg_load (of_long 0)
        then (if gt (div diff avg_load) max_diff then div diff avg_load else max_diff)
        else if gt diff (of_long 0)
        then of_long 1
        else max_diff)

  -- The write lock is taken anew for `RebalanceNodes`; here no other call comes in between.
  unfoldable pub check_and_rebalance : Double → Ring → Ring
  check_and_rebalance threshold m =
      if ltb m.total_requests_ 1000
      then m
      else if is_empty m.node_replicas_
      then m
      else if gt (max_deviation (average m) m.node_counts_ (of_long 0)) threshold
      then rebalance_nodes m
      else m
