-- ===== src/Ring/Limits.antt =====
-- The balancer keeps the ring valid and the numbers of virtual nodes within their limits, whatever
-- the doubles compute.
use youdge.Base.{
  ℕ, ◌≡◌, refl, sym, subst, ◌≢◌, inl, inr, ◌⊎◌, List, [], ◌∷◌, Option, none, some, ite, if_pos,
  if_neg, Str, str_dec, is_empty, arith, Bool-cases,
}
use youdge.Base.Int.{ℤ, pos_part, ◌≤ℤ◌, ℤ_discrete}
use youdge.Base.UnorderedMap
use youdge.Ring.{HashConfig, Ring, int_or_zero, add_node}
use youdge.Ring.Members.{remove_vnodes-SameRest}
use youdge.Ring.Invariant.{
  IsLinked, IsValid, Admits, add_node-IsLinked, add_node_rest, sorted-IsValid,
}
use youdge.Ring.Removal.{without, without-IsLinked}
use youdge.Ring.Balance.{
  Doubles, clamp, adjusted, rebalanced, new_replicas, load_ratio, replace_node, rebalance_node,
  rebalance_loop, rebalance_nodes, average,
}

-- No counted name is empty.
abbrev pub AllNamed : List (Str × ℕ) → Type 0
AllNamed [] = Unit {0}
AllNamed ((node, count) ∷ counts) = (node ≢ []) × AllNamed counts

-- A registered node has a number of virtual nodes within the limits.
abbrev pub InLimits : HashConfig → Option ℤ → Type 0
InLimits cfg none = Unit {0}
InLimits cfg (some r) = (cfg.min_replicas ≤ℤ r) × (r ≤ℤ cfg.max_replicas)

Admits-erase :
    (reps : List (Str × ℤ)) (node : Str) (c : ℤ)
    → Admits (UnorderedMap.find str_dec node (UnorderedMap.erase str_dec node reps)) c
Admits-erase reps node c =
    subst (λ o. Admits o c) (sym (UnorderedMap.find-erase str_dec node node reps))
      (rw (if_pos (str_dec node node) refl) tt)

module _ (d : Doubles) where
  replace_node-without :
      (m : Ring) (node : Str) (replicas : ℤ)
      → replace_node d m node replicas
        ≡ add_node
            (without m node
              (int_or_zero (UnorderedMap.find str_dec node m.node_replicas_))
              m.node_counts_)
            node
            replicas
  unfolding replace_node without
  replace_node-without m node replicas =
      let r = int_or_zero (UnorderedMap.find str_dec node m.node_replicas_) in
      let rest = remove_vnodes-SameRest (pos_part r) 0 node m in
      rw (rest.replicas, rest.counts) refl

  Admits-without :
      (m : Ring) (node : Str) (replicas : ℤ)
      → Admits
          (UnorderedMap.find str_dec node
            (without m node
              (int_or_zero (UnorderedMap.find str_dec node m.node_replicas_))
              m.node_counts_).node_replicas_)
          replicas
  unfolding without
  Admits-without m node replicas = Admits-erase m.node_replicas_ node replicas

  replace_node-IsLinked :
      (m : Ring) (node : Str) (replicas : ℤ)
      → node ≢ []
      → IsLinked m
      → IsLinked (replace_node d m node replicas)
  replace_node-IsLinked m node replicas named v = rw (replace_node-without m node replicas) (
      add_node-IsLinked _ node replicas named (Admits-without m node replicas)
        (without-IsLinked m node _ m.node_counts_ refl v))

  clamp_bounds :
      (cfg : HashConfig) (n : ℤ)
      → cfg.min_replicas ≤ℤ cfg.max_replicas
      → (cfg.min_replicas ≤ℤ clamp d cfg n) × (clamp d cfg n ≤ℤ cfg.max_replicas)
  unfolding clamp
  clamp_bounds cfg n h = ground arith

  new_replicas_bounds :
      (cfg : HashConfig) (old : ℤ) (ratio : d.Double)
      → cfg.min_replicas ≤ℤ cfg.max_replicas
      → (cfg.min_replicas ≤ℤ new_replicas d cfg old ratio)
        × (new_replicas d cfg old ratio ≤ℤ cfg.max_replicas)
  unfolding new_replicas
  new_replicas_bounds cfg old ratio h = clamp_bounds cfg (adjusted d old ratio) h

  rebalance_node-IsLinked :
      (avg : d.Double) (curr : List (Str × ℤ)) (m : Ring) (node : Str) (count : ℕ)
      → node ≢ []
      → IsLinked m
      → IsLinked (rebalance_node d avg curr m node count)
  unfolding rebalance_node
  rebalance_node-IsLinked avg curr m node count named v =
      let new =
        new_replicas d m.config_ (int_or_zero (UnorderedMap.find str_dec node curr))
          (load_ratio d avg count) in
      elim (ℤ_discrete new (int_or_zero (UnorderedMap.find str_dec node curr))) [
        | yes p ↦ rw (if_pos _ p) v
        | no p ↦ rw (if_neg _ p) (replace_node-IsLinked m node new named v)
      ]

  rebalance_loop-IsLinked :
      (avg : d.Double) (curr : List (Str × ℤ)) (counts : List (Str × ℕ)) (m : Ring)
      → AllNamed counts
      → IsLinked m
      → IsLinked (rebalance_loop d avg curr counts m)
  unfolding rebalance_loop
  rebalance_loop-IsLinked avg curr [] m named v = v
  rebalance_loop-IsLinked avg curr ((node, count) ∷ counts) m named v =
      rebalance_loop-IsLinked avg curr counts _ named.1
        (rebalance_node-IsLinked avg curr m node count named.0 v)

  rebalanced-IsValid : (m : Ring) → AllNamed m.node_counts_ → IsValid m → IsValid (rebalanced d m)
  unfolding rebalanced
  rebalanced-IsValid m named v =
      let l =
        rebalance_loop-IsLinked (average d m) m.node_replicas_ m.node_counts_ m named v.linked in
      sorted-IsValid _ (record { mapped = l.mapped; owned = l.owned })

  -- `RebalanceNodes` keeps the ring sorted and linked, whatever the doubles compute, if no load
  -- count stands under the empty name.
  pub rebalance_nodes-IsValid :
      (m : Ring) → AllNamed m.node_counts_ → IsValid m → IsValid (rebalance_nodes d m)
  unfolding rebalance_nodes
  rebalance_nodes-IsValid m named v = elim (Bool-cases (is_empty m.node_replicas_)) [
    | inl e ↦ rw e v
    | inr e ↦ rw e (rebalanced-IsValid m named v)
  ]

  pub find-replace_node :
      (m : Ring) (node n : Str) (new : ℤ)
      → UnorderedMap.find str_dec n (replace_node d m node new).node_replicas_
        ≡ ite (str_dec node n) (some new) (UnorderedMap.find str_dec n m.node_replicas_)
  unfolding without
  find-replace_node m node n new =
      let r = int_or_zero (UnorderedMap.find str_dec node m.node_replicas_) in
      rw
        (
          replace_node-without m node new,
          (add_node_rest (without m node r m.node_counts_) node new).1,
        )
        (ground (
          arith,
          UnorderedMap.find-insert str_dec node n new
              (UnorderedMap.erase str_dec node m.node_replicas_),
          UnorderedMap.find-erase str_dec node n m.node_replicas_,
        ))

  pub replace_node_config :
      (m : Ring) (node : Str) (new : ℤ) → (replace_node d m node new).config_ ≡ m.config_
  unfolding without
  replace_node_config m node new =
      let r = int_or_zero (UnorderedMap.find str_dec node m.node_replicas_) in
      rw
        (
          replace_node-without m node new,
          (add_node_rest (without m node r m.node_counts_) node new).0,
        )
        (remove_vnodes-SameRest (pos_part r) 0 node m).config

  -- A round leaves the ring as it was, or replaces the node by a number within the limits.
  pub rebalance_round :
      (avg : d.Double) (curr : List (Str × ℤ)) (m : Ring) (node : Str) (count : ℕ)
      → m.config_.min_replicas ≤ℤ m.config_.max_replicas
      → (new : ℤ) × InLimits m.config_ (some new)
        × (((rebalance_node d avg curr m node count ≡ m)
              × (new ≡ int_or_zero (UnorderedMap.find str_dec node curr)))
            ⊎ (rebalance_node d avg curr m node count ≡ replace_node d m node new))
  unfolding rebalance_node
  rebalance_round avg curr m node count h =
      let old = int_or_zero (UnorderedMap.find str_dec node curr) in
      let new = new_replicas d m.config_ old (load_ratio d avg count) in
      (
        new,
        new_replicas_bounds m.config_ old (load_ratio d avg count) h,
        elim (ℤ_discrete new old) [
          | yes p ↦ inl (if_pos (ℤ_discrete new old) p _ _, p)
          | no p ↦ inr (if_neg (ℤ_discrete new old) p _ _)
        ],
      )
