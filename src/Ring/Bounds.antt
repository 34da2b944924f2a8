-- ===== src/Ring/Bounds.antt =====
-- After `RebalanceNodes` the nodes that have a load count are within the limits.
use youdge.Base.{
  ℕ, ◌≡◌, refl, sym, ap, subst, ◌∙◌, ◌⊎◌, inl, inr, List, [], ◌∷◌, Option, none, some, if_pos,
  if_neg, Str, str_dec, map,
}
use youdge.Base.Int.{ℤ, ◌≤ℤ◌}
use youdge.Base.UnorderedMap
use youdge.Ring.{HashConfig, Ring, int_or_zero, sorted}
use youdge.Ring.Balance.{Doubles, rebalance_node, rebalance_loop, rebalanced, average}
use youdge.Ring.Limits.{InLimits, find-replace_node, replace_node_config, rebalance_round}

-- What the replica map says of a node.
abbrev found : Ring → Str → Option ℤ
found m n = UnorderedMap.find str_dec n m.node_replicas_

-- Each node that has a count is within the limits, if it is registered.
abbrev pub AllInLimits : HashConfig → Ring → List (Str × ℕ) → Type 0
AllInLimits cfg m [] = Unit {0}
AllInLimits cfg m ((node, count) ∷ counts) = InLimits cfg (found m node) × AllInLimits cfg m counts

module _ (d : Doubles) (avg : d.Double) (curr : List (Str × ℤ)) (cfg : HashConfig)
    (ok : cfg.min_replicas ≤ℤ cfg.max_replicas) where
  abbrev round : Ring → Str → ℕ → Ring
  round m node count = rebalance_node d avg curr m node count

  round_config :
      (m : Ring) (node : Str) (count : ℕ) → m.config_ ≡ cfg → (round m node count).config_ ≡ cfg
  round_config m node count e =
      let (new, lim, which) =
        rebalance_round d avg curr m node count
          (subst (λ (c : HashConfig). c.min_replicas ≤ℤ c.max_replicas) (sym e) ok) in
      elim which [
        | inl same ↦ ap (λ (r : Ring). r.config_) same.0 ∙ e
        | inr replaced ↦
            ap (λ (r : Ring). r.config_) replaced ∙ replace_node_config d m node new ∙ e
      ]

  -- What holds of an entry, and of any number within the limits, holds after a round.
  round_keeps :
      (P : Option ℤ → Type 0) (m : Ring) (node n : Str) (count : ℕ)
      → m.config_ ≡ cfg
      → ((new : ℤ) → InLimits cfg (some new) → P (some new))
      → P (found m n)
      → P (found (round m node count) n)
  round_keeps P m node n count e new_ok h =
      let (new, lim, which) =
        rebalance_round d avg curr m node count
          (subst (λ (c : HashConfig). c.min_replicas ≤ℤ c.max_replicas) (sym e) ok) in
      elim which [
        | inl same ↦ subst (λ (r : Ring). P (found r n)) (sym same.0) h
        | inr replaced ↦
            subst (λ (r : Ring). P (found r n)) (sym replaced)
              (subst P (sym (find-replace_node d m node n new)) (elim (str_dec node n) [
                | yes p ↦ rw (if_pos _ p) (new_ok new (subst (λ c. InLimits c (some new)) e lim))
                | no p ↦ rw (if_neg _ p) h
              ]))
      ]

  -- An entry is the copy's, or within the limits.
  Agrees : Str → Option ℤ → Type 0
  Agrees n o = (o ≡ UnorderedMap.find str_dec n curr) ⊎ InLimits cfg o

  round_reaches :
      (m : Ring) (node : Str) (count : ℕ)
      → m.config_ ≡ cfg
      → Agrees node (found m node)
      → InLimits cfg (found (round m node count) node)
  unfolding Agrees
  round_reaches m node count e a =
      let (new, lim, which) =
        rebalance_round d avg curr m node count
          (subst (λ (c : HashConfig). c.min_replicas ≤ℤ c.max_replicas) (sym e) ok) in
      let lim' : InLimits cfg (some new) = subst (λ c. InLimits c (some new)) e lim in
      elim which [
        | inl same ↦
            subst (λ (r : Ring). InLimits cfg (found r node)) (sym same.0)
              (agreed (found m node) a new lim' same.1)
        | inr replaced ↦
            subst (λ (r : Ring). InLimits cfg (found r node)) (sym replaced)
              (subst (InLimits cfg) (sym (find-replace_node d m node node new))
                (rw (if_pos (str_dec node node) refl) lim'))
      ]
    where
      agreed :
          (o : Option ℤ)
          → (o ≡ UnorderedMap.find str_dec node curr) ⊎ InLimits cfg o
          → (new : ℤ) → InLimits cfg (some new)
          → new ≡ int_or_zero (UnorderedMap.find str_dec node curr)
          → InLimits cfg o
      agreed none a new l p = tt
      agreed (some r) (inl q) new l p =
          subst (λ z. InLimits cfg (some z)) (p ∙ ap int_or_zero (sym q)) l
      agreed (some r) (inr w) new l p = w

  AllInLimits-round :
      (m : Ring) (node : Str) (count : ℕ) (done : List (Str × ℕ))
      → m.config_ ≡ cfg
      → AllInLimits cfg m done
      → AllInLimits cfg (round m node count) done
  AllInLimits-round m node count [] e w = tt
  AllInLimits-round m node count ((n, k) ∷ done) e w = (
    round_keeps (InLimits cfg) m node n count e (λ new l. l) w.0,
    AllInLimits-round m node count done e w.1,
  )

  -- The loop, with the entries that it has passed.
  loop-AllInLimits :
      (counts done : List (Str × ℕ)) (m : Ring)
      → m.config_ ≡ cfg
      → ((n : Str) → Agrees n (found m n))
      → AllInLimits cfg m done
      → AllInLimits cfg (rebalance_loop d avg curr counts m) done
        × AllInLimits cfg (rebalance_loop d avg curr counts m) counts
  unfolding rebalance_loop Agrees
  loop-AllInLimits [] done m e a w = (w, tt)
  loop-AllInLimits ((node, count) ∷ counts) done m e a w =
      let r =
        loop-AllInLimits counts ((node, count) ∷ done) (round m node count)
          (round_config m node count e)
          (λ n. round_keeps (Agrees n) m node n count e (λ new l. inr l) (a n))
          (round_reaches m node count e (a node), AllInLimits-round m node count done e w) in
      (r.0.1, (r.0.0, r.1))

-- If the lower limit is not above the upper one, then whatever the doubles compute, each node that
-- had a load count is afterwards not registered or has a number of virtual nodes within the limits.
pub rebalanced-AllInLimits :
    (d : Doubles) (m : Ring)
    → m.config_.min_replicas ≤ℤ m.config_.max_replicas
    → AllInLimits m.config_ (rebalanced d m) m.node_counts_
unfolding rebalanced Agrees
rebalanced-AllInLimits d m ok =
    AllInLimits-sorted (rebalance_loop d (average d m) m.node_replicas_ m.node_counts_ m)
      m.node_counts_
      (loop-AllInLimits d (average d m) m.node_replicas_ m.config_ ok m.node_counts_ [] m refl
        (λ n. inl refl) tt).1
  where
    AllInLimits-sorted :
        (r : Ring) (counts : List (Str × ℕ))
        → AllInLimits m.config_ r counts
        → AllInLimits m.config_
            (sorted
              (record r { node_counts_ = map (λ e. (e.0, 0)) r.node_counts_; total_requests_ = 0 }))
            counts
    AllInLimits-sorted r [] w = tt
    AllInLimits-sorted r ((n, k) ∷ counts) w = (w.0, AllInLimits-sorted r counts w.1)
