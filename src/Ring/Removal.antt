-- ===== src/Ring/Removal.antt =====
-- `Remove` on a valid ring, and the part of it that `RebalanceNodes` repeats.
use youdge.Base.{
  ℕ, zero, suc, ◌+◌, ◌≡◌, refl, sym, ap, ◌∙◌, ◌≢◌, Bool, true, false, inl, inr, List, [], ◌∷◌,
  Option, none, some, ℕ_discrete, Str, str_dec, arith, if◌then◌else◌, Option-cases,
}
use youdge.Base.Int.{ℤ, pos_part}
use youdge.Base.UnorderedMap
use youdge.Ring.{Ring, int_or_zero, hash_key, remove_vnodes, remove}
use youdge.Ring.Members.{covers, mem-remove_vnodes, find-remove_vnodes, remove_vnodes-SameRest}
use youdge.Ring.Successor.{IsSorted, remove_hash-IsSorted}
use youdge.Ring.Invariant.{OwnedBy, IsLinked, IsValid}

pub remove_vnodes-IsSorted :
    (n i : ℕ) (node : Str) (m : Ring) → IsSorted m.keys_ → IsSorted (remove_vnodes n i node m).keys_
unfolding remove_vnodes
remove_vnodes-IsSorted zero i node m s = s
remove_vnodes-IsSorted (suc n) i node m s =
    remove_vnodes-IsSorted n (i + 1) node _
      (remove_hash-IsSorted (m.config_.hash_func (hash_key node i)) m.keys_ s)

-- A hash that is left has another owner, whose registration is left too.
OwnedBy-erase :
    (f : Str → ℕ) (reps : List (Str × ℤ)) (node : Str) (r : ℤ) (h : ℕ) (o : Option Str)
    → int_or_zero (UnorderedMap.find str_dec node reps) ≡ r
    → OwnedBy f reps h o
    → (b : Bool) → covers f (pos_part r) 0 node h ≡ b
    → OwnedBy f (UnorderedMap.erase str_dec node reps) h (if b then none else o)
OwnedBy-erase f reps node r h o e w true c = tt
OwnedBy-erase f reps node r h none e w false c = tt
OwnedBy-erase f reps node r h (some n) e w false c =
    let (q, found, cov, named) = w in
    elim (str_dec node n) [
      | yes p ↦
          let eq : r ≡ q =
            sym e ∙ ap int_or_zero (ap (λ k. UnorderedMap.find str_dec k reps) p ∙ found) in
          absurd (ground (arith, c, cov, eq, p))
      | no p ↦ (q, UnorderedMap.find-erase str_dec node n reps ∙ ground arith, cov, named)
    ]

-- The ring without a node.
unfoldable pub without : Ring → Str → ℤ → List (Str × ℕ) → Ring
without m node r counts = record (remove_vnodes (pos_part r) 0 node m) {
  node_replicas_ = UnorderedMap.erase str_dec node m.node_replicas_;
  node_counts_ = counts;
}

pub without-IsLinked :
    (m : Ring) (node : Str) (r : ℤ) (counts : List (Str × ℕ))
    → int_or_zero (UnorderedMap.find str_dec node m.node_replicas_) ≡ r
    → IsLinked m
    → IsLinked (without m node r counts)
unfolding without
without-IsLinked m node r counts e v =
    let n = pos_part r in
    record {
      mapped = λ h.
          ground
            (arith, mem-remove_vnodes h n 0 node m, find-remove_vnodes h n 0 node m, v.mapped h);
      owned = λ h.
          rw ((remove_vnodes-SameRest n 0 node m).config, find-remove_vnodes h n 0 node m)
            (OwnedBy-erase m.config_.hash_func m.node_replicas_ node r h
              (UnorderedMap.find ℕ_discrete h m.hash_map_) e (v.owned h)
              (covers m.config_.hash_func n 0 node h) refl);
    }

pub remove-without :
    (m : Ring) (node : Str) (r : ℤ)
    → node ≢ []
    → UnorderedMap.find str_dec node m.node_replicas_ ≡ some r
    → remove m node ≡ (without m node r (UnorderedMap.erase str_dec node m.node_counts_), true)
unfolding remove without
remove-without m [] r named e = absurd (named refl)
remove-without m (c ∷ name) r named e =
    let rest = remove_vnodes-SameRest (pos_part r) 0 (c ∷ name) m in
    rw (e, remove, rest.replicas, rest.counts) refl

-- `Remove` keeps the ring sorted and linked.
pub remove-IsValid : (m : Ring) (node : Str) → IsValid m → IsValid (remove m node).0
remove-IsValid m [] v = unfold remove in v
remove-IsValid m (c ∷ name) v =
    elim (Option-cases (UnorderedMap.find str_dec (c ∷ name) m.node_replicas_)) [
      | inl e ↦ unfold remove in rw (e, remove) v
      | inr (r, e) ↦ rw (remove-without m (c ∷ name) r (λ q. cc) e) (record {
        ordered = unfold without in remove_vnodes-IsSorted (pos_part r) 0 (c ∷ name) m v.ordered;
        linked = without-IsLinked m (c ∷ name) r _ (ap int_or_zero e) v.linked;
      })
    ]
