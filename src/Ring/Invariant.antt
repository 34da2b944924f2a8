-- ===== src/Ring/Invariant.antt =====
-- What the ring and its maps agree on, and that the methods keep it.
use youdge.Base.{
  ℕ, zero, suc, ◌+◌, ◌≤◌, ◌≡◌, refl, sym, ap, subst, ◌∙◌, ◌≢◌, Bool, true, false, List, [], ◌∷◌,
  Option, none, some, if_pos, if_neg, ℕ_discrete, Str, str_dec, arith, if◌then◌else◌,
}
use youdge.Base.Int.{ℤ, pos_part}
use youdge.Base.UnorderedMap
use youdge.Ring.{HashConfig, Ring, init, add_node, add_nodes, add, sorted}
use youdge.Ring.Members.{
  mem, covers, mem-sort, mem-add_vnodes, find-add_vnodes, add_vnodes-SameRest,
}
use youdge.Ring.Successor.{IsSorted, sort-IsSorted}

abbrev pub is_some {ℓ} : {A : Type ℓ} → Option A → Bool
is_some none = false
is_some (some a) = true

-- The owner of a hash is registered under its name, which is not empty, and the hash is one of
-- its virtual nodes.
abbrev pub OwnedBy : (Str → ℕ) → List (Str × ℤ) → ℕ → Option Str → Type 0
OwnedBy f reps h none = Unit {0}
OwnedBy f reps h (some node) =
    (r : ℤ) × (UnorderedMap.find str_dec node reps ≡ some r)
    × (covers f (pos_part r) 0 node h ≡ true)
    × (node ≢ [])

-- The ring holds the hashes of the map, and each belongs to a registered node.
pub record IsLinked (m : Ring) : Type 0 where
  pub mapped : (h : ℕ) → mem h m.keys_ ≡ is_some (UnorderedMap.find ℕ_discrete h m.hash_map_)
  pub owned :
      (h : ℕ)
      → OwnedBy m.config_.hash_func m.node_replicas_ h (UnorderedMap.find ℕ_discrete h m.hash_map_)

pub record IsValid (m : Ring) : Type 0 where
  pub ordered : IsSorted m.keys_
  pub linked : IsLinked m

pub init-IsValid : (cfg : HashConfig) → IsValid (init cfg)
unfolding init mem UnorderedMap.find
init-IsValid cfg = record { ordered = tt; linked = record { mapped = λ h. refl; owned = λ h. tt } }

covers_mono :
    (f : Str → ℕ) (n k i : ℕ) (node : Str) (h : ℕ)
    → n ≤ k
    → covers f n i node h ≡ true
    → covers f k i node h ≡ true
unfolding covers
covers_mono f zero k i node h le c = absurd (ground arith)
covers_mono f (suc n) zero i node h le c = absurd (omega arith)
covers_mono f (suc n) (suc k) i node h le c =
    ground (arith, covers_mono f n k (i + 1) node h (omega arith))

-- A node that is registered already is not given fewer virtual nodes.
abbrev pub Admits : Option ℤ → ℤ → Type 0
Admits none replicas = Unit {0}
Admits (some r) replicas = pos_part r ≤ pos_part replicas

OwnedBy-insert :
    (f : Str → ℕ) (reps : List (Str × ℤ)) (node : Str) (replicas : ℤ) (h : ℕ) (o : Option Str)
    → Admits (UnorderedMap.find str_dec node reps) replicas
    → OwnedBy f reps h o
    → OwnedBy f (UnorderedMap.insert str_dec node replicas reps) h o
OwnedBy-insert f reps node replicas h none a w = tt
OwnedBy-insert f reps node replicas h (some n) a (r, found, cov, named) = elim (str_dec node n) [
  | yes p ↦ (
    replicas,
    UnorderedMap.find-insert str_dec node n replicas reps ∙ ground arith,
    covers_mono f (pos_part r) (pos_part replicas) 0 n h
        (subst (λ o. Admits o replicas) (ap (λ k. UnorderedMap.find str_dec k reps) p ∙ found) a)
        cov,
    named,
  )
  | no p ↦ (r, UnorderedMap.find-insert str_dec node n replicas reps ∙ ground arith, cov, named)
]

OwnedBy-gain :
    (f : Str → ℕ) (reps : List (Str × ℤ)) (node : Str) (replicas : ℤ) (h : ℕ) (o : Option Str)
    → node ≢ []
    → Admits (UnorderedMap.find str_dec node reps) replicas
    → OwnedBy f reps h o
    → (b : Bool) → covers f (pos_part replicas) 0 node h ≡ b
    → OwnedBy f (UnorderedMap.insert str_dec node replicas reps) h (if b then some node else o)
OwnedBy-gain f reps node replicas h o named admits w true c =
    (replicas, UnorderedMap.find-insert str_dec node node replicas reps ∙ ground arith, c, named)
OwnedBy-gain f reps node replicas h o named admits w false c =
    OwnedBy-insert f reps node replicas h o admits w

pub add_node-IsLinked :
    (m : Ring) (node : Str) (replicas : ℤ)
    → node ≢ []
    → Admits (UnorderedMap.find str_dec node m.node_replicas_) replicas
    → IsLinked m
    → IsLinked (add_node m node replicas)
unfolding add_node
add_node-IsLinked m node replicas named admits v =
    let n = pos_part replicas in
    let rest = add_vnodes-SameRest n 0 node m in
    record {
      mapped = λ h.
          ground (arith, mem-add_vnodes h n 0 node m, find-add_vnodes h n 0 node m, v.mapped h);
      owned = λ h.
          rw (rest.config, rest.replicas, find-add_vnodes h n 0 node m)
            (OwnedBy-gain m.config_.hash_func m.node_replicas_ node replicas h
              (UnorderedMap.find ℕ_discrete h m.hash_map_) named admits (v.owned h)
              (covers m.config_.hash_func n 0 node h) refl);
    }

pub sorted-IsValid : (m : Ring) → IsLinked m → IsValid (sorted m)
sorted-IsValid m v = record {
  ordered = sort-IsSorted m.keys_;
  linked = record { mapped = λ h. mem-sort h m.keys_ ∙ v.mapped h; owned = v.owned };
}

-- What `Add` needs of each name in its list, as the ring stands.
abbrev pub AllAdmit : Ring → List Str → Type 0
AllAdmit m [] = Unit {0}
AllAdmit m (node ∷ nodes) =
    Admits (UnorderedMap.find str_dec node m.node_replicas_) m.config_.replicas × AllAdmit m nodes

pub add_node_rest :
    (m : Ring) (node : Str) (replicas : ℤ)
    → ((add_node m node replicas).config_ ≡ m.config_)
      × ((add_node m node replicas).node_replicas_
          ≡ UnorderedMap.insert str_dec node replicas m.node_replicas_)
unfolding add_node
add_node_rest m node replicas =
    let rest = add_vnodes-SameRest (pos_part replicas) 0 node m in
    (rest.config, ap (UnorderedMap.insert str_dec node replicas) rest.replicas)

Admits-insert :
    (reps : List (Str × ℤ)) (node n : Str) (c : ℤ)
    → Admits (UnorderedMap.find str_dec n reps) c
    → Admits (UnorderedMap.find str_dec n (UnorderedMap.insert str_dec node c reps)) c
Admits-insert reps node n c a =
    subst (λ o. Admits o c) (sym (UnorderedMap.find-insert str_dec node n c reps))
      (elim (str_dec node n) [ yes p ↦ rw (if_pos _ p) (omega arith) | no p ↦ rw (if_neg _ p) a ])

AllAdmit-add_node :
    (m : Ring) (node : Str) (nodes : List Str)
    → AllAdmit m nodes
    → AllAdmit (add_node m node m.config_.replicas) nodes
AllAdmit-add_node m node [] a = tt
AllAdmit-add_node m node (n ∷ nodes) a =
    let rest = add_node_rest m node m.config_.replicas in
    (
      rw (rest.0, rest.1) (Admits-insert m.node_replicas_ node n m.config_.replicas a.0),
      AllAdmit-add_node m node nodes a.1,
    )

add_nodes-IsLinked :
    (nodes : List Str) (m : Ring) → AllAdmit m nodes → IsLinked m → IsLinked (add_nodes m nodes)
unfolding add_nodes
add_nodes-IsLinked [] m a v = v
add_nodes-IsLinked ([] ∷ nodes) m a v = add_nodes-IsLinked nodes m a.1 v
add_nodes-IsLinked ((c ∷ name) ∷ nodes) m a v =
    add_nodes-IsLinked nodes _ (AllAdmit-add_node m (c ∷ name) nodes a.1)
      (add_node-IsLinked m (c ∷ name) m.config_.replicas (λ e. cc) a.0 v)

-- `Add` keeps the ring sorted and linked, if it gives no registered node fewer virtual nodes.
pub add-IsValid :
    (m : Ring) (nodes : List Str) → AllAdmit m nodes → IsValid m → IsValid (add m nodes).0
unfolding add
add-IsValid m [] a v = v
add-IsValid m (node ∷ nodes) a v =
    sorted-IsValid (add_nodes m (node ∷ nodes)) (add_nodes-IsLinked (node ∷ nodes) m a v.linked)
