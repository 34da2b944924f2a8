-- ===== src/Ring/Routing.antt =====
-- Which node `Get` sends a key to, and what `Add` and `Remove` change of it.
use youdge.Base.{
  ℕ, ◌≡◌, refl, sym, ap, subst, ◌∙◌, Bool, true, false, ◌||◌, ◌⊎◌, inl, inr, List, [], ◌∷◌, some,
  some_inj, ℕ_discrete, Str, str_dec, arith, if◌then◌else◌, Bool-cases, Option-cases,
}
use youdge.Base.Int.{pos_part}
use youdge.Base.UnorderedMap
use youdge.Ring.{
  HashConfig, Ring, add_vnodes, add_node, add_nodes, add, get, owner, count_request, ring_position,
}
use youdge.Ring.Members.{
  mem, covers, mem-sort, mem-add_vnodes, find-add_vnodes, add_vnodes-SameRest,
}
use youdge.Ring.Successor.{IsFirst, IsFirst-unique, ring_position-IsFirst, ring_position-cons}
use youdge.Ring.Invariant.{IsValid, Admits, add-IsValid}

-- The node that `Get` answers.
abbrev pub route : Ring → Str → Str
route m key = (get m key).1

-- `Get` on a valid ring and a key: the ring has no hash and the answer is empty, or it is the
-- owner of the first hash clockwise from the key's.
pub data Routed (m : Ring) (key : Str) : Type 0 where
  nowhere : m.keys_ ≡ [] → route m key ≡ [] → Routed m key
  to_owner :
      (x : ℕ) (node : Str)
      → IsFirst (m.config_.hash_func key) m.keys_ x
      → UnorderedMap.find ℕ_discrete x m.hash_map_ ≡ some node
      → get m key ≡ (count_request m node, node)
      → Routed m key

get_nowhere : (m : Ring) (key : Str) → m.keys_ ≡ [] → get m key ≡ (m, [])
unfolding get ring_position
get_nowhere m [] e = refl
get_nowhere m (c ∷ key) e = ground arith

get_owner :
    (m : Ring) (c x : ℕ) (key node : Str)
    → ring_position (m.config_.hash_func (c ∷ key)) m.keys_ ≡ some x
    → UnorderedMap.find ℕ_discrete x m.hash_map_ ≡ some node
    → get m (c ∷ key) ≡ (count_request m node, node)
unfolding get owner
get_owner m c x key node at found = rw (at, get, found, owner) refl

Routed-at :
    (m : Ring) (c : ℕ) (key : Str) → IsValid m → (l : List ℕ) → m.keys_ ≡ l → Routed m (c ∷ key)
unfolding mem
Routed-at m c key v [] e = nowhere e (ap (λ (p : Ring × Str). p.1) (get_nowhere m (c ∷ key) e))
Routed-at m c key v (k ∷ l) e =
    let h = m.config_.hash_func (c ∷ key) in
    let (x, at) = ring_position-cons h k l in
    let at' : ring_position h m.keys_ ≡ some x = ap (ring_position h) e ∙ at in
    let first = ring_position-IsFirst h x m.keys_ v.ordered at' in
    elim (Option-cases (UnorderedMap.find ℕ_discrete x m.hash_map_)) [
      | inl miss ↦ absurd (ground (arith, first.member, v.linked.mapped x, miss))
      | inr (node, found) ↦ to_owner x node first found (get_owner m c x key node at' found)
    ]

-- On a valid ring the answer to a key that is not empty is the owner of the first hash clockwise
-- from the key's, and empty only where the ring is.
pub get-Routed : (m : Ring) (c : ℕ) (key : Str) → IsValid m → Routed m (c ∷ key)
get-Routed m c key v = Routed-at m c key v m.keys_ refl

pub mem-nil : (x : ℕ) (l : List ℕ) → l ≡ [] → mem x l ≡ true → ⊥
unfolding mem
mem-nil x l e h = ground (arith, ap (mem x) e)

-- A ring that gains hashes, all of them the node's.
record Gains (m m' : Ring) (node : Str) (c : ℕ → Bool) : Type 0 where
  config : m'.config_ ≡ m.config_
  member : (h : ℕ) → mem h m'.keys_ ≡ (mem h m.keys_ || c h)
  mapped :
      (h : ℕ)
      → UnorderedMap.find ℕ_discrete h m'.hash_map_
        ≡ (if c h then some node else UnorderedMap.find ℕ_discrete h m.hash_map_)

-- The answer of `Get`, from an equation for its whole result.
abbrev pub answer : Ring × Str → Str
answer p = p.1

route_inside :
    (m m' : Ring) (node : Str) (c : ℕ → Bool) (key : Str) (x' : ℕ) (n' : Str)
    → Gains m m' node c
    → Routed m key
    → IsFirst (m'.config_.hash_func key) m'.keys_ x'
    → UnorderedMap.find ℕ_discrete x' m'.hash_map_ ≡ some n'
    → c x' ≡ false
    → n' ≡ route m key
route_inside m m' node c key x' n' g (nowhere e r) f' o' h =
    absurd (mem-nil x' m.keys_ e (ground (arith, g.member x', f'.member, h)))
route_inside m m' node c key x' n' g (to_owner x n f o r) f' o' h =
    let first : IsFirst (m.config_.hash_func key) m'.keys_ x' =
      subst (λ (k : HashConfig). IsFirst (k.hash_func key) m'.keys_ x') g.config f' in
    let same : x ≡ x' =
      IsFirst-unique (m.config_.hash_func key) x x' m.keys_ m'.keys_ f first
        (ground (arith, g.member x', f'.member, h)) (ground (arith, g.member x, f.member)) in
    let owners : some n' ≡ some n =
      sym o'
      ∙ g.mapped x'
      ∙ ground (arith, h, ap (λ k. UnorderedMap.find ℕ_discrete k m.hash_map_) same, o) in
    some_inj n' n owners ∙ sym (ap answer r)

route-Gains :
    (m m' : Ring) (node : Str) (c : ℕ → Bool) (key : Str)
    → Gains m m' node c
    → Routed m key
    → Routed m' key
    → (route m' key ≡ node) ⊎ (route m' key ≡ route m key)
route-Gains m m' node c key g (nowhere e r) (nowhere e' r') = inr (r' ∙ sym r)
route-Gains m m' node c key g (to_owner x n f o r) (nowhere e' r') =
    absurd (mem-nil x m'.keys_ e' (ground (arith, g.member x, f.member)))
route-Gains m m' node c key g a (to_owner x' n' f' o' r') = elim (Bool-cases (c x')) [
  | inl gained ↦ inl (ap answer r' ∙ some_inj n' node (sym o' ∙ g.mapped x' ∙ rw gained))
  | inr old ↦ inr (ap answer r' ∙ route_inside m m' node c key x' n' g a f' o' old)
]

add-Gains :
    (m : Ring) (c : ℕ) (name : Str)
    → Gains m
        (add m ((c ∷ name) ∷ [])).0
        (c ∷ name)
        (covers m.config_.hash_func (pos_part m.config_.replicas) 0 (c ∷ name))
unfolding add add_nodes add_node
add-Gains m c name =
    let node = c ∷ name in
    let n = pos_part m.config_.replicas in
    record {
      config = (add_vnodes-SameRest n 0 node m).config;
      member = λ h. mem-sort h (add_vnodes n 0 node m).keys_ ∙ mem-add_vnodes h n 0 node m;
      mapped = λ h. find-add_vnodes h n 0 node m;
    }

-- The property that the hashing is for: on a valid ring, adding a node sends a key either to that
-- node or where it went before, if a node that is registered already is not given fewer virtual
-- nodes.
pub route-add :
    (m : Ring) (c : ℕ) (name : Str) (key : Str)
    → IsValid m
    → Admits (UnorderedMap.find str_dec (c ∷ name) m.node_replicas_) m.config_.replicas
    → let m' = (add m ((c ∷ name) ∷ [])).0 in
      (route m' key ≡ c ∷ name) ⊎ (route m' key ≡ route m key)
unfolding get
route-add m c name [] v a = inr refl
route-add m c name (k ∷ key) v a =
    route-Gains m _ (c ∷ name) _ (k ∷ key) (add-Gains m c name) (get-Routed m k key v)
      (get-Routed _ k key (add-IsValid m ((c ∷ name) ∷ []) (a, tt) v))
