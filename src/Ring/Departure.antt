-- ===== src/Ring/Departure.antt =====
-- Which keys `Remove` sends elsewhere.
use youdge.Base.{
  ℕ, ◌≡◌, refl, sym, ap, subst, ◌∙◌, ◌≢◌, Bool, true, false, not, ◌&&◌, inl, inr, [], ◌∷◌, none,
  some, some_inj, ℕ_discrete, Str, str_dec, arith, if◌then◌else◌, Bool-cases,
}
use youdge.Base.Int.{ℤ, pos_part}
use youdge.Base.UnorderedMap
use youdge.Ring.{HashConfig, Ring, remove, get}
use youdge.Ring.Members.{mem, covers, mem-remove_vnodes, find-remove_vnodes, remove_vnodes-SameRest}
use youdge.Ring.Successor.{IsFirst, IsFirst-unique}
use youdge.Ring.Invariant.{OwnedBy, IsValid}
use youdge.Ring.Removal.{without, remove-without, remove-IsValid}
use youdge.Ring.Routing.{route, answer, Routed, nowhere, to_owner, get-Routed, mem-nil}

not-Routed :
    (node : Str) (m : Ring) (key : Str)
    → node ≢ []
    → UnorderedMap.find str_dec node m.node_replicas_ ≡ none
    → IsValid m
    → Routed m key
    → route m key ≢ node
not-Routed node m key named gone v (nowhere e r) hit = named (sym hit ∙ r)
not-Routed node m key named gone v (to_owner x n f o r) hit =
    let same : n ≡ node = sym (ap answer r) ∙ hit in
    let w : OwnedBy m.config_.hash_func m.node_replicas_ x (some n) =
      subst (OwnedBy m.config_.hash_func m.node_replicas_ x) o (v.linked.owned x) in
    cc (sym w.1 ∙ ap (λ j. UnorderedMap.find str_dec j m.node_replicas_) same ∙ gone)

-- After `Remove` of a registered node from a valid ring, no key is sent to the node.
pub route-remove_ne :
    (m : Ring) (node : Str) (r : ℤ) (key : Str)
    → IsValid m
    → node ≢ []
    → UnorderedMap.find str_dec node m.node_replicas_ ≡ some r
    → route (remove m node).0 key ≢ node
route-remove_ne m node r [] v named e hit = unfold get in named (sym hit)
route-remove_ne m node r (k ∷ key) v named e hit =
    let m' = (remove m node).0 in
    not-Routed node m' (k ∷ key) named
      (ap (λ (p : Ring × Bool). UnorderedMap.find str_dec node p.0.node_replicas_)
          (remove-without m node r named e)
        ∙ unfold without in
          UnorderedMap.find-erase str_dec node node m.node_replicas_ ∙ ground arith)
      (remove-IsValid m node v) (get-Routed m' k key (remove-IsValid m node v)) hit

-- A ring that loses a node's hashes.
record Loses (m m' : Ring) (c : ℕ → Bool) : Type 0 where
  config : m'.config_ ≡ m.config_
  member : (h : ℕ) → mem h m'.keys_ ≡ (mem h m.keys_ && not (c h))
  mapped :
      (h : ℕ)
      → UnorderedMap.find ℕ_discrete h m'.hash_map_
        ≡ (if c h then none else UnorderedMap.find ℕ_discrete h m.hash_map_)

remove-Loses :
    (m : Ring) (node : Str) (r : ℤ)
    → node ≢ []
    → UnorderedMap.find str_dec node m.node_replicas_ ≡ some r
    → Loses m (remove m node).0 (covers m.config_.hash_func (pos_part r) 0 node)
remove-Loses m node r named e =
    let n = pos_part r in
    rw (remove-without m node r named e) (
      unfold without in
      record {
        config = (remove_vnodes-SameRest n 0 node m).config;
        member = λ h. mem-remove_vnodes h n 0 node m;
        mapped = λ h. find-remove_vnodes h n 0 node m;
      })

route_kept :
    (m m' : Ring) (c : ℕ → Bool) (key : Str) (x x' : ℕ) (n' : Str)
    → Loses m m' c
    → c x ≡ false
    → IsFirst (m.config_.hash_func key) m.keys_ x
    → IsFirst (m'.config_.hash_func key) m'.keys_ x'
    → UnorderedMap.find ℕ_discrete x' m'.hash_map_ ≡ some n'
    → UnorderedMap.find ℕ_discrete x m.hash_map_ ≡ some n'
route_kept m m' c key x x' n' g h f f' o' =
    let first : IsFirst (m.config_.hash_func key) m'.keys_ x' =
      subst (λ (k : HashConfig). IsFirst (k.hash_func key) m'.keys_ x') g.config f' in
    let same : x ≡ x' =
      IsFirst-unique (m.config_.hash_func key) x x' m.keys_ m'.keys_ f first
        (ground (arith, g.member x', f'.member)) (ground (arith, g.member x, f.member, h)) in
    ap (λ k. UnorderedMap.find ℕ_discrete k m.hash_map_) same
    ∙ ground (arith, ap c same, g.mapped x', h, o')

route-Loses :
    (m m' : Ring) (node : Str) (c : ℕ → Bool) (key : Str)
    → Loses m m' c
    → ((h : ℕ) → c h ≡ true → UnorderedMap.find ℕ_discrete h m.hash_map_ ≡ some node)
    → route m key ≢ node
    → Routed m key
    → Routed m' key
    → route m' key ≡ route m key
route-Loses m m' node c key g unshared other (nowhere e r) (nowhere e' r') = r' ∙ sym r
route-Loses m m' node c key g unshared other (nowhere e r) (to_owner x' n' f' o' r') =
    absurd (mem-nil x' m.keys_ e (ground (arith, g.member x', f'.member)))
route-Loses m m' node c key g unshared other (to_owner x n f o r) b = elim (Bool-cases (c x)) [
  | inl lost ↦ absurd (other (ap answer r ∙ some_inj n node (sym o ∙ unshared x lost)))
  | inr kept ↦ still b kept
]
  where
    still : Routed m' key → c x ≡ false → route m' key ≡ route m key
    still (nowhere e' r') kept =
        absurd (mem-nil x m'.keys_ e' (ground (arith, g.member x, f.member, kept)))
    still (to_owner x' n' f' o' r') kept =
        ap answer r'
        ∙ some_inj n' n (sym (route_kept m m' c key x x' n' g kept f f' o') ∙ o)
        ∙ sym (ap answer r)

-- The other half of the property: on a valid ring, if a registered node shares no hash with another
-- one, `Remove` of it moves only the keys that went to it.
pub route-remove_stays :
    (m : Ring) (node : Str) (r : ℤ) (key : Str)
    → IsValid m
    → node ≢ []
    → UnorderedMap.find str_dec node m.node_replicas_ ≡ some r
    → ((h : ℕ)
        → covers m.config_.hash_func (pos_part r) 0 node h ≡ true
        → UnorderedMap.find ℕ_discrete h m.hash_map_ ≡ some node)
    → route m key ≢ node
    → route (remove m node).0 key ≡ route m key
route-remove_stays m node r [] v named e unshared other = unfold get in refl
route-remove_stays m node r (k ∷ key) v named e unshared other =
    route-Loses m (remove m node).0 node (covers m.config_.hash_func (pos_part r) 0 node) (k ∷ key)
      (remove-Loses m node r named e) unshared other (get-Routed m k key v)
      (get-Routed (remove m node).0 k key (remove-IsValid m node v))
