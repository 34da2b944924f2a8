-- ===== src/Sdk/Broadcast.antt =====
-- The loop of src/client/client_sdk.cpp that invalidates a key on the other nodes, over any network
-- that keeps the promises of `Remote` to its callers.
use youdge.Base.{
  ◌≡◌, ◌≢◌, refl, sym, ap, subst, ◌∙◌, Bool, true, ◌&&◌, List, [], ◌∷◌, Str, str_dec, arith, if_pos,
  if_neg,
}
use youdge.Sdk.{Network, contains, broadcast}

-- The nodes as the calls leave them, for one group and one key. `Has` is what a successful `Set`
-- leaves at its node, and `Gone` that a node holds nothing for the key. A call that reports
-- success has done its work at its node, and no call that takes a value away brings one back or
-- disturbs another node.
pub record Remote {S : Type 0} (net : Network S) (group key : Str) : Type 1 where
  pub Has : Str → Str → S → Type 0
  pub Gone : Str → S → Type 0
  pub set_has :
      (s : S) (addr value : Str)
      → (net.set s addr group key value).1 ≡ true
      → Has addr value (net.set s addr group key value).0
  pub invalidate_gone :
      (s : S) (addr : Str)
      → (net.invalidate s addr group key).1 ≡ true
      → Gone addr (net.invalidate s addr group key).0
  pub invalidate_keeps :
      (s : S) (addr other : Str) → Gone other s → Gone other (net.invalidate s addr group key).0
  pub invalidate_spares :
      (s : S) (addr other value : Str)
      → addr ≢ other
      → Has other value s
      → Has other value (net.invalidate s addr group key).0
  pub delete_gone :
      (s : S) (addr : Str)
      → (net.delete s addr group key).1 ≡ true
      → Gone addr (net.delete s addr group key).0
  pub delete_keeps :
      (s : S) (addr other : Str) → Gone other s → Gone other (net.delete s addr group key).0

pub and_right : (a b : Bool) → (a && b) ≡ true → b ≡ true
and_right a b h = ground (arith, h)

pub and_left : (a b : Bool) → (a && b) ≡ true → a ≡ true
and_left a b h = ground (arith, h)

module _ {S : Type 0} (net : Network S) (group key : Str) (remote : Remote net group key) where
  broadcast_skip :
      (addr target : Str) (nodes : List Str) (s : S) (all : Bool)
      → addr ≡ target
      → broadcast net (addr ∷ nodes) target group key s all
        ≡ broadcast net nodes target group key s all
  unfolding broadcast
  broadcast_skip addr target nodes s all p = rw (if_pos (str_dec addr target) p) refl

  broadcast_call :
      (addr target : Str) (nodes : List Str) (s : S) (all : Bool)
      → addr ≢ target
      → let r = net.invalidate s addr group key in
        broadcast net (addr ∷ nodes) target group key s all
        ≡ broadcast net nodes target group key r.0 (r.1 && all)
  unfolding broadcast
  broadcast_call addr target nodes s all p = rw (if_neg (str_dec addr target) p) refl

  -- What the loop keeps of the nodes, whatever its calls report.
  broadcast_keeps :
      (nodes : List Str) (target : Str) (s : S) (all : Bool) (other : Str)
      → remote.Gone other s
      → remote.Gone other (broadcast net nodes target group key s all).0
  unfolding broadcast
  broadcast_keeps [] target s all other g = g
  broadcast_keeps (addr ∷ nodes) target s all other g = elim (str_dec addr target) [
    | yes p ↦
        rw (broadcast_skip addr target nodes s all p) (broadcast_keeps nodes target s all other g)
    | no p ↦
        rw (broadcast_call addr target nodes s all p)
          (broadcast_keeps nodes target _ _ other (remote.invalidate_keeps s addr other g))
  ]

  pub broadcast_spares :
      (nodes : List Str) (target value : Str) (s : S) (all : Bool)
      → remote.Has target value s
      → remote.Has target value (broadcast net nodes target group key s all).0
  unfolding broadcast
  broadcast_spares [] target value s all h = h
  broadcast_spares (addr ∷ nodes) target value s all h = elim (str_dec addr target) [
    | yes p ↦
        rw (broadcast_skip addr target nodes s all p) (broadcast_spares nodes target value s all h)
    | no p ↦
        rw (broadcast_call addr target nodes s all p) (
          broadcast_spares nodes target value _ _
            (remote.invalidate_spares s addr target value p h))
  ]

  broadcast_flag :
      (nodes : List Str) (target : Str) (s : S) (all : Bool)
      → (broadcast net nodes target group key s all).1 ≡ true
      → all ≡ true
  unfolding broadcast
  broadcast_flag [] target s all h = h
  broadcast_flag (addr ∷ nodes) target s all h = elim (str_dec addr target) [
    | yes p ↦
        broadcast_flag nodes target s all
          (ap (λ x. x.1) (sym (broadcast_skip addr target nodes s all p)) ∙ h)
    | no p ↦ and_right _ all (
        broadcast_flag nodes target _ _
          (ap (λ x. x.1) (sym (broadcast_call addr target nodes s all p)) ∙ h))
  ]

  -- Success means that every node of the list but the target has lost the value.
  pub broadcast_gone :
      (nodes : List Str) (target : Str) (s : S) (all : Bool)
      → (broadcast net nodes target group key s all).1 ≡ true
      → (a : Str) → contains a nodes ≡ true
      → a ≢ target
      → remote.Gone a (broadcast net nodes target group key s all).0
  unfolding contains
  broadcast_gone [] target s all h a here other = cc
  broadcast_gone (addr ∷ nodes) target s all h a here other = elim (str_dec addr target) [
    | yes p ↦
        let there : contains a nodes ≡ true = ground (arith, here, other, p) in
        rw (broadcast_skip addr target nodes s all p) (
          broadcast_gone nodes target s all
            (ap (λ x. x.1) (sym (broadcast_skip addr target nodes s all p)) ∙ h) a there other)
    | no p ↦
        let called = broadcast_call addr target nodes s all p in
        let success = ap (λ x. x.1) (sym called) ∙ h in
        rw called (elim (str_dec addr a) [
          | yes q ↦ broadcast_keeps nodes target _ _ a (
              subst (λ x. remote.Gone x (net.invalidate s addr group key).0) q
                (remote.invalidate_gone s addr
                  (and_left _ all (broadcast_flag nodes target _ _ success))))
          | no q ↦ broadcast_gone nodes target _ _ success a (ground (arith, here, q)) other
        ])
  ]
