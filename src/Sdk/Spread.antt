-- ===== src/Sdk/Spread.antt =====
-- What `Set` and `Delete` of src/client/client_sdk.cpp leave on the nodes.
use youdge.Base.{
  ◌≡◌, ◌≢◌, refl, sym, ap, subst, ◌∙◌, inl, inr, Bool, true, false, List, [], ◌∷◌, Str, str_dec,
  arith, if◌then◌else◌, is_empty, Bool-cases,
}
use youdge.Sdk.{
  Client, Network, contains, node_among, get_cache_node, broadcast, invalidate_others, set_at,
  client_set, delete_all, client_delete,
}
use youdge.Sdk.Broadcast.{Remote, and_right, and_left, broadcast_gone, broadcast_spares}

node_among_nodes :
    (nodes : List Str) (c : Client) (key : Str)
    → (node_among nodes c key).0.cache_nodes_ ≡ c.cache_nodes_
unfolding node_among
node_among_nodes [] c key = refl
node_among_nodes (first ∷ nodes) c key = refl

get_cache_node_nodes :
    (c : Client) (key : Str) → (get_cache_node c key).0.cache_nodes_ ≡ c.cache_nodes_
unfolding get_cache_node
get_cache_node_nodes c key = node_among_nodes c.cache_nodes_ c key

module _ {S : Type 0} (net : Network S) (group key : Str) (remote : Remote net group key) where
  set_at-spreads :
      (nodes : List Str) (target value : Str) (s : S)
      → (set_at net nodes s target group key value).1 ≡ true
      → remote.Has target value (set_at net nodes s target group key value).0
        × ((a : Str)
            → contains a nodes ≡ true
            → a ≢ target
            → remote.Gone a (set_at net nodes s target group key value).0)
  unfolding set_at invalidate_others
  set_at-spreads nodes [] value s h = cc
  set_at-spreads nodes (c ∷ addr) value s h =
      let stored = net.set s (c ∷ addr) group key value in
      elim (Bool-cases stored.1) [
        | inl done ↦
            let whole : set_at net nodes s (c ∷ addr) group key value
                ≡ broadcast net nodes (c ∷ addr) group key stored.0 true =
              ap (λ b. invalidate_others net nodes (c ∷ addr) group key (stored.0, b)) done in
            rw whole (
              broadcast_spares net group key remote nodes (c ∷ addr) value stored.0 true
                  (remote.set_has s (c ∷ addr) value done),
              broadcast_gone net group key remote nodes (c ∷ addr) stored.0 true
                  (ap (λ x. x.1) (sym whole) ∙ h),
            )
        | inr failed ↦ cc (
            sym h
            ∙ ap (λ b. (invalidate_others net nodes (c ∷ addr) group key (stored.0, b)).1) failed)
      ]

  delete_all_keeps :
      (nodes : List Str) (s : S) (all : Bool) (other : Str)
      → remote.Gone other s
      → remote.Gone other (delete_all net nodes group key s all).0
  unfolding delete_all
  delete_all_keeps [] s all other g = g
  delete_all_keeps (addr ∷ nodes) s all other g =
      delete_all_keeps nodes _ _ other (remote.delete_keeps s addr other g)

  delete_all_flag :
      (nodes : List Str) (s : S) (all : Bool)
      → (delete_all net nodes group key s all).1 ≡ true
      → all ≡ true
  unfolding delete_all
  delete_all_flag [] s all h = h
  delete_all_flag (addr ∷ nodes) s all h = and_right _ all (delete_all_flag nodes _ _ h)

  delete_all_gone :
      (nodes : List Str) (s : S) (all : Bool)
      → (delete_all net nodes group key s all).1 ≡ true
      → (a : Str) → contains a nodes ≡ true
      → remote.Gone a (delete_all net nodes group key s all).0
  unfolding delete_all contains
  delete_all_gone [] s all h a here = cc
  delete_all_gone (addr ∷ nodes) s all h a here = elim (str_dec addr a) [
    | yes q ↦ delete_all_keeps nodes _ _ a (
        subst (λ x. remote.Gone x (net.delete s addr group key).0) q
          (remote.delete_gone s addr (and_left _ all (delete_all_flag nodes _ _ h))))
    | no q ↦ delete_all_gone nodes _ _ h a (ground (arith, here, q))
  ]

  -- If `Set` reports success, the node that the key is sent to has the value, and every other node
  -- of the client's set has lost what it held for the key.
  pub client_set-spreads :
      (s : S) (c : Client) (value : Str)
      → (client_set net s c group key value).2 ≡ true
      → let s' = (client_set net s c group key value).0 in
        let target = (get_cache_node c key).1 in
        remote.Has target value s'
        × ((a : Str) → contains a c.cache_nodes_ ≡ true → a ≢ target → remote.Gone a s')
  unfolding client_set
  client_set-spreads s c value h =
      let r = get_cache_node c key in
      let (has, gone) = set_at-spreads r.0.cache_nodes_ r.1 value s h in
      (has, λ a here other. gone a (ap (contains a) (get_cache_node_nodes c key) ∙ here) other)

  -- If `Delete` reports success, every node of the client's set has lost the key, and the set was
  -- not empty.
  pub client_delete-gone :
      (s : S) (c : Client)
      → (client_delete net s c group key).1 ≡ true
      → (is_empty c.cache_nodes_ ≡ false)
        × ((a : Str)
            → contains a c.cache_nodes_ ≡ true
            → remote.Gone a (client_delete net s c group key).0)
  unfolding client_delete
  client_delete-gone s c h = elim (Bool-cases (is_empty c.cache_nodes_)) [
    | inl none_known ↦ cc (
        sym h
        ∙ ap
            (λ (b : Bool).
              (if b then (s, false) else delete_all net c.cache_nodes_ group key s true).1)
            none_known)
    | inr known ↦
        let all =
          ap (λ b. if b then (s, false) else delete_all net c.cache_nodes_ group key s true)
            known in
        (
          known,
          λ a here.
              rw all (delete_all_gone c.cache_nodes_ s true (ap (λ x. x.1) (sym all) ∙ h) a here),
        )
  ]
