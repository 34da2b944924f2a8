-- ===== src/Sdk/Targets.antt =====
-- What src/client/client_sdk.cpp routes to, from its start on.
use youdge.Base.{
  ℕ, ◌≡◌, ◌≢◌, refl, sym, ap, subst, ◌∙◌, ◌⊎◌, inl, inr, Bool, true, false, List, [], ◌∷◌, Option,
  none, some, Str, str_dec, is_empty, arith, if◌then◌else◌,
}
use youdge.Base.Int.{ℤ}
use youdge.Base.UnorderedMap
use youdge.Ring
use youdge.Ring.{Ring, HashConfig, add, add_nodes, add_node}
use youdge.Ring.Invariant.{OwnedBy, Admits, is_some}
use youdge.Ring.Routing.{route, Routed, nowhere, to_owner, get-Routed, answer}
use youdge.Sdk.{
  parse_addr_from_key, Client, new_client, contains, Event, join, handle_events, fetch_keys,
  fetch_all_services, or_begin, node_among, get_cache_node,
}
use youdge.Sdk.Discovery.{
  InStep, new_client-InStep, replicas-add, join-InStep, handle_events-InStep,
}

-- Every registered node has the configured number of virtual nodes.
abbrev pub Uniform : Client → Type 0
Uniform c =
    (n : Str) (r : ℤ)
    → UnorderedMap.find str_dec n c.consistent_hash_.node_replicas_ ≡ some r
    → r ≡ c.consistent_hash_.config_.replicas

join-Uniform : (c : Client) (x : ℕ) (name : Str) → Uniform c → Uniform (join c (x ∷ name))
join-Uniform c x name u n r e =
    let m = c.consistent_hash_ in
    let (replicas, config) = replicas-add m x name in
    let found =
      sym (UnorderedMap.find-insert str_dec (x ∷ name) n m.config_.replicas m.node_replicas_)
      ∙ sym (ap (UnorderedMap.find str_dec n) replicas)
      ∙ e in
    elim (str_dec (x ∷ name) n) [
      | yes p ↦ ground (arith, found, p, ap (λ (k : HashConfig). k.replicas) config)
      | no p ↦
          let old : UnorderedMap.find str_dec n m.node_replicas_ ≡ some r = ground (arith, found) in
          u n r old ∙ sym (ap (λ (k : HashConfig). k.replicas) config)
    ]

Uniform-Admits : (o : Option ℤ) (c : ℤ) → ((r : ℤ) → o ≡ some r → r ≡ c) → Admits o c
Uniform-Admits none c u = tt
Uniform-Admits (some r) c u = rw (u r refl) (omega arith)

-- The body of the loop of `FetchAllServices`.
joined-InStep :
    (c : Client) (addr : Str)
    → InStep c
    → Uniform c
    → InStep (if is_empty addr then c else join c addr)
      × Uniform (if is_empty addr then c else join c addr)
joined-InStep c [] v u = (v, u)
joined-InStep c (x ∷ name) v u =
    (join-InStep c x name (Uniform-Admits _ _ (u (x ∷ name))) v, join-Uniform c x name u)

fetch_keys-InStep :
    (keys : List Str) (c : Client) → InStep c → Uniform c → InStep (fetch_keys keys c)
unfolding fetch_keys
fetch_keys-InStep [] c v u = v
fetch_keys-InStep (key ∷ keys) c v u =
    let r = joined-InStep c (parse_addr_from_key c.service_name_ key) v u in
    fetch_keys-InStep keys _ r.0 r.1

new_client-Uniform : (name : Str) (cfg : HashConfig) → Uniform (new_client name cfg)
unfolding Ring.init UnorderedMap.find
new_client-Uniform name cfg n r e = cc

-- A new client that fetches the services, also with keys of other services or one key twice, and
-- then handles any watch events, has a sound ring that holds exactly the nodes of its set.
pub discovered-InStep :
    (name : Str) (cfg : HashConfig) (is_ok : Bool) (keys : List Str) (events : List Event)
    → InStep (handle_events events (fetch_all_services (new_client name cfg) is_ok keys).0)
unfolding fetch_all_services
discovered-InStep name cfg true keys events =
    handle_events-InStep events _
      (fetch_keys-InStep keys _ (new_client-InStep name cfg) (new_client-Uniform name cfg))
discovered-InStep name cfg false keys events =
    handle_events-InStep events _ (new_client-InStep name cfg)

-- A named owner of a virtual node is in the set.
owner-contains :
    (c : Client) (key : Str)
    → InStep c
    → Routed c.consistent_hash_ key
    → (route c.consistent_hash_ key ≡ [])
      ⊎ (contains (route c.consistent_hash_ key) c.cache_nodes_ ≡ true)
owner-contains c key v (nowhere e r) = inl r
owner-contains c key v (to_owner x n f o r) =
    let m = c.consistent_hash_ in
    let w : OwnedBy m.config_.hash_func m.node_replicas_ x (some n) =
      subst (OwnedBy m.config_.hash_func m.node_replicas_ x) o (v.valid.linked.owned x) in
    inr (ap (λ a. contains a c.cache_nodes_) (ap answer r) ∙ sym (v.same n) ∙ ap is_some w.1)

route-contains :
    (c : Client) (key : Str)
    → InStep c
    → (route c.consistent_hash_ key ≡ [])
      ⊎ (contains (route c.consistent_hash_ key) c.cache_nodes_ ≡ true)
unfolding Ring.get
route-contains c [] v = inl refl
route-contains c (k ∷ key) v =
    owner-contains c (k ∷ key) v (get-Routed c.consistent_hash_ k key v.valid)

begin-contains :
    (first addr : Str) (nodes : List Str)
    → (addr ≡ []) ⊎ (contains addr (first ∷ nodes) ≡ true)
    → contains (or_begin first addr) (first ∷ nodes) ≡ true
unfolding contains
begin-contains first [] nodes w = ground arith
begin-contains first (c ∷ addr) nodes (inl e) = cc
begin-contains first (c ∷ addr) nodes (inr h) = h

node_among-contains :
    (c : Client) (key : Str) (nodes : List Str)
    → (route c.consistent_hash_ key ≡ []) ⊎ (contains (route c.consistent_hash_ key) nodes ≡ true)
    → nodes ≢ []
    → contains (node_among nodes c key).1 nodes ≡ true
unfolding node_among
node_among-contains c key [] w some_node = absurd (some_node refl)
node_among-contains c key (first ∷ nodes) w some_node =
    begin-contains first (route c.consistent_hash_ key) nodes w

-- A client in step that knows a node sends every key, the empty one too, to a node of its set.
pub get_cache_node-contains :
    (c : Client) (key : Str)
    → InStep c
    → c.cache_nodes_ ≢ []
    → contains (get_cache_node c key).1 c.cache_nodes_ ≡ true
unfolding get_cache_node
get_cache_node-contains c key v some_node =
    node_among-contains c key c.cache_nodes_ (route-contains c key v) some_node
