-- ===== src/Sdk/Discovery.antt =====
-- Service discovery in src/client/client_sdk.cpp: the registered key comes back as the address,
-- and the node set and the ring stay in step.
use youdge.Base.{
  ℕ, ◌≡◌, ◌≢◌, refl, sym, ap, subst, ◌∙◌, inl, inr, Bool, true, false, List, [], ◌∷◌, ◌++◌, Option,
  none, some, ite, if_pos, if_neg, Str, str_dec, length, is_empty, drop, arith, ◌==◌, if◌then◌else◌,
  Bool-cases, Option-cases,
}
use youdge.Base.Int.{ℤ}
use youdge.Base.UnorderedMap
use youdge.Ring
use youdge.Ring.{Ring, HashConfig, add, add_nodes, add_node}
use youdge.Ring.Invariant.{IsValid, Admits, init-IsValid, add-IsValid, add_node_rest, is_some}
use youdge.Ring.Removal.{remove-IsValid, remove-without, without}
use youdge.Sdk.{
  service_prefix, service_key, has_prefix, parse_addr_from_key, Client, new_client, contains,
  insert, erase, EventType, put, delete, unknown, Event, join, leave, apply_event, handle_event,
  handle_events, handle_watch_events,
}

has_prefix-append : (prefix rest : Str) → has_prefix prefix (prefix ++ rest) ≡ true
unfolding has_prefix
has_prefix-append [] rest = refl
has_prefix-append (c ∷ prefix) rest = ground (arith, has_prefix-append prefix rest)

drop-append : (prefix rest : Str) → drop (length prefix) (prefix ++ rest) ≡ rest
drop-append [] rest = refl
drop-append (c ∷ prefix) rest = drop-append prefix rest

parse-append : (name addr : Str) → parse_addr_from_key name (service_prefix name ++ addr) ≡ addr
unfolding parse_addr_from_key
parse-append name addr =
    rw (has_prefix-append (service_prefix name) addr, drop-append (service_prefix name) addr) refl

-- A node that registers an address under a service name is discovered by the clients of that
-- service at this address; an address that is only a port gets the node's IP before it.
pub parse_addr_from_key-service_key :
    (local_ip name : Str) (c : ℕ) (addr : Str)
    → parse_addr_from_key name (service_key local_ip name (c ∷ addr))
      ≡ (if c == b':' then local_ip ++ (c ∷ addr) else c ∷ addr)
unfolding service_key
parse_addr_from_key-service_key local_ip name c addr = parse-append name _

-- The ring is sound, and its nodes are those of the set.
pub record InStep (c : Client) : Type 0 where
  pub valid : IsValid c.consistent_hash_
  pub same :
      (n : Str)
      → is_some (UnorderedMap.find str_dec n c.consistent_hash_.node_replicas_)
        ≡ contains n c.cache_nodes_

pub new_client-InStep : (name : Str) (cfg : HashConfig) → InStep (new_client name cfg)
unfolding Ring.init contains UnorderedMap.find
new_client-InStep name cfg = record { valid = init-IsValid cfg; same = λ n. refl }

pub contains-insert :
    (a n : Str) (l : List Str) → contains n (insert a l) ≡ ite (str_dec a n) true (contains n l)
unfolding insert contains
contains-insert a n l = elim (Bool-cases (contains a l)) [
  | inl h ↦ elim (str_dec a n) [
    | yes p ↦ rw (h, if_pos _ p) (subst (λ k. contains k l ≡ true) p h)
    | no p ↦ rw (h, if_neg _ p) refl
  ]
  | inr h ↦ rw h refl
]

pub contains-erase :
    (a n : Str) (l : List Str) → contains n (erase a l) ≡ ite (str_dec a n) false (contains n l)
unfolding erase contains
contains-erase a n [] = ground arith
contains-erase a n (b ∷ l) = ground (arith, contains-erase a n l)

pub replicas-add :
    (m : Ring) (c : ℕ) (name : Str)
    → ((add m ((c ∷ name) ∷ [])).0.node_replicas_
        ≡ UnorderedMap.insert str_dec (c ∷ name) m.config_.replicas m.node_replicas_)
      × ((add m ((c ∷ name) ∷ [])).0.config_ ≡ m.config_)
unfolding add add_nodes
replicas-add m c name = let rest = add_node_rest m (c ∷ name) m.config_.replicas in (rest.1, rest.0)

pub join-InStep :
    (c : Client) (x : ℕ) (name : Str)
    → Admits
        (UnorderedMap.find str_dec (x ∷ name) c.consistent_hash_.node_replicas_)
        c.consistent_hash_.config_.replicas
    → InStep c
    → InStep (join c (x ∷ name))
join-InStep c x name admits v = record {
  valid = add-IsValid c.consistent_hash_ ((x ∷ name) ∷ []) (admits, tt) v.valid;
  same = λ n.
      let m = c.consistent_hash_ in
      ap (λ r. is_some (UnorderedMap.find str_dec n r)) (replicas-add m x name).0
      ∙ ap is_some
          (UnorderedMap.find-insert str_dec (x ∷ name) n m.config_.replicas m.node_replicas_)
      ∙ ground (arith, v.same n)
      ∙ sym (contains-insert (x ∷ name) n c.cache_nodes_);
}

replicas-remove :
    (m : Ring) (node n : Str)
    → node ≢ []
    → is_some (UnorderedMap.find str_dec n (Ring.remove m node).0.node_replicas_)
      ≡ ite (str_dec node n) false (is_some (UnorderedMap.find str_dec n m.node_replicas_))
unfolding without
replicas-remove m [] n named = absurd (named refl)
replicas-remove m (x ∷ name) n named =
    elim (Option-cases (UnorderedMap.find str_dec (x ∷ name) m.node_replicas_)) [
      | inl e ↦ unfold Ring.remove in rw (e, Ring.remove) (ground (arith, e))
      | inr (r, e) ↦
          ap (λ (p : Ring × Bool). is_some (UnorderedMap.find str_dec n p.0.node_replicas_))
            (remove-without m (x ∷ name) r named e)
          ∙ ap is_some (UnorderedMap.find-erase str_dec (x ∷ name) n m.node_replicas_)
          ∙ ground arith
    ]

leave-InStep : (c : Client) (addr : Str) → addr ≢ [] → InStep c → InStep (leave c addr)
leave-InStep c addr named v = record {
  valid = remove-IsValid c.consistent_hash_ addr v.valid;
  same = λ n.
      replicas-remove c.consistent_hash_ addr n named
      ∙ ap (ite (str_dec addr n) false) (v.same n)
      ∙ sym (contains-erase addr n c.cache_nodes_);
}

is_some-Admits : (o : Option ℤ) (r : ℤ) → is_some o ≡ false → Admits o r
is_some-Admits none r h = tt
is_some-Admits (some q) r h = cc

apply_event-InStep :
    (c : Client) (t : EventType) (x : ℕ) (name : Str)
    → InStep c
    → InStep (apply_event c t (x ∷ name))
unfolding apply_event
apply_event-InStep c put x name v = elim (Bool-cases (contains (x ∷ name) c.cache_nodes_)) [
  | inl h ↦ rw (h, apply_event) v
  | inr h ↦
      rw (h, apply_event) (join-InStep c x name (is_some-Admits _ _ (v.same (x ∷ name) ∙ h)) v)
]
apply_event-InStep c delete x name v = elim (Bool-cases (contains (x ∷ name) c.cache_nodes_)) [
  | inl h ↦ rw (h, apply_event) (leave-InStep c (x ∷ name) (λ e. cc) v)
  | inr h ↦ rw (h, apply_event) v
]
apply_event-InStep c unknown x name v = v

named-InStep :
    (c : Client) (t : EventType) (addr : Str)
    → InStep c
    → InStep (if is_empty addr then c else apply_event c t addr)
named-InStep c t [] v = v
named-InStep c t (x ∷ name) v = apply_event-InStep c t x name v

pub handle_events-InStep :
    (events : List Event) (c : Client) → InStep c → InStep (handle_events events c)
unfolding handle_events handle_event
handle_events-InStep [] c v = v
handle_events-InStep (e ∷ events) c v =
    handle_events-InStep events _
      (named-InStep c e.event_type (parse_addr_from_key c.service_name_ e.key) v)

-- No watch event takes the ring out of step with the node set, whatever the reply's status, the
-- events' types and their keys: after it the ring is sound and holds exactly the set's nodes.
pub handle_watch_events-InStep :
    (c : Client) (is_ok : Bool) (events : List Event)
    → InStep c
    → InStep (handle_watch_events c is_ok events)
unfolding handle_watch_events
handle_watch_events-InStep c true events v = handle_events-InStep events c v
handle_watch_events-InStep c false events v = v
