-- ===== src/Sdk/Tests.antt =====
-- Runs of src/client/client_sdk.cpp, and the theorems at concrete clients and at a network that
-- keeps the addresses of the nodes with a value.
use youdge.Base.{
  ◌≡◌, ◌≢◌, refl, ◌∙◌, true, false, List, [], ◌∷◌, none, Str, str_dec, codes, length, arith,
  is_empty,
}
use youdge.Base.Int.{pos}
use youdge.Base.UnorderedMap
use youdge.Ring
use youdge.Ring.{HashConfig}
use youdge.Sdk.{
  Client, Network, new_client, contains, insert, erase, service_key, Event, put, delete,
  handle_events, handle_watch_events, fetch_keys, fetch_all_services, parse_addr_from_key,
  has_prefix, handle_event, apply_event, node_among, get_cache_node, broadcast, set_at,
  invalidate_others, client_set, delete_all, client_delete,
}
use youdge.Sdk.Discovery.{parse_addr_from_key-service_key, InStep, contains-insert, contains-erase}
use youdge.Sdk.Targets.{discovered-InStep}
use youdge.Sdk.Broadcast.{Remote}
use youdge.Sdk.Spread.{client_set-spreads, client_delete-gone}

abbrev config : HashConfig
config = record { replicas = pos 2; min_replicas = pos 1; max_replicas = pos 4; hash_func = length }

abbrev new : Client
new = new_client (codes "kcache") config

abbrev keys : List Str
keys =
    service_key (codes "10.0.0.1") (codes "kcache") (codes ":8001")
    ∷ service_key [] (codes "kcache") (codes "10.0.0.2:8002")
    ∷ service_key [] (codes "other") (codes "10.0.0.3:8003")
    ∷ []

abbrev events : List Event
events =
    record { event_type = delete; key = service_key [] (codes "kcache") (codes "10.0.0.2:8002") }
    ∷ record { event_type = put; key = service_key [] (codes "kcache") (codes "10.0.0.4:8004") }
    ∷ []

abbrev discovered : Client
discovered = handle_events events (fetch_all_services new true keys).0

discovered-InStep_example : InStep discovered
discovered-InStep_example = discovered-InStep (codes "kcache") config true keys events

opened : Unit {0}
unfolding Ring.init Ring.add Ring.remove contains insert erase service_key handle_events
    handle_watch_events fetch_keys fetch_all_services parse_addr_from_key has_prefix handle_event
    apply_event node_among get_cache_node str_dec UnorderedMap.find
opened = tt

nodes_of_discovered : discovered.cache_nodes_ ≡ codes "10.0.0.4:8004" ∷ codes "10.0.0.1:8001" ∷ []
unfolding opened
nodes_of_discovered = refl

-- A network whose state is the list of the nodes that hold a value for the one key in use.
abbrev holders : Network (List Str)
holders = record {
  get = λ s addr group key. (s, none);
  set = λ s addr group key value. (insert addr s, true);
  delete = λ s addr group key. (erase addr s, true);
  invalidate = λ s addr group key. (erase addr s, true);
}

contains-insert_same : (a : Str) (l : List Str) → contains a (insert a l) ≡ true
contains-insert_same a l = contains-insert a a l ∙ ground arith

contains-erase_same : (a : Str) (l : List Str) → contains a (erase a l) ≡ false
contains-erase_same a l = contains-erase a a l ∙ ground arith

contains-erase_keeps :
    (a n : Str) (l : List Str) → contains n l ≡ false → contains n (erase a l) ≡ false
contains-erase_keeps a n l h = contains-erase a n l ∙ ground (arith, h)

contains-erase_other :
    (a n : Str) (l : List Str) → a ≢ n → contains n l ≡ true → contains n (erase a l) ≡ true
contains-erase_other a n l p h = contains-erase a n l ∙ ground (arith, h, p)

abbrev holders-Remote : Remote holders (codes "g") (codes "k")
holders-Remote = record {
  Has = λ addr value s. contains addr s ≡ true;
  Gone = λ addr s. contains addr s ≡ false;
  set_has = λ s addr value h. contains-insert_same addr s;
  invalidate_gone = λ s addr h. contains-erase_same addr s;
  invalidate_keeps = λ s addr other g. contains-erase_keeps addr other s g;
  invalidate_spares = λ s addr other value p h. contains-erase_other addr other s p h;
  delete_gone = λ s addr h. contains-erase_same addr s;
  delete_keeps = λ s addr other g. contains-erase_keeps addr other s g;
}

abbrev known : Client
known = record new {
  cache_nodes_ = codes "n1" ∷ codes "n2" ∷ codes "n3" ∷ [];
  consistent_hash_ = (Ring.add (Ring.init config) (codes "n2" ∷ [])).0;
}

abbrev before : List Str
before = codes "n1" ∷ codes "n3" ∷ []

set_done : (client_set holders before known (codes "g") (codes "k") (codes "v")).2 ≡ true
unfolding opened client_set set_at invalidate_others broadcast Ring.get Ring.add_nodes Ring.add_node
    Ring.add_vnodes Ring.hash_key Ring.digits Ring.insert_sorted Ring.sort Ring.lower_bound
    Ring.ring_position Ring.owner Ring.count_request UnorderedMap.insert UnorderedMap.erase
set_done = refl

client_set-spreads_example :
    let s = (client_set holders before known (codes "g") (codes "k") (codes "v")).0 in
    let target = (get_cache_node known (codes "k")).1 in
    (contains target s ≡ true)
    × ((a : Str) → contains a known.cache_nodes_ ≡ true → a ≢ target → contains a s ≡ false)
client_set-spreads_example =
    client_set-spreads holders (codes "g") (codes "k") holders-Remote before known (codes "v")
      set_done

delete_done : (client_delete holders before known (codes "g") (codes "k")).1 ≡ true
unfolding client_delete delete_all
delete_done = refl

client_delete-gone_example :
    (is_empty known.cache_nodes_ ≡ false)
    × ((a : Str)
        → contains a known.cache_nodes_ ≡ true
        → contains a (client_delete holders before known (codes "g") (codes "k")).0 ≡ false)
client_delete-gone_example =
    client_delete-gone holders (codes "g") (codes "k") holders-Remote before known delete_done

parse_addr_from_key-service_key_example :
    parse_addr_from_key
      (codes "kcache")
      (service_key (codes "10.0.0.1") (codes "kcache") (codes ":8001"))
    ≡ codes "10.0.0.1:8001"
parse_addr_from_key-service_key_example =
    parse_addr_from_key-service_key (codes "10.0.0.1") (codes "kcache") b':' (codes "8001")
