-- ===== src/Sdk.antt =====
-- src/client/client_sdk.cpp, include/kcache/client.h and the key that src/registry/registry.cpp
-- registers: the client of the cache, its node set and its routing. The calls of etcd and of gRPC
-- are parameters: etcd's replies are arguments, and the remote calls are a `Network`. A method
-- under `nodes_mutex_` is one step.
pub mod Discovery
pub mod Targets
pub mod Broadcast
pub mod Spread
mod Tests
use youdge.Base.{
  ℕ, zero, suc, Bool, true, false, not, ◌&&◌, List, [], ◌∷◌, ◌++◌, Option, none, some, ite, Str,
  str_dec, codes, length, is_empty, drop, ◌==◌, if◌then◌else◌,
}
use youdge.Ring
use youdge.Ring.{Ring, HashConfig}

-- `"/services/" + service_name_ + "/"`
abbrev pub service_prefix : Str → Str
service_prefix service_name = codes "/services/" ++ (service_name ++ codes "/")

-- The key that `Register` puts: an address that is only a port gets the local IP before it.
unfoldable pub service_key : Str → Str → Str → Str
service_key local_ip svc_name [] = service_prefix svc_name
service_key local_ip svc_name (c ∷ addr) =
    service_prefix svc_name ++ (if c == b':' then local_ip ++ (c ∷ addr) else c ∷ addr)

-- `key.rfind(prefix, 0) == 0`
unfoldable pub has_prefix : Str → Str → Bool
has_prefix [] key = true
has_prefix (c ∷ prefix) [] = false
has_prefix (c ∷ prefix) (d ∷ key) = c == d && has_prefix prefix key

unfoldable pub parse_addr_from_key : Str → Str → Str
parse_addr_from_key service_name key =
    if has_prefix (service_prefix service_name) key
    then drop (length (service_prefix service_name)) key
    else []

pub record Client : Type 0 where
  pub service_name_ : Str
  pub cache_nodes_ : List Str
  pub consistent_hash_ : Ring

abbrev pub new_client : Str → HashConfig → Client
new_client service_name cfg = record {
  service_name_ = service_name;
  cache_nodes_ = [];
  consistent_hash_ = Ring.init cfg;
}

-- `std::unordered_set`: membership, `insert` and `erase`. The order of the list is one order in
-- which a range-for may visit the elements, and its head is what `begin` leads to.
unfoldable pub contains : Str → List Str → Bool
contains a [] = false
contains a (b ∷ l) = ite (str_dec b a) true (contains a l)

unfoldable pub insert : Str → List Str → List Str
insert a l = if contains a l then l else a ∷ l

unfoldable pub erase : Str → List Str → List Str
erase a [] = []
erase a (b ∷ l) = ite (str_dec b a) (erase a l) (b ∷ erase a l)

pub data EventType : Type 0 where
  put : EventType
  delete : EventType
  unknown : EventType

pub record Event : Type 0 where
  pub event_type : EventType
  pub key : Str

abbrev pub join : Client → Str → Client
join c addr = record c {
  cache_nodes_ = insert addr c.cache_nodes_;
  consistent_hash_ = (Ring.add c.consistent_hash_ (addr ∷ [])).0;
}

abbrev pub leave : Client → Str → Client
leave c addr = record c {
  cache_nodes_ = erase addr c.cache_nodes_;
  consistent_hash_ = (Ring.remove c.consistent_hash_ addr).0;
}

-- The `switch` of `HandleWatchEvents`, for an address that is not empty.
unfoldable pub apply_event : Client → EventType → Str → Client
apply_event c put addr = if contains addr c.cache_nodes_ then c else join c addr
apply_event c delete addr = if contains addr c.cache_nodes_ then leave c addr else c
apply_event c unknown addr = c

unfoldable pub handle_event : Client → Event → Client
handle_event c e =
    let addr = parse_addr_from_key c.service_name_ e.key in
    if is_empty addr then c else apply_event c e.event_type addr

unfoldable pub handle_events : List Event → Client → Client
handle_events [] c = c
handle_events (e ∷ events) c = handle_events events (handle_event c e)

unfoldable pub handle_watch_events : Client → Bool → List Event → Client
handle_watch_events c is_ok events = if is_ok then handle_events events c else c

unfoldable pub fetch_keys : List Str → Client → Client
fetch_keys [] c = c
fetch_keys (key ∷ keys) c =
    let addr = parse_addr_from_key c.service_name_ key in
    fetch_keys keys (if is_empty addr then c else join c addr)

unfoldable pub fetch_all_services : Client → Bool → List Str → Client × Bool
fetch_all_services c is_ok keys = if is_ok then (fetch_keys keys c, true) else (c, false)

-- Where the ring has no answer, the first node of the set.
abbrev pub or_begin : Str → Str → Str
or_begin first [] = first
or_begin first (c ∷ addr) = c ∷ addr

unfoldable pub node_among : List Str → Client → Str → Client × Str
node_among [] c key = (c, [])
node_among (first ∷ nodes) c key =
    let (ring, target_addr) = Ring.get c.consistent_hash_ key in
    (record c { consistent_hash_ = ring }, or_begin first target_addr)

unfoldable pub get_cache_node : Client → Str → Client × Str
get_cache_node c key = node_among c.cache_nodes_ c key

-- The remote calls, as the client sees them: `get` answers `response.value()` where the status is
-- OK, and the others answer `status.ok() && response.value()`.
pub record Network (S : Type 0) : Type 0 where
  pub get : S → Str → Str → Str → S × Option Str
  pub set : S → Str → Str → Str → Str → S × Bool
  pub delete : S → Str → Str → Str → S × Bool
  pub invalidate : S → Str → Str → Str → S × Bool

module _ {S : Type 0} (net : Network S) where
  -- `Get` once it has the address.
  unfoldable pub get_at : S → Str → Str → Str → S × Option Str
  get_at s [] group key = (s, none)
  get_at s (c ∷ addr) group key = net.get s (c ∷ addr) group key

  unfoldable pub client_get : S → Client → Str → Str → S × Client × Option Str
  client_get s c group key =
      let (c', target_addr) = get_cache_node c key in
      let (s', value) = get_at s target_addr group key in (s', c', value)

  -- The loop that invalidates the key on every other node.
  unfoldable pub broadcast : List Str → Str → Str → Str → S → Bool → S × Bool
  broadcast [] target group key s all_success = (s, all_success)
  broadcast (addr ∷ nodes) target group key s all_success =
      let (s', success) = net.invalidate s addr group key in
      let rest = broadcast nodes target group key s' (success && all_success) in
      let skip = broadcast nodes target group key s all_success in
      ite (str_dec addr target) skip rest

  -- `Set` once it has the address, and after the remote `Set`.
  unfoldable pub invalidate_others : List Str → Str → Str → Str → S × Bool → S × Bool
  invalidate_others nodes target group key (s, false) = (s, false)
  invalidate_others nodes target group key (s, true) = broadcast nodes target group key s true

  unfoldable pub set_at : List Str → S → Str → Str → Str → Str → S × Bool
  set_at nodes s [] group key value = (s, false)
  set_at nodes s (c ∷ addr) group key value =
      invalidate_others nodes (c ∷ addr) group key (net.set s (c ∷ addr) group key value)

  unfoldable pub client_set : S → Client → Str → Str → Str → S × Client × Bool
  client_set s c group key value =
      let (c', target_addr) = get_cache_node c key in
      let (s', success) = set_at c'.cache_nodes_ s target_addr group key value in (s', c', success)

  unfoldable pub delete_all : List Str → Str → Str → S → Bool → S × Bool
  delete_all [] group key s all_success = (s, all_success)
  delete_all (addr ∷ nodes) group key s all_success =
      let (s', success) = net.delete s addr group key in
      delete_all nodes group key s' (success && all_success)

  unfoldable pub client_delete : S → Client → Str → Str → S × Bool
  client_delete s c group key =
      if is_empty c.cache_nodes_ then (s, false) else delete_all c.cache_nodes_ group key s true
