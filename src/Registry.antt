-- ===== src/Registry.antt =====
-- src/registry/registry.cpp: a node's registration in etcd under a lease. etcd is the parameter
-- `Etcd`, with its state `W`; the interfaces of the machine are an argument. A second Register while
-- the thread is there assigns to a joinable `std::thread`, which ends the program: `none`.
pub mod Leases
mod Tests
use youdge.Base.{
  ℕ, zero, suc, ◌+◌, Bool, true, false, not, List, [], ◌∷◌, ◌++◌, Option, none, some, Str, str_dec,
  codes, ite, is_empty, ◌==◌, ltb, if◌then◌else◌, ◌>>=◌,
}
use youdge.Base.Int.{ℤ, pos, ltb_ℤ}
use youdge.Sdk.{service_key}

-- The calls of etcd's client: a new lease with its time to live in seconds, or no lease; a put under
-- a lease; the renewal of a lease; its end. A Bool says whether etcd did what it was asked; for
-- the end of a lease, the Bool before it says whether the status of the task, which `wait` gives, is
-- not zero. `sleep` is what the world is some seconds later.
pub record Etcd (W : Type 0) : Type 0 where
  pub lease_grant : W → ℕ → W × Option ℤ
  pub put : W → Str → Str → ℤ → W × Bool
  pub keep_alive : W → ℕ → ℤ → W × Bool
  pub lease_revoke : W → ℤ → W × Bool × Bool
  pub sleep : W → ℕ → W

pub record EtcdRegistry : Type 0 where
  pub lease_id : ℤ
  pub key : Str
  pub has_thread : Bool
  pub is_stop : Bool

abbrev pub new_registry : EtcdRegistry
new_registry = record { lease_id = pos 0; key = []; has_thread = false; is_stop = false }

-- One interface: whether it has an IPv4 address, and its text.
pub record IfAddr : Type 0 where
  pub is_inet : Bool
  pub text : Str

unfoldable pub first_ip : List IfAddr → Str
first_ip [] = []
first_ip (i ∷ l) =
    let rest = first_ip l in
    if i.is_inet then ite (str_dec i.text (codes "127.0.0.1")) rest i.text else rest

-- `none` is a `getifaddrs` that failed.
unfoldable pub get_local_ip : Option (List IfAddr) → Str
get_local_ip none = []
get_local_ip (some l) = first_ip l

-- The address with the local IP before it, if it starts with a colon.
unfoldable pub full_addr : Str → Str → Str
full_addr ip [] = []
full_addr ip (c ∷ addr) = if c == b':' then ip ++ (c ∷ addr) else c ∷ addr

module _ {W : Type 0} (etcd : Etcd W) where
  -- From the put on.
  unfoldable pub put_key : EtcdRegistry → W → Str → Option (EtcdRegistry × W × Bool)
  put_key r w addr =
      let (w', is_ok) = etcd.put w r.key addr r.lease_id in
      let started : Option (EtcdRegistry × W × Bool) =
        if r.has_thread then none else some (record r { has_thread = true }, w', true) in
      if is_ok then started else some (r, w', false)

  unfoldable pub register :
      Option (List IfAddr) → EtcdRegistry → W → Str → Str → Option (EtcdRegistry × W × Bool)
  register ifs r w svc_name addr =
      let ip = get_local_ip ifs in
      let r' = record r { key = service_key ip svc_name addr } in
      let (w', lease) = etcd.lease_grant w 10 in
      let granted : Option (EtcdRegistry × W × Bool) = elim lease [
        | none ↦ some (r', w', false)
        | some id ↦ put_key (record r' { lease_id = id }) w' (full_addr ip addr)
      ] in
      if is_empty ip then some (r, w, false) else granted

  -- A round of the thread, which sleeps for 3 seconds, with whether it goes on.
  unfoldable pub keep_alive_round : EtcdRegistry → W → W × Bool
  keep_alive_round r w =
      if r.is_stop then (w, false) else (etcd.sleep (etcd.keep_alive w 10 r.lease_id).0 3, true)

  -- `true` is the exception, for a task whose status is zero; whether etcd ended the lease is not
  -- looked at. The thread has ended before the lease is revoked.
  unfoldable pub unregister : EtcdRegistry → W → EtcdRegistry × W × Bool
  unregister r w =
      let r' = record r { is_stop = true; has_thread = false } in
      let (w', is_ok, is_revoked) = etcd.lease_revoke w r.lease_id in
      if ltb_ℤ (pos 0) r.lease_id then (r', w', not is_ok) else (r', w, false)
