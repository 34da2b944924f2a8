-- ===== src/Registry/Leases.antt =====
-- What a registration and its end leave in etcd.
use youdge.Base.{
  ℕ, zero, suc, ◌<◌, ◌≤◌, ◌≡◌, refl, ap, ◌∙◌, Bool, true, false, List, Option, none, some, Str,
  is_empty, if◌then◌else◌, arith,
}
use youdge.Base.Int.{ℤ, pos, ltb_ℤ}
use youdge.Sdk.{service_key}
use youdge.Registry.{
  Etcd, EtcdRegistry, IfAddr, get_local_ip, full_addr, register, put_key, keep_alive_round,
  unregister,
}

-- etcd's keys with their values and leases, and the seconds that a lease still has. A new lease has
-- at most its time to live, and a put that succeeds leaves its key under its lease and gives the
-- lease no time. A renewal changes no key, and one that succeeds gives the lease its whole time.
-- While its lease lasts a key stays, and then it is gone, as it is when etcd ends the lease. A
-- lease is a positive number, and the status of a task that was waited for is not zero: it is
-- completed or canceled.
pub record KeepsKeys {W : Type 0} (etcd : Etcd W) (value : W → Str → Option (Str × ℤ))
    (left : W → ℤ → ℕ) : Type 0 where
  pub positive :
      (w : W) (ttl : ℕ) (id : ℤ)
      → (etcd.lease_grant w ttl).1 ≡ some id
      → (n : ℕ) × (id ≡ pos (suc n))
  pub granted :
      (w : W) (ttl : ℕ) (id : ℤ)
      → (etcd.lease_grant w ttl).1 ≡ some id
      → left (etcd.lease_grant w ttl).0 id ≤ ttl
  pub puts :
      (w : W) (key v : Str) (id : ℤ)
      → (etcd.put w key v id).1 ≡ true
      → value (etcd.put w key v id).0 key ≡ some (v, id)
  pub put_left : (w : W) (key v : Str) (id : ℤ) → left (etcd.put w key v id).0 id ≤ left w id
  pub keeps :
      (w : W) (ttl : ℕ) (id : ℤ) (key : Str) → value (etcd.keep_alive w ttl id).0 key ≡ value w key
  pub renews :
      (w : W) (ttl : ℕ) (id : ℤ)
      → (etcd.keep_alive w ttl id).1 ≡ true
      → left (etcd.keep_alive w ttl id).0 id ≡ ttl
  pub lasts :
      (w : W) (n : ℕ) (key v : Str) (id : ℤ)
      → n < left w id
      → value w key ≡ some (v, id)
      → value (etcd.sleep w n) key ≡ some (v, id)
  pub expires :
      (w : W) (n : ℕ) (key v : Str) (id : ℤ)
      → left w id ≤ n
      → value w key ≡ some (v, id)
      → value (etcd.sleep w n) key ≡ none
  pub revokes :
      (w : W) (key v : Str) (id : ℤ)
      → (etcd.lease_revoke w id).2 ≡ true
      → value w key ≡ some (v, id)
      → value (etcd.lease_revoke w id).0 key ≡ none
  pub waited : (w : W) (id : ℤ) → (etcd.lease_revoke w id).1 ≡ true

-- Rounds of the renewing thread.
unfoldable pub rounds : {W : Type 0} → Etcd W → ℕ → EtcdRegistry → W → W
rounds etcd zero r w = w
rounds etcd (suc n) r w = rounds etcd n r (keep_alive_round etcd r w).0

-- Rounds in which each renewal succeeds.
abbrev pub AllRenewed : {W : Type 0} → Etcd W → ℕ → EtcdRegistry → W → Type 0
AllRenewed etcd zero r w = Unit {0}
AllRenewed etcd (suc n) r w =
    ((etcd.keep_alive w 10 r.lease_id).1 ≡ true) × AllRenewed etcd n r (keep_alive_round etcd r w).0

module _ {W : Type 0} (etcd : Etcd W) (value : W → Str → Option (Str × ℤ)) (left : W → ℤ → ℕ) where
  -- A renewal outlives the 3 seconds to the next round.
  round-value :
      (r : EtcdRegistry) (w : W) (key v : Str)
      → KeepsKeys etcd value left
      → r.is_stop ≡ false
      → (etcd.keep_alive w 10 r.lease_id).1 ≡ true
      → value w key ≡ some (v, r.lease_id)
      → value (keep_alive_round etcd r w).0 key ≡ some (v, r.lease_id)
  unfolding keep_alive_round
  round-value r w key v laws on ok held = rw on (
      laws.lasts _ 3 key v r.lease_id (omega (arith, laws.renews w 10 r.lease_id ok))
        (laws.keeps w 10 r.lease_id key ∙ held))

  rounds-value :
      (n : ℕ) (r : EtcdRegistry) (w : W) (key v : Str)
      → KeepsKeys etcd value left
      → r.is_stop ≡ false
      → AllRenewed etcd n r w
      → value w key ≡ some (v, r.lease_id)
      → value (rounds etcd n r w) key ≡ some (v, r.lease_id)
  unfolding rounds
  rounds-value zero r w key v laws on ok held = held
  rounds-value (suc n) r w key v laws on ok held =
      rounds-value n r (keep_alive_round etcd r w).0 key v laws on ok.1
        (round-value r w key v laws on ok.0 held)

  -- A thread that is to stop renews nothing.
  rounds-stopped : (n : ℕ) (r : EtcdRegistry) (w : W) → r.is_stop ≡ true → rounds etcd n r w ≡ w
  unfolding rounds keep_alive_round
  rounds-stopped zero r w off = refl
  rounds-stopped (suc n) r w off =
      let step : Bool → W × Bool =
        λ b. if b then (w, false) else (etcd.sleep (etcd.keep_alive w 10 r.lease_id).0 3, true) in
      let idle : (keep_alive_round etcd r w).0 ≡ w = ap (λ b. (step b).0) off in
      ap (rounds etcd n r) idle ∙ rounds-stopped n r w off

  -- Unregister throws nothing, whatever etcd answers.
  unregister_quiet :
      (r : EtcdRegistry) (w : W) → KeepsKeys etcd value left → (unregister etcd r w).2 ≡ false
  unfolding unregister
  unregister_quiet r w laws = ground (arith, laws.waited w r.lease_id)

  unregister_stops :
      (r : EtcdRegistry) (w : W)
      → ((unregister etcd r w).0.is_stop ≡ true) × ((unregister etcd r w).0.has_thread ≡ false)
  unfolding unregister
  unregister_stops r w = (ground arith, ground arith)

  register_lem :
      (ifs : Option (List IfAddr)) (r : EtcdRegistry) (w : W) (svc addr : Str) (id : ℤ) (b : Bool)
      → let ip = get_local_ip ifs in
        let w0 = (etcd.lease_grant w 10).0 in
        r.is_stop ≡ b
        → is_empty ip ≡ false
        → r.has_thread ≡ false
        → (etcd.lease_grant w 10).1 ≡ some id
        → (etcd.put w0 (service_key ip svc addr) (full_addr ip addr) id).1 ≡ true
        → register etcd ifs r w svc addr
          ≡ some (
            record { lease_id = id; key = service_key ip svc addr; has_thread = true; is_stop = b },
            (etcd.put w0 (service_key ip svc addr) (full_addr ip addr) id).0,
            true,
          )
  unfolding register put_key
  register_lem ifs r w svc addr id b stop known alone lease ok =
      let ip = get_local_ip ifs in
      let w0 = (etcd.lease_grant w 10).0 in
      rw (known, lease) (rw (ok, alone) refl)
      ∙ ap
          (λ x. some (
            record { lease_id = id; key = service_key ip svc addr; has_thread = true; is_stop = x },
            (etcd.put w0 (service_key ip svc addr) (full_addr ip addr) id).0,
            true,
          ))
          stop

  pub unregister-register :
      (ifs : Option (List IfAddr)) (r : EtcdRegistry) (w : W) (svc addr : Str) (id : ℤ) (n : ℕ)
      → KeepsKeys etcd value left
      → let ip = get_local_ip ifs in
        let w0 = (etcd.lease_grant w 10).0 in
        let r' : EtcdRegistry = record {
          lease_id = id;
          key = service_key ip svc addr;
          has_thread = true;
          is_stop = false;
        } in
        let w1 = (etcd.put w0 (service_key ip svc addr) (full_addr ip addr) id).0 in
        let w2 = rounds etcd n r' w1 in
        is_empty ip ≡ false
        → r.has_thread ≡ false
        → r.is_stop ≡ false
        → (etcd.lease_grant w 10).1 ≡ some id
        → (etcd.put w0 (service_key ip svc addr) (full_addr ip addr) id).1 ≡ true
        → AllRenewed etcd n r' w1
        → (etcd.lease_revoke w2 id).2 ≡ true
        → (register etcd ifs r w svc addr ≡ some (r', w1, true))
          × (value w2 (service_key ip svc addr) ≡ some (full_addr ip addr, id))
          × ((unregister etcd r' w2).2 ≡ false)
          × ((unregister etcd r' w2).0.has_thread ≡ false)
          × (value (unregister etcd r' w2).1 (service_key ip svc addr) ≡ none)
  unfolding unregister
  unregister-register ifs r w svc addr id n laws known alone on lease ok renewed ended =
      let (m, positive) = laws.positive w 10 id lease in
      let lives : ltb_ℤ (pos 0) id ≡ true = rw positive (ground arith) in
      let r' : EtcdRegistry = record {
        lease_id = id;
        key = service_key (get_local_ip ifs) svc addr;
        has_thread = true;
        is_stop = false;
      } in
      let stays = rounds-value n r' _ _ _ laws refl renewed (laws.puts _ _ _ id ok) in
      (
        register_lem ifs r w svc addr id false on known alone lease ok,
        stays,
        unregister_quiet r' _ laws,
        rw lives refl,
        rw lives (laws.revokes _ _ _ id ended stays),
      )

  -- After an Unregister, for an interface with an address and calls that succeed, over any etcd
  -- that keeps these promises: a new registration succeeds too; but its thread ends at once and renews nothing in any round, and 10
  -- seconds after the registration the key is gone.
  pub register-unregister :
      (ifs : Option (List IfAddr)) (r : EtcdRegistry) (w : W) (svc addr : Str) (id : ℤ) (n : ℕ)
      → KeepsKeys etcd value left
      → let ip = get_local_ip ifs in
        let old = unregister etcd r w in
        let w0 = (etcd.lease_grant old.1 10).0 in
        let r' : EtcdRegistry = record {
          lease_id = id;
          key = service_key ip svc addr;
          has_thread = true;
          is_stop = true;
        } in
        let w1 = (etcd.put w0 (service_key ip svc addr) (full_addr ip addr) id).0 in
        is_empty ip ≡ false
        → (etcd.lease_grant old.1 10).1 ≡ some id
        → (etcd.put w0 (service_key ip svc addr) (full_addr ip addr) id).1 ≡ true
        → (register etcd ifs old.0 old.1 svc addr ≡ some (r', w1, true))
          × (rounds etcd n r' w1 ≡ w1)
          × (value w1 (service_key ip svc addr) ≡ some (full_addr ip addr, id))
          × (value (etcd.sleep w1 10) (service_key ip svc addr) ≡ none)
  register-unregister ifs r w svc addr id n laws known lease ok =
      let old = unregister etcd r w in
      let (off, alone) = unregister_stops r w in
      let there = laws.puts _ _ _ id ok in
      (
        register_lem ifs old.0 old.1 svc addr id true off known alone lease ok,
        rounds-stopped n _ _ refl,
        there,
        laws.expires _ 10 _ _ id
            (omega (arith, laws.granted old.1 10 id lease, laws.put_left _ _ _ id)) there,
      )
