-- ===== src/Registry/Tests.antt =====
-- The theorems on leases at an etcd that is its keys.
use youdge.Base.{
  ℕ, ◌-◌, ◌<◌, ◌≤◌, ◌≡◌, refl, sym, ap, ◌∙◌, true, false, List, [], ◌∷◌, Option, none, some, Str,
  str_dec, codes, ite, if_pos, ltb, if◌then◌else◌, arith, is_empty, ℕ_discrete, some_inj,
}
use youdge.Base.Int.{ℤ, pos, ℤ_discrete}
use youdge.Sdk.{service_key}
use youdge.Registry.{
  Etcd, EtcdRegistry, IfAddr, new_registry, get_local_ip, first_ip, full_addr, register, unregister,
}
use youdge.Registry.Leases.{KeepsKeys, rounds, unregister-register, register-unregister}

-- The keys, and the seconds that their leases have.
record Keys : Type 0 where
  entries : Str → Option (Str × ℤ)
  seconds : ℕ

unfoldable ends : ℤ → Option (Str × ℤ) → Option (Str × ℤ)
ends id none = none
ends id (some (v, j)) = ite (ℤ_discrete j id) none (some (v, j))

unfoldable after : ℕ → ℕ → Option (Str × ℤ) → Option (Str × ℤ)
after n seconds held = if ltb n seconds then held else none

abbrev small : Etcd Keys
small = record {
  lease_grant = λ w ttl. (record w { seconds = ttl }, some (pos 7));
  put = λ w key v id.
      (record w { entries = λ k. ite (str_dec key k) (some (v, id)) (w.entries k) }, true);
  keep_alive = λ w ttl id. (record w { seconds = ttl }, true);
  lease_revoke = λ w id. (record w { entries = λ k. ends id (w.entries k) }, true, true);
  sleep = λ w n. record { entries = λ k. after n w.seconds (w.entries k); seconds = w.seconds - n };
}

abbrev held : Keys → Str → Option (Str × ℤ)
held w = w.entries

abbrev left : Keys → ℤ → ℕ
left w id = w.seconds

ends_own : (id : ℤ) (v : Str) → ends id (some (v, id)) ≡ none
unfolding ends
ends_own id v = if_pos (ℤ_discrete id id) refl none (some (v, id))

after_less : (n seconds : ℕ) (o : Option (Str × ℤ)) → n < seconds → after n seconds o ≡ o
unfolding after
after_less n seconds o h = let less : ltb n seconds ≡ true = ground arith in rw less refl

after_end : (n seconds : ℕ) (o : Option (Str × ℤ)) → seconds ≤ n → after n seconds o ≡ none
unfolding after
after_end n seconds o h = let less : ltb n seconds ≡ false = ground arith in rw less refl

small-KeepsKeys : KeepsKeys small held left
small-KeepsKeys = record {
  positive = λ w ttl id e. (6, some_inj id (pos 7) (sym e));
  granted = λ w ttl id e. omega arith;
  puts = λ w key v id e. if_pos (str_dec key key) refl (some (v, id)) (w.entries key);
  put_left = λ w key v id. omega arith;
  keeps = λ w ttl id key. refl;
  renews = λ w ttl id e. refl;
  lasts = λ w n key v id h e. after_less n w.seconds (w.entries key) h ∙ e;
  expires = λ w n key v id h e. after_end n w.seconds (w.entries key) h;
  revokes = λ w key v id e f. ap (ends id) f ∙ ends_own id v;
  waited = λ w id. refl;
}

abbrev interfaces : Option (List IfAddr)
interfaces = some (
    record { is_inet = true; text = codes "127.0.0.1" }
    ∷ record { is_inet = true; text = codes "10.0.0.1" }
    ∷ [])

-- The node after its registration.
abbrev registered : EtcdRegistry
registered = record {
  lease_id = pos 7;
  key = service_key (get_local_ip interfaces) (codes "kcache") (codes ":8001");
  has_thread = true;
  is_stop = false;
}

abbrev empty_keys : Keys
empty_keys = record { entries = λ k. none; seconds = 0 }

abbrev after_put : Keys
after_put =
    (small.put (small.lease_grant empty_keys 10).0
      (service_key (get_local_ip interfaces) (codes "kcache") (codes ":8001"))
      (full_addr (get_local_ip interfaces) (codes ":8001")) (pos 7)).0

has_ip : (get_local_ip interfaces ≡ codes "10.0.0.1")
unfolding get_local_ip first_ip str_dec ℕ_discrete
has_ip = refl

unregister-register_example :
    (register small interfaces new_registry empty_keys (codes "kcache") (codes ":8001")
      ≡ some (registered, after_put, true))
    × (held
          (rounds small 3 registered after_put)
          (service_key (get_local_ip interfaces) (codes "kcache") (codes ":8001"))
        ≡ some (full_addr (get_local_ip interfaces) (codes ":8001"), pos 7))
    × ((unregister small registered (rounds small 3 registered after_put)).2 ≡ false)
    × ((unregister small registered (rounds small 3 registered after_put)).0.has_thread ≡ false)
    × (held
          (unregister small registered (rounds small 3 registered after_put)).1
          (service_key (get_local_ip interfaces) (codes "kcache") (codes ":8001"))
        ≡ none)
unregister-register_example =
    unregister-register small held left interfaces new_registry empty_keys (codes "kcache")
      (codes ":8001") (pos 7) 3 small-KeepsKeys (ap is_empty has_ip) refl refl refl refl
      (refl, (refl, (refl, tt))) refl

-- The node after it has been registered, unregistered, and registered again.
abbrev again : EtcdRegistry
again = record {
  lease_id = pos 7;
  key = service_key (get_local_ip interfaces) (codes "kcache") (codes ":8001");
  has_thread = true;
  is_stop = true;
}

abbrev after_again : Keys
after_again =
    (small.put (small.lease_grant (unregister small registered after_put).1 10).0
      (service_key (get_local_ip interfaces) (codes "kcache") (codes ":8001"))
      (full_addr (get_local_ip interfaces) (codes ":8001")) (pos 7)).0

register-unregister_example :
    (register small interfaces
        (unregister small registered after_put).0
        (unregister small registered after_put).1
        (codes "kcache")
        (codes ":8001")
      ≡ some (again, after_again, true))
    × (rounds small 3 again after_again ≡ after_again)
    × (held after_again (service_key (get_local_ip interfaces) (codes "kcache") (codes ":8001"))
        ≡ some (full_addr (get_local_ip interfaces) (codes ":8001"), pos 7))
    × (held
          (small.sleep after_again 10)
          (service_key (get_local_ip interfaces) (codes "kcache") (codes ":8001"))
        ≡ none)
register-unregister_example =
    register-unregister small held left interfaces registered after_put (codes "kcache")
      (codes ":8001") (pos 7) 3 small-KeepsKeys (ap is_empty has_ip) refl refl
