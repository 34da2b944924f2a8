-- ===== src/Group/Service.antt =====
-- What the remote calls of src/server/server.cpp keep, over any history of requests, and what a
-- client reads back.
use youdge.Base.{
  ℕ, suc, ◌+◌, ◌≤◌, ◌≡◌, inl, inr, refl, sym, ap, subst, ◌∙◌, ◌≢◌, true, false, List, [], ◌∷◌,
  Option, none, some, Str, str_dec, length, arith, ◌>>=◌, Option-cases, some_inj,
}
use youdge.Base.Int.{ℤ, pos}
use youdge.Base.UnorderedMap
use youdge.Lru.{ByteView}
use youdge.Lru.Invariant.{IsValid, init-IsValid}
use youdge.Group.{KCacheGroup, DataGetter, new_group, move_assign}
use youdge.Group.Writes.{
  get_total, set_total, delete_total, get-set_fits, get-delete, invalidate_from_peer-delete,
}
use youdge.Group.Rpc.{
  Groups, make_cache_group, get_cache_group, StatusCode, ok, not_found, Reply, update, value_reply,
  bool_reply, rpc_get, rpc_set, rpc_delete, rpc_invalidate,
}

-- Every group of the node has a valid cache.
abbrev pub AllValid : Groups → Type 0
AllValid groups =
    (name : Str) (g : KCacheGroup)
    → UnorderedMap.find str_dec name groups ≡ some g
    → IsValid g.cache_

pub AllValid-update :
    (groups : Groups) (name : Str) (g : KCacheGroup)
    → AllValid groups
    → IsValid g.cache_
    → AllValid (update groups name g)
AllValid-update groups name g v w n g' e = elim (str_dec name n) [
  | yes p ↦
      subst (λ (x : KCacheGroup). IsValid x.cache_)
        (some_inj g g' (sym (UnorderedMap.find-insert str_dec name n g groups ∙ ground arith) ∙ e))
        w
  | no p ↦ v n g' (sym (UnorderedMap.find-insert str_dec name n g groups ∙ ground arith) ∙ e)
]

pub data Request : Type 0 where
  gets : Str → Str → Request
  sets : Str → Str → Str → Request
  deletes : Str → Str → Request
  invalidates : Str → Str → Request

-- One request, and the groups after it.
unfoldable pub serve : Groups → Request → Option Groups
serve groups (gets name key) = do r ← rpc_get groups name key; some r.0
serve groups (sets name key value) = do r ← rpc_set groups name key value; some r.0
serve groups (deletes name key) = do r ← rpc_delete groups name key; some r.0
serve groups (invalidates name key) = do r ← rpc_invalidate groups name key; some r.0

unfoldable pub serve_all : List Request → Groups → Option Groups
serve_all [] groups = some groups
serve_all (r ∷ rs) groups = do groups' ← serve groups r; serve_all rs groups'

pub make_cache_group-AllValid :
    (groups : Groups) (name : Str) (bytes : ℤ) (getter : DataGetter)
    → AllValid groups
    → (groups' : Groups) × (make_cache_group groups name bytes (some getter) ≡ some groups')
      × AllValid groups'
unfolding make_cache_group new_group move_assign
make_cache_group-AllValid groups name bytes getter v =
    elim (Option-cases (UnorderedMap.find str_dec name groups)) [
      | inl e ↦ (
        update groups name (new_group name bytes getter),
        rw (e, make_cache_group) refl,
        AllValid-update groups name _ v (init-IsValid _ false),
      )
      | inr (target, e) ↦ (
        update groups name (move_assign target (new_group name bytes getter)),
        rw (e, make_cache_group) refl,
        AllValid-update groups name _ v (init-IsValid _ false),
      )
    ]

value_reply_lem :
    (groups : Groups) (name : Str) (g : KCacheGroup) (o : Option ByteView)
    → (c : StatusCode) × (t : Str) × (value_reply groups name (g, o)
        ≡ some (update groups name g, c, t))
value_reply_lem groups name g none = (not_found, [], refl)
value_reply_lem groups name g (some value) = (ok, value.data_, refl)

-- A call that replies, and leaves the groups valid.
abbrev Replies : {A : Type 0} → Reply A → Type 0
Replies {A} r =
    (groups' : Groups) × (c : StatusCode) × (a : A) × (r ≡ some (groups', c, a)) × AllValid groups'

module _ (groups : Groups) (name key : Str) (v : AllValid groups) where
  rpc_get-Replies : Replies (rpc_get groups name key)
  unfolding rpc_get
  rpc_get-Replies = elim (Option-cases (get_cache_group groups name)) [
    | inl e ↦ (groups, not_found, [], rw (e, rpc_get) refl, v)
    | inr (g, e) ↦
        let (g', o, done, valid) = get_total g key (v name g e) in
        let r = value_reply_lem groups name g' o in
        (
          update groups name g',
          r.0,
          r.1,
          rw (e, rpc_get, done, ◌>>=◌) r.2,
          AllValid-update groups name g' v valid,
        )
  ]

  rpc_set-Replies : (value : Str) → Replies (rpc_set groups name key value)
  unfolding rpc_set
  rpc_set-Replies value = elim (Option-cases (get_cache_group groups name)) [
    | inl e ↦ (groups, not_found, false, rw (e, rpc_set) refl, v)
    | inr (g, e) ↦
        let (g', b, done, valid) = set_total g key (v name g e) (record { data_ = value }) in
        (
          update groups name g',
          ok,
          b,
          rw (e, rpc_set, done, ◌>>=◌) refl,
          AllValid-update groups name g' v valid,
        )
  ]

  rpc_delete-Replies : Replies (rpc_delete groups name key)
  unfolding rpc_delete
  rpc_delete-Replies = elim (Option-cases (get_cache_group groups name)) [
    | inl e ↦ (groups, not_found, false, rw (e, rpc_delete) refl, v)
    | inr (g, e) ↦
        let (g', b, done, valid) = delete_total g key (v name g e) in
        (
          update groups name g',
          ok,
          b,
          rw (e, rpc_delete, done, ◌>>=◌) refl,
          AllValid-update groups name g' v valid,
        )
  ]

-- An `Invalidate` from a peer is served as a `Delete` is, so that it goes no further.
rpc_invalidate-delete :
    (groups : Groups) (name key : Str) → rpc_invalidate groups name key ≡ rpc_delete groups name key
unfolding rpc_invalidate rpc_delete
rpc_invalidate-delete groups name key = elim (Option-cases (get_cache_group groups name)) [
  | inl e ↦ rw (e, rpc_invalidate, rpc_delete) refl
  | inr (g, e) ↦
      rw (e, rpc_invalidate, rpc_delete)
        (ap (λ r. r >>= bool_reply groups name) (invalidate_from_peer-delete g key))
]

serve-AllValid :
    (groups : Groups) (r : Request)
    → AllValid groups
    → (groups' : Groups) × (serve groups r ≡ some groups') × AllValid groups'
unfolding serve
serve-AllValid groups (gets name key) v =
    let r = rpc_get-Replies groups name key v in (r.0, rw (r.3, ◌>>=◌) refl, r.4)
serve-AllValid groups (sets name key value) v =
    let r = rpc_set-Replies groups name key v value in (r.0, rw (r.3, ◌>>=◌) refl, r.4)
serve-AllValid groups (deletes name key) v =
    let r = rpc_delete-Replies groups name key v in (r.0, rw (r.3, ◌>>=◌) refl, r.4)
serve-AllValid groups (invalidates name key) v =
    let r = rpc_delete-Replies groups name key v in
    (r.0, rw (rpc_invalidate-delete groups name key, r.3, ◌>>=◌) refl, r.4)

-- A node whose groups have valid caches answers every sequence of remote calls, for any group
-- names and keys, without a step that is undefined, and its caches are valid afterwards.
pub serve_all-AllValid :
    (rs : List Request) (groups : Groups)
    → AllValid groups
    → (groups' : Groups) × (serve_all rs groups ≡ some groups') × AllValid groups'
unfolding serve_all
serve_all-AllValid [] groups v = (groups, refl, v)
serve_all-AllValid (r ∷ rs) groups v =
    let (mid, served, w) = serve-AllValid groups r v in
    let (last, ran, u) = serve_all-AllValid rs mid w in (last, rw (served, ◌>>=◌) ran, u)

find-update :
    (groups : Groups) (name : Str) (g : KCacheGroup)
    → UnorderedMap.find str_dec name (update groups name g) ≡ some g
find-update groups name g = UnorderedMap.find-insert str_dec name name g groups ∙ ground arith

-- On a node with valid caches, a remote `Set` on an open group with a positive limit, for a key that is not empty and an entry
-- that fits, answers OK and true, and the next remote `Get` of the key answers OK and that value.
pub rpc_get-set :
    (groups : Groups) (name : Str) (g : KCacheGroup) (m : ℕ) (key value : Str)
    → AllValid groups
    → get_cache_group groups name ≡ some g
    → g.is_close_ ≡ false
    → key ≢ []
    → g.cache_.max_bytes_ ≡ pos (suc m)
    → length key + length value ≤ suc m
    → (groups' : Groups) × (groups'' : Groups) × (rpc_set groups name key value
        ≡ some (groups', ok, true))
      × (rpc_get groups' name key ≡ some (groups'', ok, value))
unfolding rpc_get rpc_set
rpc_get-set groups name g m key value v e running named limit fits =
    let (g', g'', done, got) =
      get-set_fits m g key (record { data_ = value }) (v name g e) running named limit fits in
    let groups' = update groups name g' in
    (
      groups',
      update groups' name g'',
      rw (e, rpc_set, done, ◌>>=◌) refl,
      rw (find-update groups name g', rpc_get, got, ◌>>=◌) refl,
    )

-- On a node with valid caches, a remote `Invalidate` of a key that is not empty, on an open group
-- whose getter knows the key, answers OK and true, and the next remote `Get` answers OK and what
-- the getter says, not what the node held.
pub rpc_get-invalidate :
    (groups : Groups) (name : Str) (g : KCacheGroup) (key : Str) (fresh : ByteView)
    → AllValid groups
    → get_cache_group groups name ≡ some g
    → g.is_close_ ≡ false
    → key ≢ []
    → g.getter_ key ≡ some fresh
    → (groups' : Groups) × (groups'' : Groups) × (rpc_invalidate groups name key
        ≡ some (groups', ok, true))
      × (rpc_get groups' name key ≡ some (groups'', ok, fresh.data_))
unfolding rpc_get rpc_delete
rpc_get-invalidate groups name g key fresh v e running named source =
    let (g', g'', done, got) = get-delete g key (v name g e) running named in
    let groups' = update groups name g' in
    (
      groups',
      update groups' name g'',
      rpc_invalidate-delete groups name key ∙ rw (e, rpc_delete, done, ◌>>=◌) refl,
      rw (find-update groups name g', rpc_get, got, source, ◌>>=◌) refl,
    )
