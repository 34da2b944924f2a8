-- ===== src/Lru/Recency.antt =====
-- The abstract view of the LRU cache, a list of entries with the most recently used first, and the
-- eviction loop of `Set` against it.
use mathlib.Core.List.{reverse, reverse-append, append_assoc, append-nil}
use youdge.Base.{
  ℕ, zero, suc, ◌+◌, ◌-◌, ◌≤◌, ◌<◌, ◌≡◌, refl, sym, ap, ◌∙◌, Bool, true, false, not, ◌&&◌, inl, inr,
  List, [], ◌∷◌, ◌++◌, some, length, is_empty, back, pop_back, arith, leb, Bool-cases,
  if◌then◌else◌,
}
use youdge.Base.Int.{ℤ, pos, negsuc, ltb_ℤ}
use youdge.Lru.{Entry, Node, LruCache, size, is_zero, remove_oldest, over_limit, evict, notify}
use youdge.Lru.Nodes.{total, entries}
use youdge.Lru.Back.{length-pop_back, entries-pop_back}
use youdge.Lru.Invariant.{IsValid, remove_oldest-IsValid}

unfoldable pub total_entries : List Entry → ℕ
total_entries [] = 0
total_entries (e ∷ l) = size e + total_entries l

pub total-entries : (l : List Node) → total_entries (entries l) ≡ total l
unfolding total_entries
total-entries [] = refl
total-entries ((i, e) ∷ l) = ap (λ n. size e + n) (total-entries l)

-- The longest prefix of at most `m` bytes.
unfoldable pub keep : ℕ → List Entry → List Entry
keep m [] = []
keep m (e ∷ l) = if leb (size e) m then e ∷ keep (m - size e) l else []

-- What a limit lets stay: 0 is no limit.
unfoldable pub kept : ℤ → List Entry → List Entry
kept (pos zero) l = l
kept (pos (suc m)) l = keep (suc m) l
kept (negsuc n) l = []

pub keep-le : (m : ℕ) (l : List Entry) → total_entries (keep m l) ≤ m
unfolding keep total_entries
keep-le m [] = omega arith
keep-le m (e ∷ l) = ground (arith, keep-le (m - size e) l)

keep_all : (m : ℕ) (l : List Entry) → total_entries l ≤ m → keep m l ≡ l
unfolding keep total_entries
keep_all m [] h = refl
keep_all m (e ∷ l) h = ground (arith, keep_all (m - size e) l (omega arith))

keep-pop_back : (m : ℕ) (l : List Entry) → m < total_entries l → keep m (pop_back l) ≡ keep m l
unfolding keep total_entries pop_back
keep-pop_back m [] h = refl
keep-pop_back m (e ∷ []) h = ground arith
keep-pop_back m (e ∷ f ∷ l) h = elim (Bool-cases (leb (size e) m)) [
  | inl fits ↦
      let ih : keep (m - size e) (pop_back (f ∷ l)) ≡ keep (m - size e) (f ∷ l) =
        keep-pop_back (m - size e) (f ∷ l) (ground arith) in
      rw fits (ap (◌∷◌ e) ih)
  | inr large ↦ rw large refl
]

-- The loop's condition on a valid cache, from the limit and the list alone.
over : ℤ → List Node → Bool
over z l = not (is_zero z) && (ltb_ℤ z (pos (total l)) && not (is_empty l))

over_limit-over : (c : LruCache) → IsValid c → over_limit c ≡ over c.max_bytes_ c.list_
unfolding over_limit over
over_limit-over c v = rw v.counted

kept_stop : (z : ℤ) (l : List Node) → over z l ≡ false → kept z (entries l) ≡ entries l
unfolding over kept is_zero
kept_stop (pos zero) l h = refl
kept_stop (pos (suc m)) [] h = keep_all (suc m) [] (omega (arith, total-entries []))
kept_stop (pos (suc m)) (x ∷ l) h =
    keep_all (suc m) (entries (x ∷ l)) (ground (arith, total-entries (x ∷ l)))
kept_stop (negsuc n) [] h = refl
kept_stop (negsuc n) (x ∷ l) h = ground arith

kept_drop :
    (z : ℤ) (l : List Node) → over z l ≡ true → kept z (pop_back (entries l)) ≡ kept z (entries l)
unfolding over kept is_zero
kept_drop (pos zero) l h = ground arith
kept_drop (pos (suc m)) l h = keep-pop_back (suc m) (entries l) (ground (arith, total-entries l))
kept_drop (negsuc n) l h = refl

over-cons : (z : ℤ) (l : List Node) → over z l ≡ true → (x : Node) × (r : List Node) × (l ≡ x ∷ r)
unfolding over
over-cons z [] h = ground arith
over-cons z (x ∷ r) h = (x, r, refl)

remove_oldest_step :
    (c : LruCache) (node : Node)
    → back c.list_ ≡ some node
    → ((remove_oldest c).list_ ≡ pop_back c.list_)
      × ((remove_oldest c).max_bytes_ ≡ c.max_bytes_)
      × ((remove_oldest c).has_evicted_func ≡ c.has_evicted_func)
      × ((remove_oldest c).evictions ≡ notify c node.1)
unfolding remove_oldest
remove_oldest_step c node e = ground arith

back-cons : (x : Node) (l : List Node) → (node : Node) × (back (x ∷ l) ≡ some node)
unfolding back
back-cons x [] = (x, refl)
back-cons x (y ∷ l) = back-cons y l

entries-back :
    (l : List Node) (node : Node)
    → back l ≡ some node
    → entries l ≡ entries (pop_back l) ++ node.1 ∷ []
unfolding back pop_back
entries-back [] node h = cc
entries-back (x ∷ []) node h = ground arith
entries-back (x ∷ y ∷ l) node h = ap (◌∷◌ x.1) (entries-back (y ∷ l) node h)

-- The callbacks for dropped entries: the last of the list is the oldest, and goes first.
abbrev pub notified : LruCache → List Entry → List Entry
notified c dropped = if c.has_evicted_func then c.evictions ++ reverse dropped else c.evictions

-- What the loop of `Set` leaves of `c` in `d`.
pub record Evicted (c d : LruCache) : Type 0 where
  pub dropped : List Entry
  pub split : entries c.list_ ≡ entries d.list_ ++ dropped
  pub stays : entries d.list_ ≡ kept c.max_bytes_ (entries c.list_)
  pub logged : d.evictions ≡ notified c dropped
  pub limit : d.max_bytes_ ≡ c.max_bytes_

Evicted-stop : (c : LruCache) → IsValid c → over_limit c ≡ false → Evicted c c
Evicted-stop c v h = record {
  dropped = [];
  split = sym (append-nil (entries c.list_));
  stays = sym (kept_stop c.max_bytes_ c.list_ (sym (over_limit-over c v) ∙ h));
  logged = ground (arith, append-nil c.evictions);
  limit = refl;
}

notified-notify :
    (c d : LruCache) (e : Entry) (dropped : List Entry)
    → d.has_evicted_func ≡ c.has_evicted_func
    → d.evictions ≡ notify c e
    → notified d dropped ≡ notified c (dropped ++ e ∷ [])
notified-notify c d e dropped h g =
    ground
      (arith, reverse-append dropped (e ∷ []), append_assoc c.evictions (e ∷ []) (reverse dropped))

Evicted-step :
    (c d : LruCache) (node : Node)
    → IsValid c
    → over_limit c ≡ true
    → back c.list_ ≡ some node
    → Evicted (remove_oldest c) d
    → Evicted c d
Evicted-step c d node v h e r =
    let (list, limit, has, log) = remove_oldest_step c node e in
    record {
      dropped = r.dropped ++ node.1 ∷ [];
      split =
          entries-back c.list_ node e
          ∙ ap (λ l. l ++ node.1 ∷ []) (ap entries (sym list) ∙ r.split)
          ∙ append_assoc (entries d.list_) r.dropped (node.1 ∷ []);
      stays =
          r.stays
          ∙ rw (limit, list, entries-pop_back c.list_)
              (kept_drop c.max_bytes_ c.list_ (sym (over_limit-over c v) ∙ h));
      logged = r.logged ∙ notified-notify c (remove_oldest c) node.1 r.dropped has log;
      limit = r.limit ∙ limit;
    }

-- With one round for each node the loop ends by its condition.
pub evict-Evicted :
    (fuel : ℕ) (c : LruCache) → IsValid c → length c.list_ ≤ fuel → Evicted c (evict fuel c)
unfolding evict
evict-Evicted zero c v h = elim (Bool-cases (over_limit c)) [
  | inl more ↦
      let (x, r, e) = over-cons c.max_bytes_ c.list_ (sym (over_limit-over c v) ∙ more) in
      absurd (omega (arith, ap length e))
  | inr done ↦ Evicted-stop c v done
]
evict-Evicted (suc fuel) c v h = elim (Bool-cases (over_limit c)) [
  | inl more ↦
      let (x, r, e) = over-cons c.max_bytes_ c.list_ (sym (over_limit-over c v) ∙ more) in
      let (node, last) = back-cons x r in
      let found : back c.list_ ≡ some node = ap back e ∙ last in
      let shorter : length (remove_oldest c).list_ ≤ fuel = omega (
        arith,
        ap length ((remove_oldest_step c node found).0 ∙ ap pop_back e),
        length-pop_back x r,
        ap length e,
      ) in
      rw (more, evict)
        (Evicted-step c _ node v more found
          (evict-Evicted fuel (remove_oldest c) (remove_oldest-IsValid c v) shorter))
  | inr done ↦ rw (done, evict) (Evicted-stop c v done)
]
