-- ===== src/Lru/Simulation.antt =====
-- The LRU cache against its specification: a list of entries, the most recently used first.
use youdge.Base.{◌≡◌, refl, ap, ◌∙◌, List, [], ◌∷◌, Bool, Option, some, ◌>>=◌}
use youdge.Base.Int.{ℤ}
use youdge.Lru.{ByteView, Entry, LruCache, init, get, set, delete}
use youdge.Lru.Nodes.{entries, lookup, remove}
use youdge.Lru.Invariant.{IsValid, init-IsValid}
use youdge.Lru.Recency.{kept}
use youdge.Lru.Methods.{entry, touch, get-touch, set-kept, delete-remove}
use youdge.Lru.History.{Call, gets, sets, deletes}

-- What the calls of `Get` return, the first one first.
abbrev pub Answers : Type 0
Answers = List (Option ByteView)

unfoldable pub answering : List Call → LruCache → Option (LruCache × Answers)
answering [] c = some (c, [])
answering (gets key ∷ calls) c = do
  (c', v) ← get c key
  (c'', answers) ← answering calls c'
  some (c'', v ∷ answers)
answering (sets key value ∷ calls) c = do c' ← set c key value; answering calls c'
answering (deletes key ∷ calls) c = do c' ← delete c key; answering calls c'

-- The specification: `Get` looks up and moves to the front, `Set` puts in front and keeps what the
-- limit allows, `Delete` takes away.
unfoldable pub recency_answers : ℤ → List Call → List Entry → Answers
recency_answers limit [] l = []
recency_answers limit (gets key ∷ calls) l =
    lookup key l ∷ recency_answers limit calls (touch key l)
recency_answers limit (sets key value ∷ calls) l =
    recency_answers limit calls (kept limit (entry key value ∷ remove key l))
recency_answers limit (deletes key ∷ calls) l = recency_answers limit calls (remove key l)

unfoldable pub recency_list : ℤ → List Call → List Entry → List Entry
recency_list limit [] l = l
recency_list limit (gets key ∷ calls) l = recency_list limit calls (touch key l)
recency_list limit (sets key value ∷ calls) l =
    recency_list limit calls (kept limit (entry key value ∷ remove key l))
recency_list limit (deletes key ∷ calls) l = recency_list limit calls (remove key l)

answering-IsValid :
    (calls : List Call) (c : LruCache) (l : List Entry) (limit : ℤ)
    → IsValid c
    → entries c.list_ ≡ l
    → c.max_bytes_ ≡ limit
    → (c' : LruCache) × (answering calls c ≡ some (c', recency_answers limit calls l))
      × (entries c'.list_ ≡ recency_list limit calls l)
unfolding answering recency_answers recency_list
answering-IsValid [] c l limit v e m = (c, refl, e)
answering-IsValid (gets key ∷ calls) c l limit v e m =
    let (d, got, v', list, bytes, log, max) = get-touch c key v in
    let (c', ran, end) =
      answering-IsValid calls d (touch key l) limit v' (list ∙ ap (touch key) e) (max ∙ m) in
    (c', rw (got, ◌>>=◌) (rw (ran, e, ◌>>=◌) refl), end)
answering-IsValid (sets key value ∷ calls) c l limit v e m =
    let (d, dropped, done, v', list, split, log, max) = set-kept c key value v in
    let (c', ran, end) =
      answering-IsValid calls d (kept limit (entry key value ∷ remove key l)) limit v'
        (list
          ∙ ap (λ z. kept z (entry key value ∷ remove key (entries c.list_))) m
          ∙ ap (λ r. kept limit (entry key value ∷ remove key r)) e)
        (max ∙ m) in
    (c', rw (done, ◌>>=◌) ran, end)
answering-IsValid (deletes key ∷ calls) c l limit v e m =
    let (d, done, v', list, log, max) = delete-remove c key v in
    let (c', ran, end) =
      answering-IsValid calls d (remove key l) limit v' (list ∙ ap (remove key) e) (max ∙ m) in
    (c', rw (done, ◌>>=◌) ran, end)

-- From its construction, with any limit, every history of calls gets from the cache the answers of
-- the specification, and leaves the specification's entries in its list.
pub init-answering :
    (limit : ℤ) (has : Bool) (calls : List Call)
    → (c : LruCache) × (answering calls (init limit has) ≡ some (c, recency_answers limit calls []))
      × (entries c.list_ ≡ recency_list limit calls [])
unfolding init
init-answering limit has calls =
    answering-IsValid calls (init limit has) [] limit (init-IsValid limit has) refl refl
