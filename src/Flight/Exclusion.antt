-- ===== src/Flight/Exclusion.antt =====
-- What holds in every state that interleavings of `SingleFlight::Do` reach.
use youdge.Base.{ℕ, ◌≡◌, refl, sym, ap, ◌∙◌, none, some, some_inj, Str}
use youdge.Flight.{
  Result, waits, returned, done, threw, State, Step, attaches, creates, wakes, returns, throws,
  publishes, erases, Reach, begins, steps,
}
use youdge.Flight.Invariant.{
  owned, pending, IsValid, start-IsValid, moves-IsValid, keeps-IsValid, creates-IsValid,
  publishes-IsValid, erases-IsValid,
}

pub Step-IsValid : (s s' : State) → Step s s' → IsValid s → IsValid s'
unfolding owned pending
Step-IsValid s _ (attaches t key c e f) v = moves-IsValid s t (waits c) refl refl v
Step-IsValid s _ (creates t key e f) v = creates-IsValid s t key f v
Step-IsValid s _ (wakes t c val e f) v = moves-IsValid s t (done val) refl refl v
Step-IsValid s _ (returns t key c val e) v =
    keeps-IsValid s t (returned key c val) (ap owned (sym e)) (ap pending (sym e)) v
Step-IsValid s _ (throws t key c e) v = moves-IsValid s t threw refl refl v
Step-IsValid s _ (publishes t key c val e) v = publishes-IsValid s t key c val (ap owned e) v
Step-IsValid s _ (erases t key c val e) v = erases-IsValid s t key c val (ap owned e) v

pub Reach-IsValid : (s : State) → Reach s → IsValid s
Reach-IsValid _ begins = start-IsValid
Reach-IsValid _ (steps s s' r st) = Step-IsValid s s' st (Reach-IsValid s r)

-- Single flight: in every state that any interleaving of calls reaches, at most one thread at a
-- time is in a call that it has made for a key, from its entry in the map to the erase.
pub one_flight :
    (s : State) (t u : ℕ) (key : Str) (c d : ℕ)
    → Reach s
    → owned (s.phase t) ≡ some (key, c)
    → owned (s.phase u) ≡ some (key, d)
    → t ≡ u
one_flight s t u key c d r e f =
    let v = Reach-IsValid s r in
    let same : d ≡ c = some_inj d c (sym (v.mapped u key d f) ∙ v.mapped t key c e) in
    v.alone t u key key c e (f ∙ ap (λ x. some (key, x)) same)

-- A thread that is about to set its promise finds it not set, so `set_value` never throws.
pub promise_unset :
    (s : State) (t : ℕ) (key : Str) (c : ℕ) (val : Result)
    → Reach s
    → s.phase t ≡ returned key c val
    → s.futures c ≡ none
unfolding pending
promise_unset s t key c val r e = (Reach-IsValid s r).unset t c (ap pending e)
