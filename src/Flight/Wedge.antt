-- ===== src/Flight/Wedge.antt =====
-- What an exception of the function leaves in `SingleFlight::Do`.
use youdge.Base.{
  ℕ, ◌≡◌, ◌≢◌, inl, inr, refl, sym, ap, ◌∙◌, none, some, some_inj, Str, str_dec, arith,
}
use youdge.Base.UnorderedMap
use youdge.Flight.{
  Phase, waits, runs, returned, published, done, threw, State, at, moves, Step, attaches, creates,
  wakes, returns, throws, publishes, erases, Reach,
}
use youdge.Flight.Invariant.{owned, pending, IsValid, at_cases, owner_inj}
use youdge.Flight.Exclusion.{Step-IsValid, Reach-IsValid}

-- A call that is in the map, and that no thread will publish or erase.
record Orphan (key : Str) (c : ℕ) (s : State) : Type 0 where
  pub valid : IsValid s
  pub mapped : UnorderedMap.find str_dec key s.map_ ≡ some c
  pub unset : s.futures c ≡ none
  pub unowned : (u : ℕ) (k : Str) → owned (s.phase u) ≢ some (k, c)

pub data Steps : State → State → Type 0 where
  stays : (s : State) → Steps s s
  goes : (s s' s'' : State) → Steps s s' → Step s' s'' → Steps s s''

-- No thread owns the call after a move to a phase that does not.
unowned-at :
    (c t : ℕ) (p : Phase) (f : ℕ → Phase)
    → ((k : Str) → owned p ≢ some (k, c))
    → ((u : ℕ) (k : Str) → owned (f u) ≢ some (k, c))
    → (u : ℕ) (k : Str) → owned (at t p f u) ≢ some (k, c)
unowned-at c t p f new old u k e = elim (at_cases owned t u p f (some (k, c)) e) [
  | inl (q, mine) ↦ new k mine
  | inr (q, other) ↦ old u k other
]

-- A thread that owns nothing after its step.
moves-Orphan :
    (key : Str) (c : ℕ) (s : State) (t : ℕ) (p : Phase)
    → owned p ≡ none
    → IsValid (moves s t p)
    → Orphan key c s
    → Orphan key c (moves s t p)
moves-Orphan key c s t p nothing v o = record {
  valid = v;
  mapped = o.mapped;
  unset = o.unset;
  unowned = unowned-at c t p s.phase (λ k e. cc (sym nothing ∙ e)) o.unowned;
}

-- The call of a thread that owns one is another call.
other_call :
    (key k : Str) (c d : ℕ) (s : State) (t : ℕ)
    → Orphan key c s
    → owned (s.phase t) ≡ some (k, d)
    → (d ≢ c) × (k ≢ key)
other_call key k c d s t o e =
    let other : d ≢ c = λ q. o.unowned t k (e ∙ ap (λ x. some (k, x)) q) in
    (
      other,
      λ q. other (
          some_inj d c (
            sym (o.valid.mapped t k d e)
            ∙ ap (λ j. UnorderedMap.find str_dec j s.map_) q
            ∙ o.mapped)),
    )

Step-Orphan :
    (key : Str) (c : ℕ) (s s' : State) → Step s s' → IsValid s' → Orphan key c s → Orphan key c s'
unfolding owned at
Step-Orphan key c s _ (attaches t k d e f) v o = moves-Orphan key c s t (waits d) refl v o
Step-Orphan key c s _ (creates t k e f) v o =
    let newer : s.next_call ≢ c = λ q. omega (arith, o.valid.held key c o.mapped, q) in
    record {
      valid = v;
      mapped =
          UnorderedMap.find-insert str_dec k key s.next_call s.map_ ∙ ground (arith, o.mapped, f);
      unset = o.unset;
      unowned =
          unowned-at c t (runs k s.next_call) s.phase
            (λ k' q. newer (owner_inj k k' s.next_call c q).1) o.unowned;
    }
Step-Orphan key c s _ (wakes t d val e f) v o = moves-Orphan key c s t (done val) refl v o
Step-Orphan key c s _ (returns t k d val e) v o =
    let (other, apart) = other_call key k c d s t o (ap owned e) in
    record {
      valid = v;
      mapped = o.mapped;
      unset = o.unset;
      unowned =
          unowned-at c t (returned k d val) s.phase (λ k' q. other (owner_inj k k' d c q).1)
            o.unowned;
    }
Step-Orphan key c s _ (throws t k d e) v o = moves-Orphan key c s t threw refl v o
Step-Orphan key c s _ (publishes t k d val e) v o =
    let (other, apart) = other_call key k c d s t o (ap owned e) in
    record {
      valid = v;
      mapped = o.mapped;
      unset = ground (arith, other, o.unset);
      unowned =
          unowned-at c t (published k d val) s.phase (λ k' q. other (owner_inj k k' d c q).1)
            o.unowned;
    }
Step-Orphan key c s _ (erases t k d val e) v o =
    let (other, apart) = other_call key k c d s t o (ap owned e) in
    record {
      valid = v;
      mapped = UnorderedMap.find-erase str_dec k key s.map_ ∙ ground (arith, o.mapped, apart);
      unset = o.unset;
      unowned = unowned-at c t (done val) s.phase (λ k' q. cc) o.unowned;
    }

Steps-Orphan : (key : Str) (c : ℕ) (s s' : State) → Steps s s' → Orphan key c s → Orphan key c s'
Steps-Orphan key c _ _ (stays s) o = o
Steps-Orphan key c _ _ (goes s s' s'' l st) o =
    let before = Steps-Orphan key c s s' l o in
    Step-Orphan key c s' s'' st (Step-IsValid s' s'' st before.valid) before

-- If the function throws, its key is blocked for good: in every state that any interleaving
-- reaches afterwards, the key leads to the call that the exception left behind, whose future is
-- not set. So every later call for the key waits on that future, and no step wakes it.
pub throws-wedges :
    (s s' : State) (t : ℕ) (key : Str) (c : ℕ)
    → Reach s
    → s.phase t ≡ runs key c
    → Steps (moves s t threw) s'
    → (UnorderedMap.find str_dec key s'.map_ ≡ some c) × (s'.futures c ≡ none)
unfolding owned at pending
throws-wedges s s' t key c r e l =
    let v = Reach-IsValid s r in
    let start_of : Orphan key c (moves s t threw) = record {
      valid = Step-IsValid s _ (throws t key c e) v;
      mapped = v.mapped t key c (ap owned e);
      unset = v.unset t c (ap pending e);
      unowned = λ u k q. elim (at_cases owned t u threw s.phase (some (k, c)) q) [
        | inl (same, mine) ↦ cc
        | inr (other, own) ↦ other (v.alone t u key k c (ap owned e) own)
      ];
    } in
    let o = Steps-Orphan key c (moves s t threw) s' l start_of in (o.mapped, o.unset)
