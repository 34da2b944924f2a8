-- ===== src/Flight/Finish.antt =====
-- While no function of `SingleFlight::Do` throws, no thread is stuck.
use youdge.Base.{
  ℕ, ◌+◌, ◌<◌, ◌≡◌, ◌≢◌, ◌⊎◌, inl, inr, refl, sym, ap, ◌∙◌, none, some, some_inj, Str, str_dec,
  arith,
}
use youdge.Base.UnorderedMap
use youdge.Flight.{
  Result, Phase, idle, waits, runs, returned, published, done, threw, State, start, moves, Step,
  attaches, creates, wakes, returns, throws, publishes, erases,
}
use youdge.Flight.Invariant.{pending, IsValid}
use youdge.Flight.Exclusion.{Reach-IsValid}
use youdge.Flight.Progress.{
  IsNormal, Calm, calm, goes_on, Calm-Reach, Covered, awaited, IsLive, at_same, at_other, awaits-at,
  calmly-at, moves-Covered, returns-Covered, publishes-Covered, creates-Covered,
}

start-IsLive : IsLive start
unfolding awaited
start-IsLive = record {
  covered = λ c h. absurd (omega arith);
  awaits = λ t c e. cc;
  calmly = λ t e. cc;
}

-- A thread that goes on, by a change that covers every call that was made.
goes_on-IsLive :
    (s : State) (t : ℕ) (p : Phase)
    → IsLive s
    → ((c : ℕ) → c < s.next_call → Covered (moves s t p) c)
    → ((d : ℕ) → awaited p ≡ some d → d < s.next_call)
    → p ≢ threw
    → IsLive (moves s t p)
goes_on-IsLive s t p l cover wait calmly = record {
  covered = cover;
  awaits = awaits-at s.next_call t p s.phase wait l.awaits;
  calmly = calmly-at t p s.phase calmly l.calmly;
}

Step-IsLive : (s s' : State) (st : Step s s') → IsNormal st → IsValid s → IsLive s → IsLive s'
unfolding pending awaited
Step-IsLive s _ (attaches t key c e f) n v l =
    goes_on-IsLive s t (waits c) l
      (λ d h. moves-Covered s t (waits c) d (ap pending e) (l.covered d h))
      (λ d q. ground (arith, some_inj c d q, v.held key c f)) (λ q. cc)
Step-IsLive s _ (creates t key e f) n v l = record {
  covered = λ c h.
      creates-Covered s t key c (UnorderedMap.insert str_dec key s.next_call s.map_) e l.covered h;
  awaits =
      awaits-at (s.next_call + 1) t (runs key s.next_call) s.phase (λ d q. cc)
        (λ u d q. omega (arith, l.awaits u d q));
  calmly = calmly-at t (runs key s.next_call) s.phase (λ q. cc) l.calmly;
}
Step-IsLive s _ (wakes t c val e f) n v l =
    goes_on-IsLive s t (done val) l
      (λ d h. moves-Covered s t (done val) d (ap pending e) (l.covered d h)) (λ d q. cc) (λ q. cc)
Step-IsLive s _ (returns t key c val e) n v l =
    goes_on-IsLive s t (returned key c val) l
      (λ d h. returns-Covered s t (returned key c val) d (ap pending (sym e)) (l.covered d h))
      (λ d q. cc) (λ q. cc)
Step-IsLive s _ (throws t key c e) n v l = absurd n
Step-IsLive s _ (publishes t key c val e) n v l = record {
  covered =
      λ d h. publishes-Covered s t (published key c val) c d val (ap pending e) (l.covered d h);
  awaits = awaits-at s.next_call t (published key c val) s.phase (λ d q. cc) l.awaits;
  calmly = calmly-at t (published key c val) s.phase (λ q. cc) l.calmly;
}
Step-IsLive s _ (erases t key c val e) n v l = record {
  covered = λ d h. moves-Covered s t (done val) d (ap pending e) (l.covered d h);
  awaits = awaits-at s.next_call t (done val) s.phase (λ d q. cc) l.awaits;
  calmly = calmly-at t (done val) s.phase (λ q. cc) l.calmly;
}

Calm-IsLive : (s : State) → Calm s → IsLive s
Calm-IsLive _ calm = start-IsLive
Calm-IsLive _ (goes_on s s' r st n) =
    Step-IsLive s s' st n (Reach-IsValid s (Calm-Reach s r)) (Calm-IsLive s r)

-- The thread that takes the step.
abbrev pub actor : (s s' : State) → Step s s' → ℕ
actor s _ (attaches t key c e f) = t
actor s _ (creates t key e f) = t
actor s _ (wakes t c val e f) = t
actor s _ (returns t key c val e) = t
actor s _ (throws t key c e) = t
actor s _ (publishes t key c val e) = t
actor s _ (erases t key c val e) = t

-- Steps of two threads alone, none of which is an exception.
pub data StepsOf (t u : ℕ) : State → State → Type 0 where
  rests : (s : State) → StepsOf t u s s
  walks :
      (s s' s'' : State)
      → StepsOf t u s s'
      → (st : Step s' s'') → IsNormal st
      → (actor s' s'' st ≡ t) ⊎ (actor s' s'' st ≡ u)
      → StepsOf t u s s''

-- The first thread waits on a call, and the second one has its promise to set.
abbrev pub WaitsFor : State → ℕ → ℕ → Type 0
WaitsFor s t u = (c : ℕ) × (s.phase t ≡ waits c) × (pending (s.phase u) ≡ some c)

-- A later state in which the thread has returned, after steps of its own and of the thread that it
-- waits for, if there is one.
abbrev pub Finishes : State → ℕ → Type 0
Finishes s t =
    (u : ℕ) × ((u ≡ t) ⊎ WaitsFor s t u)
    × (s' : State) × (val : Result) × StepsOf t u s s'
    × (s'.phase t ≡ done val)

-- A later state in which the call has its value by steps of the second thread, with the waiting
-- threads where they were.
abbrev Sets : State → ℕ → ℕ → ℕ → Type 0
Sets s t u c =
    (s' : State) × (val : Result) × StepsOf t u s s'
    × (s'.futures c ≡ some val)
    × ((v : ℕ) → s.phase v ≡ waits c → s'.phase v ≡ waits c)

after_publish :
    (s0 s : State) (t : ℕ) (key : Str) (c : ℕ) (val : Result)
    → StepsOf t t s0 s
    → s.phase t ≡ published key c val
    → Finishes s0 t
after_publish s0 s t key c val run e = (
  t,
  inl refl,
  _,
  val,
  walks s0 s _ run (erases t key c val e) tt (inl refl),
  at_same t (done val) s.phase,
)

after_return :
    (s0 s : State) (t : ℕ) (key : Str) (c : ℕ) (val : Result)
    → StepsOf t t s0 s
    → s.phase t ≡ returned key c val
    → Finishes s0 t
after_return s0 s t key c val run e =
    after_publish s0 _ t key c val (walks s0 s _ run (publishes t key c val e) tt (inl refl))
      (at_same t (published key c val) s.phase)

waiting_other :
    (s : State) (t u c : ℕ) (p : Phase) → s.phase u ≡ waits c → s.phase t ≡ p → p ≢ waits c → t ≢ u
waiting_other s t u c p e f ne q = ne (sym f ∙ ap s.phase q ∙ e)

Sets-returned :
    (s0 s : State) (t u : ℕ) (key : Str) (c : ℕ) (val : Result)
    → StepsOf t u s0 s
    → s.phase u ≡ returned key c val
    → ((v : ℕ) → s0.phase v ≡ waits c → s.phase v ≡ waits c)
    → Sets s0 t u c
Sets-returned s0 s t u key c val run e still = (
  _,
  val,
  walks s0 s _ run (publishes u key c val e) tt (inr refl),
  at_same c (some val) s.futures,
  λ v w.
      at_other u v (published key c val) s.phase
        (waiting_other s u v c (returned key c val) (still v w) e (λ q. cc))
      ∙ still v w,
)

-- The thread with the call's promise sets it.
sets : (s : State) (t u c : ℕ) (p : Phase) → s.phase u ≡ p → pending p ≡ some c → Sets s t u c
unfolding pending
sets s t u c idle e own = cc
sets s t u c (waits d) e own = cc
sets s t u c (runs key d) e own =
    let mine : s.phase u ≡ runs key c = e ∙ ap (runs key) (some_inj d c own) in
    Sets-returned s (moves s u (returned key c none)) t u key c none
      (walks s s _ (rests s) (returns u key c none mine) tt (inr refl))
      (at_same u (returned key c none) s.phase)
      (λ v w.
        at_other u v (returned key c none) s.phase
          (waiting_other s u v c (runs key c) w mine (λ q. cc))
        ∙ w)
sets s t u c (returned key d val) e own =
    let mine : s.phase u ≡ returned key c val =
      e ∙ ap (λ x. returned key x val) (some_inj d c own) in
    Sets-returned s s t u key c val (rests s) mine (λ v w. w)
sets s t u c (published key d val) e own = cc
sets s t u c (done val) e own = cc
sets s t u c threw e own = cc

-- A thread that waits on a call gets its value.
waiting : (s : State) (t c : ℕ) → s.phase t ≡ waits c → Covered s c → Finishes s t
waiting s t c e (inl (val, known)) = (
  t,
  inl refl,
  _,
  val,
  walks s s _ (rests s) (wakes t c val e known) tt (inl refl),
  at_same t (done val) s.phase,
)
waiting s t c e (inr (u, own)) =
    let (s', val, run, known, still) = sets s t u c (s.phase u) refl own in
    (
      u,
      inr (c, e, own),
      _,
      val,
      walks s s' _ run (wakes t c val (still t e) known) tt (inl refl),
      at_same t (done val) s'.phase,
    )

-- No deadlock: in every state that is reached while no function throws, each thread that has begun
-- can still return, by steps of its own alone or, where it waits on a call, by steps of its own and
-- of the thread that has the call's promise to set, none of which is an exception.
pub finishes : (s : State) (t : ℕ) → Calm s → s.phase t ≢ idle → Finishes s t
unfolding awaited
finishes s t r begun = by (s.phase t) refl
  where
    live : IsLive s
    live = Calm-IsLive s r

    by : (p : Phase) → s.phase t ≡ p → Finishes s t
    by idle e = absurd (begun e)
    by (waits c) e = waiting s t c e (live.covered c (live.awaits t c (ap awaited e)))
    by (runs key c) e =
        after_return s (moves s t (returned key c none)) t key c none
          (walks s s _ (rests s) (returns t key c none e) tt (inl refl))
          (at_same t (returned key c none) s.phase)
    by (returned key c val) e = after_return s s t key c val (rests s) e
    by (published key c val) e = after_publish s s t key c val (rests s) e
    by (done val) e = (t, inl refl, s, val, rests s, e)
    by threw e = absurd (live.calmly t e)
