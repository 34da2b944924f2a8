-- ===== src/Flight/Progress.antt =====
-- Progress of `SingleFlight::Do` (src/include/kcache/singleflight.h) while no function throws.
use youdge.Base.{
  ℕ, ◌+◌, ◌<◌, ◌≡◌, ◌≢◌, ◌⊎◌, inl, inr, refl, sym, ap, ◌∙◌, Option, none, some, some_inj, Str,
  arith, List, if_pos, if_neg, ℕ_discrete,
}
use youdge.Flight.{
  Result, Phase, idle, waits, runs, returned, published, done, threw, State, at, moves, start, Step,
  attaches, creates, wakes, returns, throws, publishes, erases, Reach, begins, steps,
}
use youdge.Flight.Invariant.{pending, at_cases}

-- A step in which the function does not throw.
abbrev pub IsNormal : {s s' : State} → Step s s' → Type 0
IsNormal (attaches t key c e f) = Unit {0}
IsNormal (creates t key e f) = Unit {0}
IsNormal (wakes t c val e f) = Unit {0}
IsNormal (returns t key c val e) = Unit {0}
IsNormal (throws t key c e) = ⊥
IsNormal (publishes t key c val e) = Unit {0}
IsNormal (erases t key c val e) = Unit {0}

-- The states that are reached while no function throws.
pub data Calm : State → Type 0 where
  calm : Calm start
  goes_on : (s s' : State) → Calm s → (st : Step s s') → IsNormal st → Calm s'

pub Calm-Reach : (s : State) → Calm s → Reach s
Calm-Reach _ calm = begins
Calm-Reach _ (goes_on s s' r st n) = steps s s' (Calm-Reach s r) st

abbrev pub Covered : State → ℕ → Type 0
Covered s c =
    ((val : Result) × (s.futures c ≡ some val)) ⊎ ((u : ℕ) × (pending (s.phase u) ≡ some c))

-- The call that a thread waits on.
unfoldable pub awaited : Phase → Option ℕ
awaited idle = none
awaited (waits c) = some c
awaited (runs key c) = none
awaited (returned key c val) = none
awaited (published key c val) = none
awaited (done val) = none
awaited threw = none

-- Each call that was made has its value, or a thread that will set it; a wait is on such a call.
pub record IsLive (s : State) : Type 0 where
  pub covered : (c : ℕ) → c < s.next_call → Covered s c
  pub awaits : (t c : ℕ) → awaited (s.phase t) ≡ some c → c < s.next_call
  pub calmly : (t : ℕ) → s.phase t ≢ threw

pub at_same : {A : Type 0} (t : ℕ) (p : A) (f : ℕ → A) → at t p f t ≡ p
unfolding at
at_same t p f = if_pos (ℕ_discrete t t) refl p (f t)

pub at_other : {A : Type 0} (t u : ℕ) (p : A) (f : ℕ → A) → t ≢ u → at t p f u ≡ f u
unfolding at
at_other t u p f h = if_neg (ℕ_discrete t u) h p (f u)

pub awaits-at :
    (n t : ℕ) (p : Phase) (f : ℕ → Phase)
    → ((d : ℕ) → awaited p ≡ some d → d < n)
    → ((u d : ℕ) → awaited (f u) ≡ some d → d < n)
    → (u d : ℕ) → awaited (at t p f u) ≡ some d
    → d < n
awaits-at n t p f new old u d e = elim (at_cases awaited t u p f (some d) e) [
  | inl (q, mine) ↦ new d mine
  | inr (q, other) ↦ old u d other
]

pub calmly-at :
    (t : ℕ) (p : Phase) (f : ℕ → Phase)
    → p ≢ threw
    → ((u : ℕ) → f u ≢ threw)
    → (u : ℕ) → at t p f u ≢ threw
calmly-at t p f new old u e = elim (at_cases (λ x. x) t u p f threw e) [
  | inl (q, mine) ↦ new mine
  | inr (q, other) ↦ old u other
]

-- A promise that another thread has still to set.
kept_promise :
    (t u : ℕ) (p : Phase) (f : ℕ → Phase) (c : ℕ)
    → pending (f t) ≢ some c
    → pending (f u) ≡ some c
    → pending (at t p f u) ≡ some c
kept_promise t u p f c other own =
    ap pending (at_other t u p f (λ q. other (ap (λ w. pending (f w)) q ∙ own))) ∙ own

-- A thread that had no promise to set keeps those of the others.
pub moves-Covered :
    (s : State) (t : ℕ) (p : Phase) (c : ℕ)
    → pending (s.phase t) ≡ none
    → Covered s c
    → Covered (moves s t p) c
moves-Covered s t p c e (inl known) = inl known
moves-Covered s t p c e (inr (u, own)) =
    inr (u, kept_promise t u p s.phase c (λ q. none-some c (sym e ∙ q)) own)
  where
    none-some : (d : ℕ) → ◌≡◌ {A = Option ℕ} none (some d) → ⊥
    none-some d q = cc

-- The same for a thread that keeps its own promise.
pub returns-Covered :
    (s : State) (t : ℕ) (p : Phase) (c : ℕ)
    → pending p ≡ pending (s.phase t)
    → Covered s c
    → Covered (moves s t p) c
returns-Covered s t p c e (inl known) = inl known
returns-Covered s t p c e (inr (u, own)) = inr (u, by (ℕ_discrete t u))
  where
    by : Dec (t ≡ u) → pending (at t p s.phase u) ≡ some c
    by (yes q) =
        ap (λ w. pending (at t p s.phase w)) (sym q)
        ∙ ap pending (at_same t p s.phase)
        ∙ e
        ∙ ap (λ w. pending (s.phase w)) q
        ∙ own
    by (no q) = ap pending (at_other t u p s.phase q) ∙ own

pub publishes-Covered :
    (s : State) (t : ℕ) (p : Phase) (c d : ℕ) (val : Result)
    → pending (s.phase t) ≡ some c
    → Covered s d
    → Covered (record s { futures = at c (some val) s.futures; phase = at t p s.phase }) d
publishes-Covered s t p c d val e old = by (ℕ_discrete c d) old
  where
    by :
        Dec (c ≡ d)
        → Covered s d
        → Covered (record s { futures = at c (some val) s.futures; phase = at t p s.phase }) d
    by (yes q) o =
        inl (val, ap (at c (some val) s.futures) (sym q) ∙ at_same c (some val) s.futures)
    by (no q) (inl (v, known)) = inl (v, at_other c d (some val) s.futures q ∙ known)
    by (no q) (inr (u, own)) =
        inr (u, kept_promise t u p s.phase d (λ r. q (some_inj c d (sym e ∙ r))) own)

pub creates-Covered :
    (s : State) (t : ℕ) (key : Str) (c : ℕ) (m : List (Str × ℕ))
    → s.phase t ≡ idle
    → ((d : ℕ) → d < s.next_call → Covered s d)
    → c < s.next_call + 1
    → Covered
        (record s {
          map_ = m;
          next_call = s.next_call + 1;
          phase = at t (runs key s.next_call) s.phase;
        })
        c
unfolding pending
creates-Covered s t key c m e old h = elim (ℕ_discrete c s.next_call) [
  | yes q ↦ inr (t, ap pending (at_same t (runs key s.next_call) s.phase) ∙ ap some (sym q))
  | no q ↦ moves-Covered s t (runs key s.next_call) c (ap pending e) (old c (ground (arith, h, q)))
]
