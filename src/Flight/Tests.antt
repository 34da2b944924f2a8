-- ===== src/Flight/Tests.antt =====
-- Interleavings of src/include/kcache/singleflight.h, and the theorems at concrete states.
use youdge.Base.{ℕ, ◌+◌, ◌≡◌, ◌≢◌, refl, sym, ◌∙◌, [], none, some, Str, str_dec, codes, ℕ_discrete}
use youdge.Base.UnorderedMap
use youdge.Flight.{
  idle, runs, waits, threw, State, start, at, moves, attaches, creates, Reach, begins, steps,
}
use youdge.Flight.Invariant.{owned}
use youdge.Flight.Exclusion.{one_flight}
use youdge.Flight.Progress.{Calm, calm, goes_on}
use youdge.Flight.Finish.{Finishes, finishes}
use youdge.Flight.Wedge.{Steps, stays, goes, throws-wedges}

opened : Unit {0}
unfolding at owned UnorderedMap.find UnorderedMap.insert UnorderedMap.erase str_dec ℕ_discrete
opened = tt

abbrev key : Str
key = codes "Tom"

-- Thread 1 makes the call of the key.
abbrev created : State
created = record start {
  map_ = UnorderedMap.insert str_dec key 0 [];
  next_call = 0 + 1;
  phase = at 1 (runs key 0) start.phase;
}

reached : Reach created
unfolding opened
reached = steps start created begins (creates 1 key refl refl)

running : created.phase 1 ≡ runs key 0
unfolding opened
running = refl

owning : owned (created.phase 1) ≡ some (key, 0)
unfolding opened
owning = refl

one_flight_example : ◌≡◌ {A = ℕ} 1 1
one_flight_example = one_flight created 1 1 key 0 0 reached owning owning

-- Thread 2 comes for the key after the exception of thread 1.
abbrev wedged : State
wedged = moves (moves created 1 threw) 2 (waits 0)

late : Steps (moves created 1 threw) wedged
unfolding opened
late = goes _ _ _ (stays (moves created 1 threw)) (attaches 2 key 0 refl refl)

throws-wedges_example :
    (UnorderedMap.find str_dec key wedged.map_ ≡ some 0) × (wedged.futures 0 ≡ none)
throws-wedges_example = throws-wedges created wedged 1 key 0 reached running late

created-Calm : Calm created
unfolding opened
created-Calm = goes_on start created calm (creates 1 key refl refl) tt

begun : created.phase 1 ≢ idle
begun e = running_is (sym running ∙ e)
  where
    running_is : runs key 0 ≡ idle → ⊥
    running_is q = cc

finishes_example : Finishes created 1
finishes_example = finishes created 1 created-Calm begun
