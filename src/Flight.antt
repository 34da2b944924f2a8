-- ===== src/Flight.antt =====
-- src/include/kcache/singleflight.h: `SingleFlight::Do` under any interleaving of threads. A step
-- is what one thread does between two points where another may run: each stretch under `mtx_`, the
-- run of the function, the setting of the promise, and the return of a wait. The function is the
-- caller's: it returns any value, or it throws.
pub mod Invariant
pub mod Exclusion
pub mod Wedge
pub mod Progress
pub mod Finish
mod Tests
use youdge.Base.{ℕ, ◌+◌, ◌≡◌, List, [], ◌∷◌, Option, none, some, ite, ℕ_discrete, Str, str_dec}
use youdge.Base.UnorderedMap
use youdge.Lru.{ByteView}

abbrev pub Result : Type 0
Result = Option ByteView

-- Where a thread is in `Do`: before it, waiting on the future of a call, in the function, between
-- the function and `set_value`, between `set_value` and `erase`, after it, or out of it by an
-- exception.
pub data Phase : Type 0 where
  idle : Phase
  waits : ℕ → Phase
  runs : Str → ℕ → Phase
  returned : Str → ℕ → Result → Phase
  published : Str → ℕ → Result → Phase
  done : Result → Phase
  threw : Phase

-- `futures` holds the value of each call whose promise is set. A call is a number.
pub record State : Type 0 where
  pub map_ : List (Str × ℕ)
  pub futures : ℕ → Option Result
  pub next_call : ℕ
  pub phase : ℕ → Phase

abbrev pub start : State
start = record { map_ = []; futures = λ c. none; next_call = 0; phase = λ t. idle }

-- A function with one value changed.
unfoldable pub at : {A : Type 0} → ℕ → A → (ℕ → A) → ℕ → A
at t a f u = ite (ℕ_discrete t u) a (f u)

abbrev pub moves : State → ℕ → Phase → State
moves s t p = record s { phase = at t p s.phase }

pub data Step (s : State) : State → Type 0 where
  -- The key has a call: wait for it.
  attaches :
      (t : ℕ) (key : Str) (c : ℕ)
      → s.phase t ≡ idle
      → UnorderedMap.find str_dec key s.map_ ≡ some c
      → Step s (moves s t (waits c))
  -- The key has no call: make one.
  creates :
      (t : ℕ) (key : Str)
      → s.phase t ≡ idle
      → UnorderedMap.find str_dec key s.map_ ≡ none
      → Step s (record s {
        map_ = UnorderedMap.insert str_dec key s.next_call s.map_;
        next_call = s.next_call + 1;
        phase = at t (runs key s.next_call) s.phase;
      })
  -- `fut.get()` returns.
  wakes :
      (t c : ℕ) (val : Result)
      → s.phase t ≡ waits c
      → s.futures c ≡ some val
      → Step s (moves s t (done val))
  -- `func()` returns, or throws.
  returns :
      (t : ℕ) (key : Str) (c : ℕ) (val : Result)
      → s.phase t ≡ runs key c
      → Step s (moves s t (returned key c val))
  throws : (t : ℕ) (key : Str) (c : ℕ) → s.phase t ≡ runs key c → Step s (moves s t threw)
  -- `set_value`
  publishes :
      (t : ℕ) (key : Str) (c : ℕ) (val : Result)
      → s.phase t ≡ returned key c val
      → Step s (record s {
        futures = at c (some val) s.futures;
        phase = at t (published key c val) s.phase;
      })
  -- `map_.erase(key)`, and the return of `Do`.
  erases :
      (t : ℕ) (key : Str) (c : ℕ) (val : Result)
      → s.phase t ≡ published key c val
      → Step s (record s {
        map_ = UnorderedMap.erase str_dec key s.map_;
        phase = at t (done val) s.phase;
      })

pub data Reach : State → Type 0 where
  begins : Reach start
  steps : (s s' : State) → Reach s → Step s s' → Reach s'
