-- ===== src/Flight/Invariant.antt =====
-- The invariant of `SingleFlight::Do` (src/include/kcache/singleflight.h), and that each step keeps it.
use youdge.Base.{
  ℕ, ◌+◌, ◌<◌, ◌≤◌, ◌≡◌, ◌≢◌, ◌⊎◌, inl, inr, refl, sym, ap, ◌∙◌, Option, none, some, some_inj, ite,
  if_pos, if_neg, ℕ_discrete, Str, str_dec, arith,
}
use youdge.Base.UnorderedMap
use youdge.Flight.{
  Result, Phase, idle, waits, runs, returned, published, done, threw, State, start, at, moves,
}

-- The key and the call of a thread that has made the call and has not yet erased it.
unfoldable pub owned : Phase → Option (Str × ℕ)
owned idle = none
owned (waits c) = none
owned (runs key c) = some (key, c)
owned (returned key c val) = some (key, c)
owned (published key c val) = some (key, c)
owned (done val) = none
owned threw = none

-- The call whose promise a thread has still to set.
unfoldable pub pending : Phase → Option ℕ
pending idle = none
pending (waits c) = none
pending (runs key c) = some c
pending (returned key c val) = some c
pending (published key c val) = none
pending (done val) = none
pending threw = none

pub record IsValid (s : State) : Type 0 where
  pub mapped :
      (t : ℕ) (key : Str) (c : ℕ)
      → owned (s.phase t) ≡ some (key, c)
      → UnorderedMap.find str_dec key s.map_ ≡ some c
  pub alone :
      (t u : ℕ) (key key' : Str) (c : ℕ)
      → owned (s.phase t) ≡ some (key, c)
      → owned (s.phase u) ≡ some (key', c)
      → t ≡ u
  pub fresh : (t : ℕ) (key : Str) (c : ℕ) → owned (s.phase t) ≡ some (key, c) → c < s.next_call
  pub unset : (t c : ℕ) → pending (s.phase t) ≡ some c → s.futures c ≡ none
  pub later : (c : ℕ) → s.next_call ≤ c → s.futures c ≡ none
  pub held : (key : Str) (c : ℕ) → UnorderedMap.find str_dec key s.map_ ≡ some c → c < s.next_call

pub start-IsValid : IsValid start
unfolding owned pending UnorderedMap.find
start-IsValid = record {
  mapped = λ t key c e. cc;
  alone = λ t u key key' c e e'. cc;
  fresh = λ t key c e. cc;
  unset = λ t c e. cc;
  later = λ c h. refl;
  held = λ key c e. cc;
}

-- A thread that owned nothing, or gives up what it owns.
pub moves-IsValid :
    (s : State) (t : ℕ) (p : Phase)
    → owned p ≡ none
    → pending p ≡ none
    → IsValid s
    → IsValid (moves s t p)
unfolding at
moves-IsValid s t p o q v = record {
  mapped = λ u key c e. ground (arith, v.mapped u key c);
  alone = λ u w key key' c e e'. ground (arith, v.alone u w key key' c);
  fresh = λ u key c e. ground (arith, v.fresh u key c);
  unset = λ u c e. ground (arith, v.unset u c);
  later = v.later;
  held = v.held;
}

-- A thread that goes on with the call that it owns, and still has to set its promise.
pub keeps-IsValid :
    (s : State) (t : ℕ) (p : Phase)
    → owned p ≡ owned (s.phase t)
    → pending p ≡ pending (s.phase t)
    → IsValid s
    → IsValid (moves s t p)
unfolding at
keeps-IsValid s t p o q v = record {
  mapped = λ u key c e. v.mapped u key c (same u ∙ e);
  alone = λ u w key key' c e e'. v.alone u w key key' c (same u ∙ e) (same w ∙ e');
  fresh = λ u key c e. v.fresh u key c (same u ∙ e);
  unset = λ u c e. v.unset u c (same_pending u ∙ e);
  later = v.later;
  held = v.held;
}
  where
    same : (u : ℕ) → owned (s.phase u) ≡ owned (at t p s.phase u)
    same u = ground (arith, o, ap (λ w. owned (s.phase w)))

    same_pending : (u : ℕ) → pending (s.phase u) ≡ pending (at t p s.phase u)
    same_pending u = ground (arith, q)

pub owner_inj :
    (k k' : Str) (c c' : ℕ)
    → ◌≡◌ {A = Option (Str × ℕ)} (some (k, c)) (some (k', c'))
    → (k ≡ k') × (c ≡ c')
owner_inj k k' c c' e =
    let p : ◌≡◌ {A = Str × ℕ} (k, c) (k', c') = some_inj _ _ e in
    (ap (λ (x : Str × ℕ). x.0) p, ap (λ (x : Str × ℕ). x.1) p)

-- Whose phase it is that `at` gives.
pub at_cases :
    {B : Type 0} (g : Phase → B) (t u : ℕ) (p : Phase) (f : ℕ → Phase) (x : B)
    → g (at t p f u) ≡ x
    → ((t ≡ u) × (g p ≡ x)) ⊎ ((t ≢ u) × (g (f u) ≡ x))
unfolding at
at_cases g t u p f x e = elim (ℕ_discrete t u) [
  | yes q ↦ inl (q, ap g (sym (if_pos_at q)) ∙ e)
  | no q ↦ inr (q, ap g (sym (if_neg_at q)) ∙ e)
]
  where
    if_pos_at : t ≡ u → ite (ℕ_discrete t u) p (f u) ≡ p
    if_pos_at q = rw (if_pos (ℕ_discrete t u) q) refl

    if_neg_at : t ≢ u → ite (ℕ_discrete t u) p (f u) ≡ f u
    if_neg_at q = rw (if_neg (ℕ_discrete t u) q) refl

pub creates-IsValid :
    (s : State) (t : ℕ) (key : Str)
    → UnorderedMap.find str_dec key s.map_ ≡ none
    → IsValid s
    → IsValid (record s {
      map_ = UnorderedMap.insert str_dec key s.next_call s.map_;
      next_call = s.next_call + 1;
      phase = at t (runs key s.next_call) s.phase;
    })
unfolding at owned pending
creates-IsValid s t key absent v = record {
  mapped = λ u k c e.
      UnorderedMap.find-insert str_dec key k s.next_call s.map_
      ∙ elim (at_cases owned t u (runs key s.next_call) s.phase (some (k, c)) e) [
        | inl (q, own) ↦
            let (same, call) = owner_inj key k s.next_call c own in ground (arith, same, call)
        | inr (q, own) ↦ ground (arith, v.mapped u k c own, absent)
      ];
  alone = λ u w k k' c e e'.
      elim (at_cases owned t u (runs key s.next_call) s.phase (some (k, c)) e) [
        | inl (q, own) ↦
            let (same, call) = owner_inj key k s.next_call c own in
            elim (at_cases owned t w (runs key s.next_call) s.phase (some (k', c)) e') [
              | inl (q', own') ↦ sym q ∙ q'
              | inr (q', own') ↦ absurd (omega (arith, v.fresh w k' c own', call))
            ]
        | inr (q, own) ↦
            elim (at_cases owned t w (runs key s.next_call) s.phase (some (k', c)) e') [
              | inl (q', own') ↦
                  let (same, call) = owner_inj key k' s.next_call c own' in
                  absurd (omega (arith, v.fresh u k c own, call))
              | inr (q', own') ↦ v.alone u w k k' c own own'
            ]
      ];
  fresh = λ u k c e. elim (at_cases owned t u (runs key s.next_call) s.phase (some (k, c)) e) [
    | inl (q, own) ↦ omega (arith, (owner_inj key k s.next_call c own).1)
    | inr (q, own) ↦ omega (arith, v.fresh u k c own)
  ];
  unset = λ u c e. ground (arith, v.unset u c, v.later c);
  later = λ c h. v.later c (omega arith);
  held = λ k c e.
      ground (arith, v.held k c, UnorderedMap.find-insert str_dec key k s.next_call s.map_);
}

pending-owned : (p : Phase) (c : ℕ) → pending p ≡ some c → (key : Str) × (owned p ≡ some (key, c))
unfolding owned pending
pending-owned idle c e = cc
pending-owned (waits d) c e = cc
pending-owned (runs key d) c e = (key, ap (λ x. some (key, x)) (some_inj _ _ e))
pending-owned (returned key d val) c e = (key, ap (λ x. some (key, x)) (some_inj _ _ e))
pending-owned (published key d val) c e = cc
pending-owned (done val) c e = cc
pending-owned threw c e = cc

pub publishes-IsValid :
    (s : State) (t : ℕ) (key : Str) (c : ℕ) (val : Result)
    → owned (s.phase t) ≡ some (key, c)
    → IsValid s
    → IsValid (record s {
      futures = at c (some val) s.futures;
      phase = at t (published key c val) s.phase;
    })
unfolding at owned pending
publishes-IsValid s t key c val own v = record {
  mapped = λ u k d e. v.mapped u k d (same u k d e);
  alone = λ u w k k' d e e'. v.alone u w k k' d (same u k d e) (same w k' d e');
  fresh = λ u k d e. v.fresh u k d (same u k d e);
  unset = λ u d e. elim (at_cases pending t u (published key c val) s.phase (some d) e) [
    | inl (q, no_promise) ↦ cc
    | inr (q, promise) ↦
        let (k, own') = pending-owned (s.phase u) d promise in
        ground (arith, v.unset u d promise, v.alone t u key k c own, own')
  ];
  later = λ d h. ground (arith, v.later d h, v.fresh t key c own);
  held = v.held;
}
  where
    same :
        (u : ℕ) (k : Str) (d : ℕ)
        → owned (at t (published key c val) s.phase u) ≡ some (k, d)
        → owned (s.phase u) ≡ some (k, d)
    same u k d e = elim (at_cases owned t u (published key c val) s.phase (some (k, d)) e) [
      | inl (q, mine) ↦ ap (λ w. owned (s.phase w)) (sym q) ∙ own ∙ mine
      | inr (q, other) ↦ other
    ]

pub erases-IsValid :
    (s : State) (t : ℕ) (key : Str) (c : ℕ) (val : Result)
    → owned (s.phase t) ≡ some (key, c)
    → IsValid s
    → IsValid
        (record s { map_ = UnorderedMap.erase str_dec key s.map_; phase = at t (done val) s.phase })
unfolding at owned pending
erases-IsValid s t key c val own v = record {
  mapped = λ u k d e. elim (at_cases owned t u (done val) s.phase (some (k, d)) e) [
    | inl (q, mine) ↦ cc
    | inr (q, other) ↦ UnorderedMap.find-erase str_dec key k s.map_ ∙ elim (str_dec key k) [
      | yes p ↦
          let call : c ≡ d = some_inj c d (
            sym (v.mapped t key c own)
            ∙ ap (λ j. UnorderedMap.find str_dec j s.map_) p
            ∙ v.mapped u k d other) in
          absurd (q (v.alone t u key k d (own ∙ ap (λ x. some (key, x)) call) other))
      | no p ↦ ground (arith, v.mapped u k d other, p)
    ]
  ];
  alone = λ u w k k' d e e'. ground (arith, v.alone u w k k' d);
  fresh = λ u k d e. ground (arith, v.fresh u k d);
  unset = λ u d e. ground (arith, v.unset u d);
  later = v.later;
  held = λ k d e. ground (arith, v.held k d, UnorderedMap.find-erase str_dec key k s.map_);
}
