-- ===== src/Handlers/Logins.antt =====
-- The login names in the socket list of Server/mytcpserver.cpp, under `resend` and a login.
use youdge.Base.{
  ℕ, zero, suc, ◌≡◌, ◌≢◌, refl, ap, ◌∙◌, Bool, true, false, List, [], ◌∷◌, Option, none, some, Str,
  arith, take, drop, if◌then◌else◌, ◌>>=◌,
}
use youdge.Pdu.{Pdu}
use youdge.Handlers.{State, Sock, cstr, resend, deliver, set_login}
use youdge.Handlers.Files.{resend_all}

-- The login name of the connection at this place.
unfoldable pub login_at : ℕ → List Sock → Option Str
login_at n [] = none
login_at zero (k ∷ l) = some k.login_name
login_at (suc n) (k ∷ l) = login_at n l

deliver-login_name : (tar : Str) (p : Pdu) (k : Sock) → (deliver tar p k).login_name ≡ k.login_name
unfolding deliver
deliver-login_name tar p k = ground arith

pub login_at-resend :
    (j : ℕ) (tar : Str) (p : Pdu) (l : List Sock) → login_at j (resend tar p l) ≡ login_at j l
unfolding login_at resend
login_at-resend j tar p [] = refl
login_at-resend zero tar p (k ∷ l) = ap some (deliver-login_name tar p k)
login_at-resend (suc j) tar p (k ∷ l) = login_at-resend j tar p l

pub login_at-set_login :
    (j i : ℕ) (name : Str) (l : List Sock) → j ≢ i → login_at j (set_login i name l) ≡ login_at j l
unfolding login_at set_login
login_at-set_login j i name [] h = refl
login_at-set_login zero zero name (k ∷ l) h = absurd (h refl)
login_at-set_login zero (suc i) name (k ∷ l) h = refl
login_at-set_login (suc j) zero name (k ∷ l) h = refl
login_at-set_login (suc j) (suc i) name (k ∷ l) h =
    login_at-set_login j i name l (λ e. h (ap suc e))

-- The answer leaves the login name at this place as it was.
abbrev pub LeavesLogin : {W : Type 0} → ℕ → State W → Option (State W × Option Pdu) → Type 0
LeavesLogin j s none = Unit {0}
LeavesLogin j s (some (s', reply)) = login_at j s'.sockets ≡ login_at j s.sockets

-- A step of a chain that may be undefined.
pub then_leaves :
    {W A : Type 0} (j : ℕ) (s : State W) (o : Option A) (f : A → Option (State W × Option Pdu))
    → ((a : A) → LeavesLogin j s (f a))
    → LeavesLogin j s (o >>= f)
then_leaves j s none f h = tt
then_leaves j s (some a) f h = h a

pub if_leaves :
    {W : Type 0} (j : ℕ) (s : State W) (b : Bool) (x y : Option (State W × Option Pdu))
    → LeavesLogin j s x
    → LeavesLogin j s y
    → LeavesLogin j s (if b then x else y)
if_leaves j s true x y hx hy = hx
if_leaves j s false x y hx hy = hy

pub if_resend :
    (j : ℕ) (b : Bool) (tar : Str) (p : Pdu) (l : List Sock)
    → login_at j (if b then resend tar p l else l) ≡ login_at j l
if_resend j true tar p l = login_at-resend j tar p l
if_resend j false tar p l = refl

-- The same for a list of sockets.
abbrev pub LeavesAll : ℕ → List Sock → Option (List Sock) → Type 0
LeavesAll j l none = Unit {0}
LeavesAll j l (some l') = login_at j l' ≡ login_at j l

all_then :
    (j : ℕ) (l : List Sock) (o : Option Str) (f : Str → Option (List Sock))
    → ((name : Str) → LeavesAll j l (f name))
    → LeavesAll j l (o >>= f)
all_then j l none f h = tt
all_then j l (some name) f h = h name

all_from :
    (j : ℕ) (l m : List Sock) (o : Option (List Sock))
    → login_at j m ≡ login_at j l
    → LeavesAll j m o
    → LeavesAll j l o
all_from j l m none e h = tt
all_from j l m (some l') e h = h ∙ e

pub resend_all-LeavesAll :
    (j n : ℕ) (names : Str) (p : Pdu) (l : List Sock) → LeavesAll j l (resend_all n names p l)
unfolding resend_all
resend_all-LeavesAll j zero names p l = refl
resend_all-LeavesAll j (suc n) names p l = all_then j l (cstr (take 32 names)) _ (λ name.
    all_from j l (resend name p l) (resend_all n (drop 32 names) p (resend name p l))
      (login_at-resend j name p l) (resend_all-LeavesAll j n (drop 32 names) p (resend name p l)))

pub all_leaves :
    {W : Type 0} (j : ℕ) (s : State W) (o : Option (List Sock)) (r : Option Pdu)
    → LeavesAll j s.sockets o
    → LeavesLogin j s (o >>= (λ l. some (record s { sockets = l }, r)))
all_leaves j s none r h = tt
all_leaves j s (some l) r h = h
