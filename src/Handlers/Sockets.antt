-- ===== src/Handlers/Sockets.antt =====
-- The connections of Server/mytcpserver.cpp as they come and go: `incomingConnection`,
-- `deleteSocket`, and `clientOffline` of Server/mytcpsocket.cpp.
use youdge.Base.{
  ℕ, zero, suc, ◌≡◌, ◌≢◌, refl, sym, arith, ap, ◌∙◌, List, [], ◌∷◌, ◌++◌, some, Str, str_dec,
  if_neg,
}
use youdge.Pdu.{Pdu}
use youdge.Users.{Engine, handle_offline}
use youdge.Handlers.{State, Sock, deliver, resend}
use youdge.Handlers.Logins.{login_at}

-- A connection has no login name before its login.
unfoldable pub incoming_connection : List Sock → List Sock
incoming_connection sockets = sockets ++ (record { login_name = []; written = [] } ∷ [])

unfoldable pub delete_socket : ℕ → List Sock → List Sock
delete_socket i [] = []
delete_socket zero (k ∷ sockets) = sockets
delete_socket (suc i) (k ∷ sockets) = k ∷ delete_socket i sockets

-- The login name of the connection itself.
unfoldable pub own_name : ℕ → List Sock → Str
own_name i [] = []
own_name zero (k ∷ sockets) = k.login_name
own_name (suc i) (k ∷ sockets) = own_name i sockets

unfoldable pub client_offline : {W : Type 0} → Engine W → State W → W × List Sock
client_offline exec s =
    (handle_offline exec s.world (own_name s.self s.sockets), delete_socket s.self s.sockets)

deliver-absent : (name : Str) (p : Pdu) (k : Sock) → name ≢ k.login_name → deliver name p k ≡ k
unfolding deliver
deliver-absent name p k h = if_neg (str_dec name k.login_name) h _ k

-- Nobody gets a message to a name that no connection has.
resend-absent :
    (name : Str) (p : Pdu) (l : List Sock)
    → ((j : ℕ) → login_at j l ≢ some name)
    → resend name p l ≡ l
unfolding resend login_at
resend-absent name p [] h = refl
resend-absent name p (k ∷ l) h =
    ap (λ x. x ∷ resend name p l) (deliver-absent name p k (λ e. h zero (ap some (sym e))))
    ∙ ap (◌∷◌ k) (resend-absent name p l (λ j. h (suc j)))

-- After a connection has gone, a message to its login name is written to no socket, if no other
-- connection had the name.
pub resend-delete_socket :
    (i : ℕ) (name : Str) (p : Pdu) (l : List Sock)
    → ((j : ℕ) → j ≢ i → login_at j l ≢ some name)
    → resend name p (delete_socket i l) ≡ delete_socket i l
unfolding delete_socket login_at resend
resend-delete_socket i name p [] h = refl
resend-delete_socket zero name p (k ∷ l) h =
    resend-absent name p l (λ j. h (suc j) (λ e. suc_zero e))
  where
    suc_zero : {j : ℕ} → suc j ≡ zero → ⊥
    suc_zero e = omega (arith, e)
resend-delete_socket (suc i) name p (k ∷ l) h =
    ap (λ x. x ∷ resend name p (delete_socket i l))
      (deliver-absent name p k (λ e. h zero (λ q. zero_suc q) (ap some (sym e))))
    ∙ ap (◌∷◌ k) (resend-delete_socket i name p l (λ j n. h (suc j) (λ q. n (suc_inj q))))
  where
    zero_suc : {j : ℕ} → zero ≡ suc j → ⊥
    zero_suc e = omega (arith, e)

    suc_inj : {j k : ℕ} → suc j ≡ suc k → j ≡ k
    suc_inj e = omega (arith, e)
