-- ===== src/Desktop/Delivered.antt =====
-- What `MyTcpServer::resend` of Server/mytcpserver.cpp writes to the connections, told without its
-- loop.
use mathlib.Core.List.{append-nil}
use youdge.Base.{
  ◌≡◌, ◌≢◌, sym, ap, subst, ◌∙◌, List, [], ◌∷◌, ◌++◌, Str, str_dec, take, if_pos, if_neg,
}
use youdge.Pdu.{Pdu, encode, IsFrame}
use youdge.Pdu.Wire.{length-encode, take-append}
use youdge.Handlers.{Sock, deliver, resend}

-- The connections before and after these bytes are written to each one that is logged in by the
-- name, and nothing to the others.
pub data Delivered (name bytes : Str) : List Sock → List Sock → Type 0 where
  all_served : Delivered name bytes [] []
  gets :
      (k : Sock) (before after : List Sock)
      → k.login_name ≡ name
      → Delivered name bytes before after
      → Delivered name bytes (k ∷ before) (record k { written = k.written ++ bytes } ∷ after)
  skips :
      (k : Sock) (before after : List Sock)
      → k.login_name ≢ name
      → Delivered name bytes before after
      → Delivered name bytes (k ∷ before) (k ∷ after)

-- The bytes are written for one name after the other.
pub data EachGets (bytes : Str) : List Str → List Sock → List Sock → Type 0 where
  no_more : (l : List Sock) → EachGets bytes [] l l
  next :
      (name : Str) (names : List Str) (before mid after : List Sock)
      → Delivered name bytes before mid
      → EachGets bytes names mid after
      → EachGets bytes (name ∷ names) before after

-- All the bytes of a frame.
take-encode : (p : Pdu) → IsFrame p → take p.pdu_len (encode p) ≡ encode p
take-encode p f =
    ap (take p.pdu_len) (sym (append-nil (encode p)))
    ∙ take-append p.pdu_len (encode p) [] (length-encode p f.params ∙ sym f.total)

pub resend-Delivered :
    (name : Str) (p : Pdu)
    → IsFrame p
    → (l : List Sock) → Delivered name (encode p) l (resend name p l)
unfolding resend deliver
resend-Delivered name p f [] = all_served
resend-Delivered name p f (k ∷ l) =
    let rest = resend-Delivered name p f l in
    elim (str_dec name k.login_name) [
      | yes e ↦
          let whole : deliver name p k ≡ record k { written = k.written ++ encode p } =
            if_pos (str_dec name k.login_name) e _ k
            ∙ ap (λ b. record k { written = k.written ++ b }) (take-encode p f) in
          subst (λ x. Delivered name (encode p) (k ∷ l) (x ∷ resend name p l)) (sym whole)
            (gets k l (resend name p l) (sym e) rest)
      | no n ↦
          subst (λ x. Delivered name (encode p) (k ∷ l) (x ∷ resend name p l))
            (sym (if_neg (str_dec name k.login_name) n _ k))
            (skips k l (resend name p l) (λ e. n (sym e)) rest)
    ]

-- The message goes to each friend in turn.
abbrev pub resend_each : List Str → Pdu → List Sock → List Sock
resend_each [] p sockets = sockets
resend_each (name ∷ names) p sockets = resend_each names p (resend name p sockets)

pub resend_each-EachGets :
    (names : List Str) (p : Pdu)
    → IsFrame p
    → (l : List Sock) → EachGets (encode p) names l (resend_each names p l)
resend_each-EachGets [] p f l = no_more l
resend_each-EachGets (name ∷ names) p f l =
    next name names l (resend name p l) (resend_each names p (resend name p l))
      (resend-Delivered name p f l) (resend_each-EachGets names p f (resend name p l))
