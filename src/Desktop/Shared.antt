-- ===== src/Desktop/Shared.antt =====
-- A file that is shared: the request of Client/sharefile.cpp, `shareFile` of Server/msghandler.cpp,
-- the question at a friend's client, and the copy on the server.
use mathlib.Core.List.{append_assoc}
use youdge.Base.{
  ℕ, zero, suc, ◌+◌, ◌-◌, ◌*◌, ◌%◌, ◌^◌, ◌<◌, ◌≤◌, ◌≡◌, refl, sym, ap, ◌∙◌, List, [], ◌∷◌, ◌++◌,
  some, Str, length, take, drop, length-append, arith, ◌>>=◌,
}
use youdge.Pdu.{Pdu, mk_pdu, zeros}
use youdge.Pdu.Wire.{length-zeros, take-append, drop-append}
use youdge.Handlers.{Sock, cstr, name_fields, resend}
use youdge.Handlers.Types.{number, share_file_request}
use youdge.Handlers.Files.{resend_all}
use youdge.Desktop.Delivered.{resend_each}
use youdge.Desktop.{field, put_at, put_msg, put_data}
use youdge.Desktop.Fields.{
  IsReadable, two_fields, length-field, length-drop, cstr-field, put_at-append,
}
use youdge.Desktop.Browser.{int_field}
use youdge.Desktop.Sharing.{put_names, share_pdu}
use youdge.Desktop.Moving.{IsStack, length-int_field}
use youdge.Desktop.Names.{AllNames, name_fields-field}

drop-zeros : (k m : ℕ) → drop k (zeros (k + m)) ≡ zeros m
drop-zeros zero m = ap zeros (omega arith)
drop-zeros (suc k) m = let e : suc k + m ≡ suc (k + m) = omega arith in rw e (drop-zeros k m)

drop-drop : (m n : ℕ) (l : Str) → drop m (drop n l) ≡ drop (n + m) l
drop-drop m zero l = ap (λ k. drop k l) (omega arith)
drop-drop m (suc n) [] = drop-nil m ∙ sym (drop-nil (suc n + m))
  where
    drop-nil : (k : ℕ) → drop {A = ℕ} k [] ≡ []
    drop-nil zero = refl
    drop-nil (suc k) = refl
drop-drop m (suc n) (x ∷ l) =
    let e : suc n + m ≡ suc (n + m) = omega arith in rw e (drop-drop m n l)

pub length-name_fields :
    (behind : Str → Str) (names : List Str)
    → IsReadable behind
    → length (name_fields behind names) ≡ length names * 32
unfolding name_fields
length-name_fields behind [] r = omega arith
length-name_fields behind (name ∷ names) r = omega (
  arith,
  ap length (name_fields-field behind name names),
  length-append (field behind name) (name_fields behind names),
  length-field behind name r,
  length-name_fields behind names r,
)

module _ (memory : Str → Str) (stack : ℕ → Str) where
  -- The loop writes the names' fields one behind the other.
  put_names-name_fields :
      (names : List Str) (i : ℕ) (front room : Str) (p : Pdu)
      → IsReadable memory
      → length front ≡ i * 32
      → length names * 32 ≤ length room
      → p.ca_msg ≡ front ++ room
      → put_names memory stack i names p
        ≡ record p { ca_msg = front ++ (name_fields memory names ++ drop (length names * 32) room) }
  unfolding put_names name_fields
  put_names-name_fields [] i front room p r e h m = ap (λ x. record p { ca_msg = x }) m
  put_names-name_fields (name ∷ names) i front room p r e h m =
      let f = field memory name in
      let long = length-field memory name r in
      let q = put_msg (i * 32) f p in
      let written : q.ca_msg ≡ (front ++ f) ++ drop (length f) room =
        ap (put_at (i * 32) f) m ∙ put_at-append (i * 32) front f room e (omega (arith, long, h)) in
      put_names-name_fields names (suc i) (front ++ f) (drop (length f) room) q r
        (omega (arith, length-append front f, e, long))
        (omega (arith, length-drop (length f) room, long, h)) written
      ∙ ap (λ x. record p { ca_msg = x })
          (append_assoc front f _
            ∙ ap (λ x. front ++ x)
                (ap (λ x. f ++ (name_fields memory names ++ x))
                    (drop-drop (length names * 32) (length f) room
                      ∙ ap (λ k. drop k room) (omega (arith, long)))
                  ∙ sym (append_assoc f (name_fields memory names) _)
                  ∙ ap (λ x. x ++ drop (suc (length names) * 32) room)
                      (sym (name_fields-field memory name names))))

  -- The whole request.
  pub share_pdu_lem :
      (cur path : Str) (names : List Str)
      → IsReadable memory
      → IsStack stack
      → length names * 32 + length path < 2 ^ 31
      → share_pdu memory stack cur names path
        ≡ record (mk_pdu (number share_file_request) (length names * 32 + length path + 1)) {
          ca_data = field memory cur ++ int_field memory stack (length names);
          ca_msg = name_fields memory names ++ (path ++ (0 ∷ []));
        }
  unfolding share_pdu mk_pdu
  share_pdu_lem cur path names r s h =
      let k : ℕ = length names * 32 in
      let n : (76 + (k + length path + 1)) % 2 ^ 32 - 76 ≡ k + length path + 1 = omega arith in
      let room : Str = zeros (k + length path + 1) in
      let start : Pdu = record (mk_pdu (number share_file_request) (k + length path + 1)) {
        ca_data = field memory cur ++ int_field memory stack (length names);
        ca_msg = room;
      } in
      let base : put_data 32 (int_field memory stack (length names)) (
            put_data 0 (field memory cur)
              (mk_pdu (number share_file_request) (k + length path + 1)))
          ≡ start =
        λ i. record start {
          ca_data =
              two_fields (field memory cur) (int_field memory stack (length names)) (zeros 64)
                (length-field memory cur r) (length-int_field memory stack (length names) s)
                (length-zeros 64) i;
          ca_msg = zeros (n i);
        } in
      let fields = length-name_fields memory names r in
      let last : drop (length path) (drop k room) ≡ 0 ∷ [] =
        drop-drop (length path) k room ∙ drop-zeros (k + length path) 1 in
      ap (λ p. put_msg k path (put_names memory stack 0 names p)) base
      ∙ ap (put_msg k path) (
          put_names-name_fields names 0 [] room start r refl
            (omega (arith, length-zeros (k + length path + 1))) refl)
      ∙ ap (λ x. record start { ca_msg = x })
          (put_at-append k (name_fields memory names) path (drop k room) fields
              (omega (arith, length-drop k room, length-zeros (k + length path + 1)))
            ∙ append_assoc (name_fields memory names) path (drop (length path) (drop k room))
            ∙ ap (λ x. name_fields memory names ++ (path ++ x)) last)

pub resend_all-name_fields :
    (behind : Str → Str) (names : List Str) (rest : Str) (p : Pdu) (sockets : List Sock)
    → IsReadable behind
    → AllNames names
    → resend_all (length names) (name_fields behind names ++ rest) p sockets
      ≡ some (resend_each names p sockets)
unfolding resend_all name_fields
resend_all-name_fields behind [] rest p sockets r h = refl
resend_all-name_fields behind (name ∷ names) rest p sockets r h =
    let f = field behind name in
    let more : Str = name_fields behind names ++ rest in
    let start : name_fields behind (name ∷ names) ++ rest ≡ f ++ more =
      ap (λ x. x ++ rest) (name_fields-field behind name names)
      ∙ append_assoc f (name_fields behind names) rest in
    let front : cstr (take 32 (f ++ more)) ≡ some name =
      ap cstr (take-append 32 f more (length-field behind name r)) ∙ cstr-field behind name h.0 in
    let later : drop 32 (f ++ more) ≡ more = drop-append 32 f more (length-field behind name r) in
    rw (start, front, later, ◌>>=◌)
      (resend_all-name_fields behind names rest p (resend name p sockets) r h.1)
