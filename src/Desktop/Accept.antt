-- ===== src/Desktop/Accept.antt =====
-- The offer of a file that is shared, as the client of a friend answers it: `shareFileResend` of
-- Client/reshandler.cpp.
use mathlib.Core.List.{append_assoc, append-nil}
use youdge.Base.{
  ℕ, ◌+◌, ◌-◌, ◌%◌, ◌^◌, ◌<◌, ◌≡◌, refl, sym, ap, ◌∙◌, Bool, true, [], ◌∷◌, ◌++◌, some, Str, length,
  take, drop, leb, length-append, arith, ◌>>=◌,
}
use youdge.Pdu.{Pdu, mk_pdu, zeros, IsFrame}
use youdge.Pdu.Wire.{length-zeros, take-append}
use youdge.Handlers.{cstr, join}
use youdge.Handlers.Types.{number, share_file_request, share_file_agree_request}
use youdge.Handlers.Files.{after_slash}
use youdge.Desktop.{App, field, put_at, put_data, put_msg, send_msg, get_index}
use youdge.Desktop.Fields.{
  IsText, IsName, IsReadable, length-field, field_lem, cstr-append, put_at-zero, drop_all,
}
use youdge.Desktop.Requests.{mk-IsFrame}
use youdge.Desktop.Trees.{IsPlain}
use youdge.Desktop.Replies.{handle_res, share_file_resend}

pub take_whole : (l : Str) (n : ℕ) → length l ≡ n → take n l ≡ l
take_whole l n e = ap (take n) (sym (append-nil l)) ∙ take-append n l [] e

-- A field at the front of the parameters.
front_field :
    (behind : Str → Str) (name : Str)
    → IsReadable behind
    → put_at 0 (field behind name) (zeros 64) ≡ field behind name ++ zeros 32
front_field behind name r =
    put_at-zero (field behind name) (zeros 64)
      (omega (arith, length-field behind name r, length-zeros 64))
    ∙ ap (λ k. field behind name ++ drop k (zeros 64)) (length-field behind name r)

pub cstr-front_field :
    (behind : Str → Str) (name : Str)
    → IsName name
    → cstr (field behind name ++ zeros 32) ≡ some name
cstr-front_field behind name n =
    ap (λ f. cstr (f ++ zeros 32)) (field_lem behind name n.short)
    ∙ ap cstr (append_assoc name _ (zeros 32))
    ∙ cstr-append name _ n.text

-- What a friend gets, and what the friend's client answers.
abbrev pub offer : (Str → Str) → Str → Str → Pdu
offer memory cur path = record (mk_pdu (number share_file_request) (length path + 1)) {
  ca_data = field memory cur ++ zeros 32;
  ca_msg = path ++ (0 ∷ []);
}

abbrev pub accept : (Str → Str) → Str → Str → Pdu
accept memory cur path = record (mk_pdu (number share_file_agree_request) (length path + 1)) {
  ca_data = field memory cur ++ zeros 32;
  ca_msg = path ++ (0 ∷ []);
}

-- What a friend gets is a whole PDU.
pub offer-IsFrame :
    (memory : Str → Str) (cur path : Str)
    → IsReadable memory
    → length path < 2 ^ 30
    → IsFrame (offer memory cur path)
unfolding mk_pdu
offer-IsFrame memory cur path r h =
    let base = mk-IsFrame share_file_request (length path + 1) (omega arith) in
    let size = length-append path (0 ∷ []) in
    let params = length-append (field memory cur) (zeros 32) in
    record {
      params = omega (arith, params, length-field memory cur r, length-zeros 32);
      total = omega (arith, size);
      message = omega (arith, size);
      small = base.small;
      typed = base.typed;
    }

after_slash-IsPlain : (l name : Str) → IsPlain l → after_slash l name ≡ name
unfolding after_slash
after_slash-IsPlain [] name h = refl
after_slash-IsPlain (c ∷ l) name h = ground (arith, h.0, after_slash-IsPlain l name h.1)

-- What stands behind the last slash.
pub after_slash-join :
    (dir name other : Str) → IsPlain name → after_slash (join dir name) other ≡ name
unfolding after_slash
after_slash-join [] name other h = after_slash-IsPlain name name h
after_slash-join (c ∷ dir) name other h =
    ground (arith, after_slash-join dir name (join dir name) h, after_slash-join dir name other h)

module _ (memory : Str → Str) where
  offer-handle_res :
      (cur path : Str) (agreed : Bool) (b : App)
      → handle_res memory agreed (offer memory cur path) b
        ≡ share_file_resend memory agreed (offer memory cur path) b
  unfolding handle_res mk_pdu
  offer-handle_res cur path agreed b = refl

  room_for :
      (path : Str)
      → length path < 2 ^ 31
      → put_at 0 (path ++ (0 ∷ [])) (zeros ((76 + (length path + 1)) % 2 ^ 32 - 76))
        ≡ path ++ (0 ∷ [])
  room_for path h =
      let n : (76 + (length path + 1)) % 2 ^ 32 - 76 ≡ length path + 1 = omega arith in
      let size = length-append path (0 ∷ []) in
      let zs = length-zeros (length path + 1) in
      ap (λ k. put_at 0 (path ++ (0 ∷ [])) (zeros k)) n
      ∙ put_at-zero (path ++ (0 ∷ [])) (zeros (length path + 1)) (omega (arith, size, zs))
      ∙ ap (λ x. (path ++ (0 ∷ [])) ++ x)
          (drop_all (length (path ++ (0 ∷ []))) (zeros (length path + 1)) (omega (arith, size, zs)))
      ∙ append-nil (path ++ (0 ∷ []))

  answer_lem :
      (login path : Str)
      → IsReadable memory
      → length path < 2 ^ 31
      → put_msg 0 (take (length path + 1) (path ++ (0 ∷ []))) (
          put_data 0
            (field memory login)
            (mk_pdu (number share_file_agree_request) (length path + 1)))
        ≡ accept memory login path
  unfolding mk_pdu
  answer_lem login path r h =
      ap
        (λ m. put_msg 0 m (
          put_data 0 (field memory login)
            (mk_pdu (number share_file_agree_request) (length path + 1))))
        (take_whole (path ++ (0 ∷ [])) (length path + 1)
          (omega (arith, length-append path (0 ∷ []))))
      ∙ (λ i. record (accept memory login path) {
        ca_data = front_field memory login r i;
        ca_msg = room_for path h i;
      })

  -- The friend's client sends the path back, with the friend's name.
  pub resend-accept :
      (cur path : Str) (b : App)
      → IsReadable memory
      → IsName cur
      → IsText path
      → length path < 2 ^ 31
      → handle_res memory true (offer memory cur path) b
        ≡ some (send_msg (accept memory b.login_name path) (get_index memory b))
  unfolding share_file_resend mk_pdu
  resend-accept cur path b r c t h =
      let room : leb (length path + 1) (length (path ++ (0 ∷ []))) ≡ true =
        ground (arith, length-append path (0 ∷ [])) in
      offer-handle_res cur path true b
      ∙ rw (cstr-append path [] t, cstr-front_field memory cur c, ◌>>=◌)
          (rw room
            (ap (λ q. some (send_msg q (get_index memory b))) (answer_lem b.login_name path r h)))
