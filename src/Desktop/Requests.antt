-- ===== src/Desktop/Requests.antt =====
-- The PDUs that the client builds are frames: their lengths are those of their data.
use youdge.Base.{
  ℕ, zero, suc, ◌+◌, ◌*◌, ◌^◌, ◌<◌, ◌≤◌, ◌≡◌, refl, sym, ap, ◌∙◌, List, [], ◌∷◌, Str, length, take,
  drop, length-append, arith,
}
use youdge.Pdu.{Pdu, mk_pdu, le32, IsFrame}
use youdge.Pdu.Wire.{mk_pdu-IsFrame}
use youdge.Handlers.{overwrite}
use youdge.Handlers.Types.{
  MsgType, number, chat_request, rename_file_request, upload_file_init_request, mv_file_request,
  share_file_request,
}
use youdge.Desktop.{put_at, put_data, put_msg, field, with_text}
use youdge.Desktop.Friends.{two_names, chat_pdu}
use youdge.Desktop.Browser.{rename_pdu, mv_pdu, init_pdu, int_field, le64}
use youdge.Desktop.Fields.{IsReadable, length-field, length-drop}
use youdge.Desktop.Moving.{IsStack, length-int_field}
use youdge.Desktop.Sharing.{put_names, share_pdu}

length-overwrite :
    (bytes old : Str) → length bytes ≤ length old → length (overwrite bytes old) ≡ length old
unfolding overwrite
length-overwrite [] old h = refl
length-overwrite (b ∷ bytes) [] h = absurd (omega arith)
length-overwrite (b ∷ bytes) (o ∷ old) h = ap suc (length-overwrite bytes old (omega arith))

take-drop : (n : ℕ) (l : Str) → length (take n l) + length (drop n l) ≡ length l
take-drop zero l = omega arith
take-drop (suc n) [] = omega arith
take-drop (suc n) (x ∷ l) = omega (arith, take-drop n l)

-- A write inside an array keeps its length.
length-put_at :
    (n : ℕ) (bytes l : Str) → n + length bytes ≤ length l → length (put_at n bytes l) ≡ length l
unfolding put_at
length-put_at n bytes l h = omega (
  arith,
  h,
  length-append (take n l) (overwrite bytes (drop n l)),
  length-overwrite bytes (drop n l) (omega (arith, h, length-drop n l)),
  take-drop n l,
)

put_data-IsFrame :
    (n : ℕ) (bytes : Str) (p : Pdu)
    → n + length bytes ≤ 64
    → IsFrame p
    → IsFrame (put_data n bytes p)
put_data-IsFrame n bytes p h f = record {
  params = length-put_at n bytes p.ca_data (omega (arith, h, f.params)) ∙ f.params;
  total = f.total;
  message = f.message;
  small = f.small;
  typed = f.typed;
}

put_msg-IsFrame :
    (n : ℕ) (bytes : Str) (p : Pdu)
    → n + length bytes ≤ p.msg_len
    → IsFrame p
    → IsFrame (put_msg n bytes p)
put_msg-IsFrame n bytes p h f =
    let same = length-put_at n bytes p.ca_msg (omega (arith, h, f.message)) in
    record {
      params = f.params;
      total = f.total ∙ ap (λ k. 76 + k) (sym same);
      message = f.message ∙ sym same;
      small = f.small;
      typed = f.typed;
    }

number_small : (type : MsgType) → number type < 2 ^ 32
number_small type = ground arith

pub mk-IsFrame : (type : MsgType) (len : ℕ) → len + 76 < 2 ^ 31 → IsFrame (mk_pdu (number type) len)
mk-IsFrame type len h = mk_pdu-IsFrame (number type) len (number_small type) h

-- The room of a new PDU's message.
mk-msg_len :
    (type : MsgType) (len : ℕ) → len + 76 < 2 ^ 31 → (mk_pdu (number type) len).msg_len ≡ len
unfolding mk_pdu
mk-msg_len type len h = omega (arith, h)

pub with_text-IsFrame :
    (type : MsgType) (text : Str) → length text < 2 ^ 30 → IsFrame (with_text type text)
unfolding with_text
with_text-IsFrame type text h =
    put_msg-IsFrame 0 text (mk_pdu (number type) (length text + 1))
      (omega (arith, mk-msg_len type (length text + 1) (omega arith)))
      (mk-IsFrame type (length text + 1) (omega arith))

length-le64 : (n : ℕ) → length (le64 n) ≡ 8
unfolding le32
length-le64 n = refl

module _ (memory : Str → Str) (stack : ℕ → Str) (readable : IsReadable memory)
    (stacked : IsStack stack) where
  -- A name's field in the first or the second half of the parameters.
  first_field-IsFrame :
      (name : Str) (p : Pdu) → IsFrame p → IsFrame (put_data 0 (field memory name) p)
  first_field-IsFrame name p f =
      put_data-IsFrame 0 (field memory name) p (omega (arith, length-field memory name readable)) f

  second_field-IsFrame :
      (name : Str) (p : Pdu) → IsFrame p → IsFrame (put_data 32 (field memory name) p)
  second_field-IsFrame name p f =
      put_data-IsFrame 32 (field memory name) p (omega (arith, length-field memory name readable)) f

  pub one_name-IsFrame :
      (type : MsgType) (name : Str)
      → IsFrame (put_data 0 (field memory name) (mk_pdu (number type) 0))
  one_name-IsFrame type name =
      first_field-IsFrame name (mk_pdu (number type) 0) (mk-IsFrame type 0 (omega arith))

  pub two_names-IsFrame :
      (type : MsgType) (first second : Str) → IsFrame (two_names memory (number type) first second)
  unfolding two_names
  two_names-IsFrame type first second = second_field-IsFrame second _ (one_name-IsFrame type first)

  pub text_name-IsFrame :
      (type : MsgType) (name text : Str)
      → length text < 2 ^ 30
      → IsFrame (put_data 0 (field memory name) (with_text type text))
  text_name-IsFrame type name text h =
      first_field-IsFrame name (with_text type text) (with_text-IsFrame type text h)

  pub chat_pdu-IsFrame :
      (cur tar text : Str) → length text < 2 ^ 30 → IsFrame (chat_pdu memory cur tar text)
  unfolding chat_pdu
  chat_pdu-IsFrame cur tar text h =
      second_field-IsFrame tar _ (text_name-IsFrame chat_request cur text h)

  pub rename_pdu-IsFrame :
      (old new dir : Str) → length dir < 2 ^ 30 → IsFrame (rename_pdu memory stack old new dir)
  unfolding rename_pdu
  rename_pdu-IsFrame old new dir h =
      second_field-IsFrame new _ (text_name-IsFrame rename_file_request old dir h)

  pub init_pdu-IsFrame :
      (name : Str) (size : ℕ) (dir : Str)
      → length dir < 2 ^ 30
      → IsFrame (init_pdu memory stack name size dir)
  unfolding init_pdu
  init_pdu-IsFrame name size dir h =
      put_data-IsFrame 32 (le64 size) _ (omega (arith, length-le64 size))
        (text_name-IsFrame upload_file_init_request name dir h)

  -- The two lengths or counts in the parameters.
  first_int-IsFrame :
      (n : ℕ) (p : Pdu) → IsFrame p → IsFrame (put_data 0 (int_field memory stack n) p)
  first_int-IsFrame n p f =
      put_data-IsFrame 0 _ p (omega (arith, length-int_field memory stack n stacked)) f

  second_int-IsFrame :
      (n : ℕ) (p : Pdu) → IsFrame p → IsFrame (put_data 32 (int_field memory stack n) p)
  second_int-IsFrame n p f =
      put_data-IsFrame 32 _ p (omega (arith, length-int_field memory stack n stacked)) f

  pub mv_pdu-IsFrame :
      (src tar : Str) → length src + length tar < 2 ^ 30 → IsFrame (mv_pdu memory stack src tar)
  unfolding mv_pdu
  mv_pdu-IsFrame src tar h =
      let room = mk-msg_len mv_file_request (length src + length tar + 1) (omega arith) in
      put_msg-IsFrame (length src) tar _ (omega (arith, room)) (
        put_msg-IsFrame 0 src _ (omega (arith, room)) (
          second_int-IsFrame (length tar) _ (
            first_int-IsFrame (length src) _
              (mk-IsFrame mv_file_request (length src + length tar + 1) (omega arith)))))

  put_names-msg_len :
      (i : ℕ) (names : List Str) (p : Pdu) → (put_names memory stack i names p).msg_len ≡ p.msg_len
  unfolding put_names
  put_names-msg_len i [] p = refl
  put_names-msg_len i (name ∷ names) p = put_names-msg_len (suc i) names _

  put_names-IsFrame :
      (i : ℕ) (names : List Str) (p : Pdu)
      → i * 32 + length names * 32 ≤ p.msg_len
      → IsFrame p
      → IsFrame (put_names memory stack i names p)
  unfolding put_names
  put_names-IsFrame i [] p h f = f
  put_names-IsFrame i (name ∷ names) p h f = put_names-IsFrame (suc i) names _ (omega (arith, h)) (
      put_msg-IsFrame (i * 32) (field memory name) p
        (omega (arith, h, length-field memory name readable)) f)

  pub share_pdu-IsFrame :
      (cur : Str) (names : List Str) (path : Str)
      → length names * 32 + length path < 2 ^ 30
      → IsFrame (share_pdu memory stack cur names path)
  unfolding share_pdu
  share_pdu-IsFrame cur names path h =
      let size : ℕ = length names * 32 + length path + 1 in
      let room = mk-msg_len share_file_request size (omega arith) in
      let base =
        second_int-IsFrame (length names) _
          (first_field-IsFrame cur _ (mk-IsFrame share_file_request size (omega arith))) in
      put_msg-IsFrame (length names * 32) path _ (omega (arith, room, put_names-msg_len 0 names _))
        (put_names-IsFrame 0 names _ (omega (arith, room)) base)
