-- ===== src/Desktop/Stream.antt =====
-- Whatever the user clicks, what the client has written to its socket is a stream of whole PDUs.
use mathlib.Core.List.{append_assoc, append-nil}
use youdge.Base.{
  ℕ, ◌^◌, ◌<◌, ◌≡◌, refl, sym, ap, ◌∙◌, Bool, true, false, List, [], ◌∷◌, ◌++◌, Option, none, some,
  Str, length, take, str_dec, if_pos, if_neg, ◌==◌, arith, if◌then◌else◌, ◌>>=◌,
}
use youdge.Pdu.{Pdu, encode, IsFrame}
use youdge.Pdu.Wire.{length-encode, take-append}
use youdge.Socket.Framing.{AllFrames, encode_all}
use youdge.Desktop.{App, FileInfo, send_msg}
use youdge.Desktop.Browser.{is_listed_file}
use youdge.Handlers.{cstr}

-- Bytes that are whole frames, one behind the other.
abbrev pub IsStream : Str → Type 0
IsStream s = (ps : List Pdu) × AllFrames ps × (s ≡ encode_all ps)

encode_all-append :
    (ps : List Pdu) (p : Pdu) → encode_all (ps ++ (p ∷ [])) ≡ encode_all ps ++ encode p
unfolding encode_all
encode_all-append [] p = append-nil (encode p)
encode_all-append (q ∷ ps) p =
    ap (λ x. encode q ++ x) (encode_all-append ps p)
    ∙ sym (append_assoc (encode q) (encode_all ps) (encode p))

AllFrames-snoc : (ps : List Pdu) (p : Pdu) → AllFrames ps → IsFrame p → AllFrames (ps ++ (p ∷ []))
AllFrames-snoc [] p h f = (f, tt)
AllFrames-snoc (q ∷ ps) p h f = (h.0, AllFrames-snoc ps p h.1 f)

-- `sendMsg` of a frame writes all of it.
pub send_msg-IsStream :
    (p : Pdu) (a : App) → IsFrame p → IsStream a.written → IsStream (send_msg p a).written
unfolding send_msg
send_msg-IsStream p a f (ps, all, e) =
    let whole : take p.pdu_len (encode p) ≡ encode p =
      ap (take p.pdu_len) (sym (append-nil (encode p)))
      ∙ take-append p.pdu_len (encode p) [] (length-encode p f.params ∙ sym f.total) in
    (
      ps ++ (p ∷ []),
      AllFrames-snoc ps p all f,
      ap (λ x. a.written ++ x) whole ∙ ap (λ x. x ++ encode p) e ∙ sym (encode_all-append ps p),
    )

pub if_IsStream :
    (b : Bool) (x y : App)
    → IsStream x.written
    → IsStream y.written
    → IsStream (if b then x else y).written
if_IsStream true x y hx hy = hx
if_IsStream false x y hx hy = hy

-- A click that is defined, after which what was written is whole frames.
abbrev pub Sends : Option App → Type 0
Sends none = ⊥
Sends (some b) = IsStream b.written

pub Sends-then :
    (o : Option Bool) (f : Bool → Option App)
    → (b : Bool) × (o ≡ some b)
    → ((b : Bool) → Sends (f b))
    → Sends (o >>= f)
Sends-then none f (b, e) h = cc
Sends-then (some b) f e h = h b

-- Listed names that end in their arrays.
abbrev pub AllReadable : List FileInfo → Type 0
AllReadable [] = Unit {0}
AllReadable (i ∷ l) = ((n : Str) × (cstr i.ca_name ≡ some n)) × AllReadable l

pub is_listed_file-defined :
    (name : Str) (l : List FileInfo) → AllReadable l → (b : Bool) × (is_listed_file name l ≡ some b)
unfolding is_listed_file
is_listed_file-defined name [] h = (false, refl)
is_listed_file-defined name (i ∷ l) ((n, e), h) =
    let (b, rest) = is_listed_file-defined name l h in by b rest (str_dec name n)
  where
    by :
        (b : Bool)
        → is_listed_file name l ≡ some b
        → (d : Dec (name ≡ n)) → (c : Bool) × (is_listed_file name (i ∷ l) ≡ some c)
    by b rest (yes q) = (
      if i.file_type == 0 then b else true,
      rw (e, rest, ◌>>=◌) (if_pos (str_dec name n) q _ _ ∙ ground arith),
    )
    by b rest (no q) = (b, rw (e, rest, ◌>>=◌) (if_neg (str_dec name n) q _ _))

-- The user's clicks, with the inputs, the selected item, and the answer to a question.
pub data Click : Type 0 where
  click_regist : Str → Str → Click
  click_login : Str → Str → Click
  click_find_user : Str → Click
  click_online_user : Click
  click_flush_friend : Click
  click_del : Option Str → Bool → Click
  click_chat : Option Str → Click
  click_send : Str → Click
  click_online_item : Str → Click
  click_mkdir : Str → Click
  click_flush_file : Click
  click_del_dir : Option Str → Bool → Click
  click_rename : Option Str → Str → Click
  click_return : Click
  click_file_item : Str → Click
  click_mv : Option Str → Bool → Click
  click_share : Option Str → Click
  click_upload : Str → ℕ → Click
  click_ok : List Str → Click

-- Texts are short of the limit of 2 ^ 28 bytes.
pub record IsShort (a : App) : Type 0 where
  pub cur : length a.cur_path < 2 ^ 28
  pub mv_name : length a.mv_file_name < 2 ^ 28
  pub mv_path : length a.mv_file_path < 2 ^ 28
  pub share : length a.share_file_path < 2 ^ 28

abbrev pub ShortItem : Option Str → Type 0
ShortItem none = Unit {0}
ShortItem (some name) = length name < 2 ^ 28

abbrev pub ShortClick : Click → Type 0
ShortClick (click_send text) = length text < 2 ^ 28
ShortClick (click_del_dir item agreed) = ShortItem item
ShortClick (click_file_item name) = length name < 2 ^ 28
ShortClick (click_mv item agreed) = ShortItem item
ShortClick (click_ok names) = length names < 2 ^ 23
ShortClick _ = Unit {0}
