-- ===== src/Desktop/Session.antt =====
-- Requests of the client's pages that the server answers: both ends of a login, a registration, a
-- chat message, an upload's start and a renaming.
use youdge.Base.{
  ℕ, ◌^◌, ◌<◌, ◌≤◌, ◌≡◌, refl, ap, ◌∙◌, Bool, true, false, List, [], ◌∷◌, ◌++◌, none, some, Str,
  length, take, arith, if◌then◌else◌, ◌>>=◌,
}
use youdge.Pdu.{Pdu, mk_pdu, zeros, encode}
use youdge.Pdu.Wire.{length-zeros, take-append}
use youdge.Users.{Engine, handle_login}
use youdge.Handlers.{
  State, Sock, Disk, cstr, name_at, respond, bool_byte, login, regist, chat, resend, overwrite,
  set_login,
}
use youdge.Handlers.Types.{
  MsgType, number, regist_request, login_request, login_respond, chat_request,
}
use youdge.Handlers.Files.{handle_pdu}
use youdge.Desktop.{App, field, send_msg, notify, login_failed, get_index, with_text}
use youdge.Desktop.Fields.{
  IsText, IsName, IsReadable, two_fields, length-field, cstr-append, name_at-first, name_at-second,
  with_text-ca_msg,
}
use youdge.Desktop.Friends.{two_names, on_regist, chat_pdu}
use youdge.Desktop.Requests.{chat_pdu-IsFrame}
use youdge.Desktop.Delivered.{Delivered, resend-Delivered}
use youdge.Desktop.Replies.{bool_at, handle_res, login_res, chat_res}

-- The parameters of a PDU with two names.
pub two_names-ca_data :
    (behind : Str → Str) (type : ℕ) (first second : Str)
    → IsReadable behind
    → (two_names behind type first second).ca_data ≡ field behind first ++ field behind second
unfolding two_names mk_pdu
two_names-ca_data behind type first second r =
    two_fields (field behind first) (field behind second) (zeros 64) (length-field behind first r)
      (length-field behind second r) (length-zeros 64)

pub bool_at-respond : (type : MsgType) (b : Bool) → bool_at (respond type (bool_byte b)) ≡ b
unfolding bool_at respond overwrite mk_pdu
bool_at-respond type true = refl
bool_at-respond type false = refl

cstr-text : (name : Str) → IsText name → cstr name ≡ none
unfolding cstr
cstr-text [] h = refl
cstr-text (c ∷ name) h = ground (arith, h.0, cstr-text name h.1)

module _ {W : Type 0} (exec : Engine W) (disk : Disk W) (root_path : Str) (behind : Str → Str)
    (memory : Str → Str) where
  login_pdu-handle_pdu :
      (name pwd : Str) (depth : ℕ) (s : State W)
      → handle_pdu exec disk root_path behind depth s
          (two_names memory (number login_request) name pwd)
        ≡ login exec disk root_path behind s (two_names memory (number login_request) name pwd)
  unfolding handle_pdu two_names mk_pdu
  login_pdu-handle_pdu name pwd depth s = refl

  login_respond-handle_res :
      (agreed ok : Bool) (a : App)
      → handle_res memory agreed (respond login_respond (bool_byte ok)) a
        ≡ some (login_res memory (respond login_respond (bool_byte ok)) a)
  unfolding handle_res respond mk_pdu
  login_respond-handle_res agreed ok a = refl

  -- For a name and a password of fewer than 32 bytes each, without a zero byte, and readable memory
  -- behind them: the client's login request makes the server ask the database for just this name
  -- and password, and the reply opens the window of Index if the database accepts, and a box if
  -- not.
  pub login-handle_res :
      (name pwd : Str) (depth : ℕ) (s : State W) (agreed : Bool) (a : App)
      → IsReadable memory
      → IsName name
      → IsName pwd
      → (s' : State W) × (r : Pdu) × (handle_pdu exec disk root_path behind depth s
            (two_names memory (number login_request) name pwd)
          ≡ some (s', some r))
        × (s'.world ≡ (handle_login exec s.world name pwd).0)
        × (handle_res memory agreed r a
            ≡ some (
                if (handle_login exec s.world name pwd).1
                then record (get_index memory a) { index_shown = true }
                else notify login_failed a))
  unfolding login login_res
  login-handle_res name pwd depth s agreed a r n p =
      let q = two_names memory (number login_request) name pwd in
      let params = two_names-ca_data memory (number login_request) name pwd r in
      let ok = (handle_login exec s.world name pwd).1 in
      let first : name_at 0 q ≡ some name = name_at-first memory name _ q r n params in
      let second : name_at 32 q ≡ some pwd =
        name_at-second memory pwd _ q r p (length-field memory name r) params in
      (
        record s {
          world = (handle_login exec s.world name pwd).0;
          sockets = if ok then set_login s.self name s.sockets else s.sockets;
        },
        respond login_respond (bool_byte ok),
        login_pdu-handle_pdu name pwd depth s ∙ rw (first, second, ◌>>=◌) refl,
        refl,
        login_respond-handle_res agreed ok a
            ∙ ap
                (λ b. some (
                  if b
                  then record (get_index memory a) { index_shown = true }
                  else notify login_failed a))
                (bool_at-respond login_respond ok),
      )

  chat_pdu-ca_data :
      (cur tar text : Str)
      → IsReadable memory
      → (chat_pdu memory cur tar text).ca_data ≡ field memory cur ++ field memory tar
  unfolding chat_pdu with_text mk_pdu
  chat_pdu-ca_data cur tar text r =
      two_fields (field memory cur) (field memory tar) (zeros 64) (length-field memory cur r)
        (length-field memory tar r) (length-zeros 64)

  chat_pdu-ca_msg :
      (cur tar text : Str)
      → length text < 2 ^ 31
      → (chat_pdu memory cur tar text).ca_msg ≡ text ++ (0 ∷ [])
  unfolding chat_pdu
  chat_pdu-ca_msg cur tar text h = with_text-ca_msg chat_request text h

  chat_pdu-handle_pdu :
      (cur tar text : Str) (depth : ℕ) (s : State W)
      → handle_pdu exec disk root_path behind depth s (chat_pdu memory cur tar text)
        ≡ chat exec disk root_path behind s (chat_pdu memory cur tar text)
  unfolding handle_pdu chat_pdu with_text mk_pdu
  chat_pdu-handle_pdu cur tar text depth s = refl

  chat_pdu-handle_res :
      (cur tar text : Str) (agreed : Bool) (a : App)
      → handle_res memory agreed (chat_pdu memory cur tar text) a
        ≡ chat_res memory (chat_pdu memory cur tar text) a
  unfolding handle_res chat_pdu with_text mk_pdu
  chat_pdu-handle_res cur tar text agreed a = refl

  -- For two names of fewer than 32 bytes without a zero byte, readable memory behind them, and a
  -- text of fewer than 2 ^ 30 bytes without a zero byte: the server writes all bytes of the chat
  -- message, as they are, to each socket with the receiver's name and nothing to any other one, and
  -- a client that gets the message shows the sender's name and the text.
  pub chat-handle_res :
      (cur tar text : Str) (depth : ℕ) (s : State W) (agreed : Bool) (a : App)
      → IsReadable memory
      → IsName cur
      → IsName tar
      → IsText text
      → length text < 2 ^ 30
      → ((sockets' : List Sock) × (handle_pdu exec disk root_path behind depth s
              (chat_pdu memory cur tar text)
            ≡ some (record s { sockets = sockets' }, none))
          × Delivered tar (encode (chat_pdu memory cur tar text)) s.sockets sockets')
        × (handle_res memory agreed (chat_pdu memory cur tar text) a
            ≡ some (record (get_index memory a) {
              chat_shown = true;
              show_te = (get_index memory a).show_te ++ ((cur ++ (b':' ∷ b' ' ∷ text)) ∷ []);
              chat_title = cur;
              chat_name = cur;
            }))
  unfolding chat chat_res
  chat-handle_res cur tar text depth s agreed a r c t h small =
      let p = chat_pdu memory cur tar text in
      let params = chat_pdu-ca_data cur tar text r in
      let to : name_at 32 p ≡ some tar =
        name_at-second memory tar _ p r t (length-field memory cur r) params in
      let from : name_at 0 p ≡ some cur = name_at-first memory cur _ p r c params in
      let body : cstr p.ca_msg ≡ some text =
        ap cstr (chat_pdu-ca_msg cur tar text (omega arith)) ∙ cstr-append text [] h in
      let whole = chat_pdu-IsFrame memory (λ n. zeros 28) r (λ n. omega arith) cur tar text small in
      (
        (
          resend tar p s.sockets,
          chat_pdu-handle_pdu cur tar text depth s ∙ rw (to, ◌>>=◌) refl,
          resend-Delivered tar p whole s.sockets,
        ),
        chat_pdu-handle_res cur tar text agreed a ∙ rw (from, body, ◌>>=◌) refl,
      )

  regist_pdu-handle_pdu :
      (name pwd : Str) (depth : ℕ) (s : State W)
      → handle_pdu exec disk root_path behind depth s
          (two_names memory (number regist_request) name pwd)
        ≡ regist exec disk root_path behind s (two_names memory (number regist_request) name pwd)
  unfolding handle_pdu two_names mk_pdu
  regist_pdu-handle_pdu name pwd depth s = refl

  -- The client accepts a name of 32 bytes for a registration, and sends it without a zero byte;
  -- the server then reads behind its array.
  pub regist-unterminated :
      (name pwd : Str) (depth : ℕ) (s : State W) (a : App)
      → IsReadable memory
      → IsText name
      → length name ≡ 32
      → 0 < length pwd
      → length pwd ≤ 32
      → (on_regist memory name pwd a
          ≡ send_msg (two_names memory (number regist_request) name pwd) a)
        × (handle_pdu exec disk root_path behind depth s
              (two_names memory (number regist_request) name pwd)
            ≡ none)
  unfolding on_regist regist field
  regist-unterminated name pwd depth s a r h n p q =
      let params = two_names-ca_data memory (number regist_request) name pwd r in
      let open_end : name_at 0 (two_names memory (number regist_request) name pwd) ≡ none =
        ap (λ d. cstr (take 32 d)) params
        ∙ ap cstr
            (take-append 32 (field memory name) (field memory pwd) (length-field memory name r))
        ∙ ap cstr (take-append 32 name (0 ∷ memory name) n)
        ∙ cstr-text name h in
      (ground (arith, n, p, q), regist_pdu-handle_pdu name pwd depth s ∙ rw (open_end, ◌>>=◌) refl)
