-- ===== src/Desktop/Friends.antt =====
-- The requests of Client/client.cpp, Client/friend.cpp, Client/chat.cpp and Client/onlineuser.cpp:
-- what a click sends. The arguments are the texts of the inputs, the item that is selected, and
-- the answer to a question.
use youdge.Base.{
  ℕ, Bool, true, false, ◌||◌, Option, none, some, Str, length, is_empty, ltb, if◌then◌else◌,
}
use youdge.Pdu.{Pdu, mk_pdu}
use youdge.Handlers.Types.{
  number, regist_request, login_request, find_user_request, online_user_request, add_friend_request,
  del_friend_request, chat_request,
}
use youdge.Desktop.{
  App, name_or_pwd_illegal, find_name_illegal, put_data, field, with_text, send_msg, notify,
  flush_friend_page,
}

module _ (behind : Str → Str) where
  -- A PDU with two names in its parameters.
  unfoldable pub two_names : ℕ → Str → Str → Pdu
  two_names type first second =
      put_data 32 (field behind second) (put_data 0 (field behind first) (mk_pdu type 0))

  unfoldable pub on_regist : Str → Str → App → App
  on_regist name pwd a =
      if ltb 32 (length name) || ltb 32 (length pwd) || is_empty name || is_empty pwd
      then notify name_or_pwd_illegal a
      else send_msg (two_names (number regist_request) name pwd) a

  unfoldable pub on_login : Str → Str → App → App
  on_login name pwd a =
      send_msg (two_names (number login_request) name pwd) (record a { login_name = name })

  unfoldable pub on_find_user : Str → App → App
  on_find_user name a =
      if is_empty name
      then a
      else if ltb 32 (length name)
      then notify find_name_illegal a
      else send_msg (put_data 0 (field behind name) (mk_pdu (number find_user_request) 0)) a

  unfoldable pub on_online_user : App → App
  on_online_user a =
      send_msg (mk_pdu (number online_user_request) 0) (record a { online_shown = true })

  unfoldable pub on_flush_friend : App → App
  on_flush_friend a = flush_friend_page behind a

  unfoldable pub on_del : Option Str → Bool → App → App
  on_del none agreed a = a
  on_del (some name) false a = a
  on_del (some name) true a = send_msg (two_names (number del_friend_request) a.login_name name) a

  -- The window's title changes only where the window was hidden.
  unfoldable pub on_chat : Option Str → App → App
  on_chat none a = a
  on_chat (some name) a = record a {
    chat_name = name;
    chat_title = if a.chat_shown then a.chat_title else name;
    chat_shown = true;
  }

  unfoldable pub chat_pdu : Str → Str → Str → Pdu
  chat_pdu cur tar text =
      put_data 32 (field behind tar) (put_data 0 (field behind cur) (with_text chat_request text))

  unfoldable pub on_send : Str → App → App
  on_send text a = if is_empty text then a else send_msg (chat_pdu a.login_name a.chat_name text) a

  -- The double click in the list of users that are online.
  unfoldable pub on_online_item : Str → App → App
  on_online_item name a = send_msg (two_names (number add_friend_request) a.login_name name) a
