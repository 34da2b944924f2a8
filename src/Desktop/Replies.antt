-- ===== src/Desktop/Replies.antt =====
-- Client/reshandler.cpp, and the receive loop and the dispatch of Client/client.cpp: what the client
-- does with each PDU. `agrees` is the user's answer to the question that a PDU puts.
use youdge.Base.{
  ℕ, zero, suc, ◌/◌, Bool, true, false, not, List, [], ◌∷◌, ◌++◌, Option, none, some, Str, str_dec,
  ite, take, drop, length, leb, ◌==◌, if◌then◌else◌, ◌>>=◌,
}
use youdge.Base.Int.{ℤ, pos, negsuc}
use youdge.Pdu.{Pdu, mk_pdu, u32}
use youdge.Socket.{Socket, to_int, recv_msg}
use youdge.Handlers.{cstr, name_at, equal_ℤ}
use youdge.Handlers.Files.{sizeof_file_info}
use youdge.Handlers.Types.{
  is_type, number, regist_respond, login_respond, find_user_respond, online_user_respond,
  add_friend_request, add_friend_respond, add_friend_agree_request, add_friend_agree_respond,
  flush_friend_respond, del_friend_respond, chat_request, mkdir_respond, flush_file_respond,
  del_dir_respond, rename_file_respond, mv_file_respond, share_file_request, share_file_respond,
  share_file_agree_request, share_file_agree_respond, upload_file_init_respond,
  upload_file_data_respond,
}
use youdge.Desktop.{
  App, FileInfo, Notice, regist_done, regist_failed, login_failed, found_myself, find_failed,
  user_offline, user_missing, add_friend_error, add_friend_offline, add_friend_already,
  add_friend_done, add_friend_failed, del_friend_failed, mkdir_failed, del_dir_failed,
  rename_failed, mv_failed, share_sent, share_done, share_failed, upload_init_failed, upload_done,
  put_data, put_msg, field, send_msg, notify, get_index, index_notice, flush_friend_page,
  flush_file_page,
}
use youdge.Desktop.Friends.{two_names}
use youdge.Desktop.Browser.{update_file_list}

-- The `bool` at the front of the parameters.
unfoldable pub bool_at : Pdu → Bool
bool_at p = elim p.ca_data [ [] ↦ false | b ∷ rest ↦ not (b == 0) ]

-- An `int` in the parameters.
unfoldable pub int_at : ℕ → Pdu → ℤ
int_at n p = to_int (u32 (drop n p.ca_data))

-- A field of 32 bytes in the message, read as a string.
unfoldable pub name_front : Str → Option Str
name_front bytes = if leb 32 (length bytes) then cstr (take 32 bytes) else none

unfoldable pub read_names : ℕ → Str → Option (List Str)
read_names zero bytes = some []
read_names (suc n) bytes = do
  name ← name_front bytes
  names ← read_names n (drop 32 bytes)
  some (name ∷ names)

-- The loop of `onlineUser`, which leaves the user's own name out.
unfoldable pub without : Str → List Str → List Str
without login_name [] = []
without login_name (name ∷ names) =
    ite (str_dec name login_name) (without login_name names) (name ∷ without login_name names)

unfoldable pub read_infos : ℕ → Str → Option (List FileInfo)
read_infos zero bytes = some []
read_infos (suc n) bytes = do
  infos ← read_infos n (drop sizeof_file_info bytes)
  let info : FileInfo = record { ca_name = take 32 bytes; file_type = u32 (drop 32 bytes) }
  (if leb sizeof_file_info (length bytes) then some (info ∷ infos) else none)

module _ (behind : Str → Str) where
  -- The list of files is asked for again, or a message box tells of the failure.
  unfoldable pub flush_or : Notice → Pdu → App → App
  flush_or notice p a =
      if bool_at p
      then flush_file_page behind (get_index behind a)
      else index_notice behind notice a

  unfoldable pub regist_res : Pdu → App → App
  regist_res p a = if bool_at p then notify regist_done a else notify regist_failed a

  unfoldable pub login_res : Pdu → App → App
  login_res p a =
      if bool_at p
      then record (get_index behind a) { index_shown = true }
      else notify login_failed a

  -- The user is online; `agreed` is the button for adding a friend.
  unfoldable pub found : Bool → Str → App → App
  found false name a = a
  found true name a = send_msg (two_names behind (number add_friend_request) a.login_name name) a

  unfoldable pub find_user_res : Bool → Pdu → App → Option App
  find_user_res agreed p a = do
    name ← name_at 0 p
    let b = get_index behind a
    let ret = int_at 32 p
    let other =
        if equal_ℤ ret (negsuc 0)
        then notify find_failed b
        else if equal_ℤ ret (pos 0)
        then notify (user_offline name) b
        else if equal_ℤ ret (pos 1)
        then found agreed name b
        else if equal_ℤ ret (pos 2)
        then notify (user_missing name) b
        else a
    some (ite (str_dec a.login_name name) (notify found_myself b) other)

  unfoldable pub online_user_res : Pdu → App → Option App
  online_user_res p a = do
    names ← read_names (p.msg_len / 32) p.ca_msg
    some (record (get_index behind a) { online_users = without a.login_name names })

  unfoldable pub add_friend_res : Pdu → App → App
  add_friend_res p a =
      let ret = int_at 0 p in
      if equal_ℤ ret (negsuc 0)
      then index_notice behind add_friend_error a
      else if equal_ℤ ret (pos 0)
      then index_notice behind add_friend_offline a
      else if equal_ℤ ret (negsuc 1)
      then index_notice behind add_friend_already a
      else a

  unfoldable pub mkdir_res : Pdu → App → App
  mkdir_res p a = flush_or mkdir_failed p a

  unfoldable pub del_dir_res : Pdu → App → App
  del_dir_res p a = flush_or del_dir_failed p a

  unfoldable pub rename_file_res : Pdu → App → App
  rename_file_res p a = flush_or rename_failed p a

  unfoldable pub mv_file_res : Pdu → App → App
  mv_file_res p a = flush_or mv_failed p a

  unfoldable pub share_file_res : App → App
  share_file_res a = index_notice behind share_sent a

  -- Both names go back to the server.
  unfoldable pub add_friend_resend : Bool → Pdu → App → Option App
  add_friend_resend agreed p a = do
    name ← name_at 0 p
    let b = get_index behind a
    let respdu = put_data 0 (take 64 p.ca_data) (mk_pdu (number add_friend_agree_request) 0)
    some (if agreed then send_msg respdu b else b)

  unfoldable pub add_friend_agree_res : Pdu → App → App
  add_friend_agree_res p a =
      if bool_at p
      then flush_friend_page behind (index_notice behind add_friend_done a)
      else index_notice behind add_friend_failed a

  unfoldable pub flush_friend_res : Pdu → App → Option App
  flush_friend_res p a = do
    names ← read_names (p.msg_len / 32) p.ca_msg
    some (record (get_index behind a) { friends = names })

  unfoldable pub del_friend_res : Pdu → App → App
  del_friend_res p a =
      let b = get_index behind a in
      flush_friend_page behind (if bool_at p then b else notify del_friend_failed b)

  unfoldable pub chat_res : Pdu → App → Option App
  chat_res p a = do
    name ← name_at 0 p
    text ← cstr p.ca_msg
    let b = get_index behind a
    some (record b {
      chat_shown = true;
      show_te = b.show_te ++ ((name ++ (b':' ∷ b' ' ∷ text)) ∷ []);
      chat_title = name;
      chat_name = name;
    })

  -- The division is of unsigned numbers.
  unfoldable pub flush_file_res : Pdu → App → Option App
  flush_file_res p a = do
    infos ← read_infos (p.msg_len / sizeof_file_info) p.ca_msg
    update_file_list infos (get_index behind a)

  -- The question names the sender and the file, and the path goes back to the server.
  unfoldable pub share_file_resend : Bool → Pdu → App → Option App
  share_file_resend agreed p a = do
    path ← cstr p.ca_msg
    sender ← cstr p.ca_data
    let b = get_index behind a
    let q = mk_pdu (number share_file_agree_request) p.msg_len
    let answer = put_msg 0 (take q.msg_len p.ca_msg) (put_data 0 (field behind a.login_name) q)
    let sent : Option App =
        if leb p.msg_len (length p.ca_msg) then some (send_msg answer b) else none
    (if agreed then sent else some b)

  unfoldable pub share_file_agree_res : Pdu → App → App
  share_file_agree_res p a =
      if bool_at p
      then flush_file_page behind (index_notice behind share_done a)
      else index_notice behind share_failed a

  -- `Client::startUpload`
  unfoldable pub start_upload : App → App
  start_upload a =
      let b = get_index behind a in record b { uploads = b.uploads ++ (b.upload_file_path ∷ []) }

  unfoldable pub upload_file_init_res : Pdu → App → App
  upload_file_init_res p a =
      if bool_at p then start_upload a else index_notice behind upload_init_failed a

  -- The box for the failure has the text of a failed initialisation.
  unfoldable pub upload_file_data_res : Pdu → App → App
  upload_file_data_res p a =
      flush_file_page behind
        (index_notice behind (if bool_at p then upload_done else upload_init_failed) a)

  -- `Client::handlePDU`
  unfoldable pub handle_res : Bool → Pdu → App → Option App
  handle_res agreed p a =
      if is_type p regist_respond
      then some (regist_res p a)
      else if is_type p login_respond
      then some (login_res p a)
      else if is_type p find_user_respond
      then find_user_res agreed p a
      else if is_type p online_user_respond
      then online_user_res p a
      else if is_type p add_friend_respond
      then some (add_friend_res p a)
      else if is_type p add_friend_request
      then add_friend_resend agreed p a
      else if is_type p add_friend_agree_respond
      then some (add_friend_agree_res p a)
      else if is_type p flush_friend_respond
      then flush_friend_res p a
      else if is_type p del_friend_respond
      then some (del_friend_res p a)
      else if is_type p chat_request
      then chat_res p a
      else if is_type p mkdir_respond
      then some (mkdir_res p a)
      else if is_type p flush_file_respond
      then flush_file_res p a
      else if is_type p del_dir_respond
      then some (del_dir_res p a)
      else if is_type p rename_file_respond
      then some (rename_file_res p a)
      else if is_type p mv_file_respond
      then some (mv_file_res p a)
      else if is_type p share_file_respond
      then some (share_file_res a)
      else if is_type p share_file_request
      then share_file_resend agreed p a
      else if is_type p share_file_agree_respond
      then some (share_file_agree_res p a)
      else if is_type p upload_file_init_respond
      then some (upload_file_init_res p a)
      else if is_type p upload_file_data_respond
      then some (upload_file_data_res p a)
      else some a

  module _ (agrees : App → Pdu → Bool) where
    -- The handler in the receive loop, after which an undefined step leaves nothing defined.
    unfoldable pub handle_in_loop : Option App → Pdu → Option App × Option Pdu
    handle_in_loop none p = (none, none)
    handle_in_loop (some a) p = (handle_res (agrees a p) p a, none)

    -- `Client::recvMsg`, whose loop is the server's.
    abbrev pub client_recv_msg : ℕ → Socket (Option App) → Str → Option (Socket (Option App))
    client_recv_msg = recv_msg handle_in_loop
