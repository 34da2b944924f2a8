-- ===== src/Handlers/Types.antt =====
-- The message types of Server/protocol.h.
use youdge.Base.{ℕ, Bool, ◌==◌}
use youdge.Pdu.{Pdu}

pub data MsgType : Type 0 where
  regist_request : MsgType
  regist_respond : MsgType
  login_request : MsgType
  login_respond : MsgType
  find_user_request : MsgType
  find_user_respond : MsgType
  online_user_request : MsgType
  online_user_respond : MsgType
  add_friend_request : MsgType
  add_friend_respond : MsgType
  add_friend_agree_request : MsgType
  add_friend_agree_respond : MsgType
  flush_friend_request : MsgType
  flush_friend_respond : MsgType
  del_friend_request : MsgType
  del_friend_respond : MsgType
  chat_request : MsgType
  chat_respond : MsgType
  mkdir_request : MsgType
  mkdir_respond : MsgType
  flush_file_request : MsgType
  flush_file_respond : MsgType
  del_dir_request : MsgType
  del_dir_respond : MsgType
  rename_file_request : MsgType
  rename_file_respond : MsgType
  mv_file_request : MsgType
  mv_file_respond : MsgType
  share_file_request : MsgType
  share_file_respond : MsgType
  share_file_agree_request : MsgType
  share_file_agree_respond : MsgType
  upload_file_init_request : MsgType
  upload_file_init_respond : MsgType
  upload_file_data_request : MsgType
  upload_file_data_respond : MsgType

-- The value of the enumerator.
abbrev pub number : MsgType → ℕ
number regist_request = 1
number regist_respond = 2
number login_request = 3
number login_respond = 4
number find_user_request = 5
number find_user_respond = 6
number online_user_request = 7
number online_user_respond = 8
number add_friend_request = 9
number add_friend_respond = 10
number add_friend_agree_request = 11
number add_friend_agree_respond = 12
number flush_friend_request = 13
number flush_friend_respond = 14
number del_friend_request = 15
number del_friend_respond = 16
number chat_request = 17
number chat_respond = 18
number mkdir_request = 19
number mkdir_respond = 20
number flush_file_request = 21
number flush_file_respond = 22
number del_dir_request = 23
number del_dir_respond = 24
number rename_file_request = 25
number rename_file_respond = 26
number mv_file_request = 27
number mv_file_respond = 28
number share_file_request = 29
number share_file_respond = 30
number share_file_agree_request = 31
number share_file_agree_respond = 32
number upload_file_init_request = 33
number upload_file_init_respond = 34
number upload_file_data_request = 35
number upload_file_data_respond = 36

-- A case of the dispatch.
abbrev pub is_type : Pdu → MsgType → Bool
is_type p type = p.msg_type == number type
