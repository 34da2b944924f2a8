-- ===== src/Desktop.antt =====
-- The client of the file server (Client/): the singletons Client and Index with their pages, as one
-- state. The user's part is in the arguments: the text of an input, the selected item, the answer
-- to a question. A message box is an entry of `notices`. Texts are their bytes, and are free of
-- the place markers of `QString::arg`. As on the server, `none` is undefined behaviour: a string
-- without its zero byte, or a read behind the message. `behind` is what lies in memory behind a
-- string, which a copy of 32 bytes takes along.
pub mod Fields
pub mod Friends
pub mod Browser
pub mod Sharing
pub mod Replies
pub mod Names
pub mod Listing
pub mod Uploader
pub mod Pieces
pub mod Transfer
pub mod Delivery
pub mod Trees
pub mod Paths
pub mod Moving
pub mod Delivered
pub mod Shared
pub mod Accept
pub mod Offer
pub mod Opening
pub mod Session
pub mod Requests
pub mod Stream
pub mod Clicks
mod Samples
mod Tests
mod UploadTests
use youdge.Base.{
  ℕ, ◌+◌, ◌/◌, ◌%◌, ◌^◌, Bool, true, false, List, [], ◌∷◌, ◌++◌, Str, codes, length, take, drop,
  ltb, if◌then◌else◌,
}
use youdge.Pdu.{Pdu, mk_pdu, le32, encode}
use youdge.Handlers.{join, overwrite}
use youdge.Handlers.Types.{MsgType, number, flush_friend_request, flush_file_request}

-- The message boxes by their texts.
pub data Notice : Type 0 where
  name_or_pwd_illegal : Notice
  regist_done : Notice
  regist_failed : Notice
  login_failed : Notice
  found_myself : Notice
  find_failed : Notice
  user_offline : Str → Notice
  user_missing : Str → Notice
  find_name_illegal : Notice
  add_friend_error : Notice
  add_friend_offline : Notice
  add_friend_already : Notice
  add_friend_done : Notice
  add_friend_failed : Notice
  del_friend_failed : Notice
  dir_name_illegal : Notice
  mkdir_failed : Notice
  not_a_dir : Notice
  del_dir_failed : Notice
  file_name_illegal : Notice
  rename_failed : Notice
  choose_dir : Notice
  mv_failed : Notice
  choose_file : Notice
  share_sent : Notice
  share_done : Notice
  share_failed : Notice
  upload_open_failed : Notice
  upload_read_failed : Notice
  upload_init_failed : Notice
  upload_done : Notice

-- `FileInfo`, its name with all its 32 bytes.
pub record FileInfo : Type 0 where
  pub ca_name : Str
  pub file_type : ℕ

pub record App : Type 0 where
  pub login_name : Str
  -- What was written to `m_tcpSocket`.
  pub written : Str
  pub notices : List Notice
  -- Index: whether its one instance was made, and whether it is shown in place of Client.
  pub index_made : Bool
  pub index_shown : Bool
  -- Friend, OnlineUser and Chat.
  pub friends : List Str
  pub online_users : List Str
  pub online_shown : Bool
  pub chat_shown : Bool
  pub chat_title : Str
  pub chat_name : Str
  pub show_te : List Str
  -- File: paths, the listed files, and whether the button for moving asks for the target.
  pub cur_path : Str
  pub user_path : Str
  pub file_infos : List FileInfo
  pub file_items : List Str
  pub mv_file_name : Str
  pub mv_file_path : Str
  pub mv_asks : Bool
  pub upload_file_path : Str
  -- ShareFile.
  pub share_file_path : Str
  pub share_friends : List Str
  pub share_shown : Bool
  -- The paths of the uploads that were started.
  pub uploads : List Str

-- `memcpy` to an array from its byte `n` on; a write past its end makes it longer, as in
-- `overwrite`.
unfoldable pub put_at : ℕ → Str → Str → Str
put_at n bytes array = take n array ++ overwrite bytes (drop n array)

-- `memcpy(pdu->caData + n, bytes, size)`
abbrev pub put_data : ℕ → Str → Pdu → Pdu
put_data n bytes p = record p { ca_data = put_at n bytes p.ca_data }

-- `memcpy(pdu->caMsg + n, bytes, size)`
abbrev pub put_msg : ℕ → Str → Pdu → Pdu
put_msg n bytes p = record p { ca_msg = put_at n bytes p.ca_msg }

-- The 32 bytes from a `c_str()` on.
unfoldable pub field : (Str → Str) → Str → Str
field behind name = take 32 (name ++ (0 ∷ behind name))

-- A PDU with a text and its zero byte as the message.
unfoldable pub with_text : MsgType → Str → Pdu
with_text type text = put_msg 0 text (mk_pdu (number type) (length text + 1))

-- `Client::sendMsg`
unfoldable pub send_msg : Pdu → App → App
send_msg p a = record a { written = a.written ++ take p.pdu_len (encode p) }

abbrev pub notify : Notice → App → App
notify notice a = record a { notices = a.notices ++ (notice ∷ []) }

module _ (behind : Str → Str) where
  -- `Friend::flushFriend`
  unfoldable pub flush_friend_of : App → Pdu
  flush_friend_of a =
      put_data 0 (field behind a.login_name) (mk_pdu (number flush_friend_request) 0)

  -- `File::flushFile`
  unfoldable pub flush_file_of : App → Pdu
  flush_file_of a = with_text flush_file_request a.cur_path

  -- The constructors of Friend and File.
  unfoldable pub make_index : App → App
  make_index a =
      let path = join (codes "./filesys") a.login_name in
      let b =
        send_msg (flush_friend_of a)
          (record a { index_made = true; cur_path = path; user_path = path }) in
      send_msg (flush_file_of b) b

  -- `Index::getInstance()` makes the pages at its first call.
  unfoldable pub get_index : App → App
  get_index a = if a.index_made then a else make_index a

  unfoldable pub flush_friend_page : App → App
  flush_friend_page a = send_msg (flush_friend_of a) a

  unfoldable pub flush_file_page : App → App
  flush_file_page a = send_msg (flush_file_of a) a

  -- A message box over the window of Index.
  abbrev pub index_notice : Notice → App → App
  index_notice notice a = notify notice (get_index a)
