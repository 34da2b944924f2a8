-- ===== src/Handlers.antt =====
-- Server/msghandler.cpp, the dispatch of Server/mytcpsocket.cpp and the socket list of
-- Server/mytcpserver.cpp: what the server does with each PDU. The SQL engine and the file system
-- are parameters that share the state `W`. An array of 32 bytes, or a path in a message, is read as
-- a C string; `none` as the result is the undefined behaviour of reading one that has no zero byte.
-- Texts are their bytes. `behind` is what lies in memory behind a string, which the copy of a short
-- name into a field of 32 bytes takes along.
pub mod Types
pub mod Files
pub mod Upload
pub mod Connection
pub mod Replies
pub mod Sockets
pub mod Logins
pub mod Isolation
mod Tests
use youdge.Base.{
  ℕ, zero, suc, ◌+◌, ◌-◌, ◌*◌, ◌^◌, Bool, true, false, ◌&&◌, List, [], ◌∷◌, ◌++◌, Option, none,
  some, Str, str_dec, map, ite, length, take, drop, ltb, leb, ◌==◌, if◌then◌else◌, ◌>>=◌,
}
use youdge.Base.Int.{ℤ, pos, negsuc, ◌+ℤ◌, ltb_ℤ}
use youdge.Pdu.{Pdu, mk_pdu, le32, u32, encode}
use youdge.Users.{
  Engine, handle_regist, handle_login, handle_find_user, handle_online_user, handle_add_friend,
  handle_add_friend_agree, handle_online_friend, handle_del_friend,
}
use youdge.Handlers.Types.{
  MsgType, number, regist_respond, login_respond, find_user_respond, online_user_respond,
  add_friend_respond, add_friend_agree_respond, flush_friend_respond, del_friend_respond,
  mkdir_respond, del_dir_respond, rename_file_respond, upload_file_init_respond,
  upload_file_data_respond,
}

unfoldable pub cstr : Str → Option Str
cstr [] = none
cstr (c ∷ l) = if c == 0 then some [] else do rest ← cstr l; some (c ∷ rest)

-- `memcpy(caName, m_pdu->caData + n, 32)` and the string in it.
abbrev pub name_at : ℕ → Pdu → Option Str
name_at n p = cstr (take 32 (drop n p.ca_data))

-- `memcpy` to the front of an array. Bytes past its end, which C++ leaves undefined, make the array
-- longer than its C++ type, so that no PDU with it is a frame.
unfoldable pub overwrite : Str → Str → Str
overwrite [] old = old
overwrite (b ∷ bytes) [] = b ∷ overwrite bytes []
overwrite (b ∷ bytes) (o ∷ old) = b ∷ overwrite bytes old

abbrev pub bool_byte : Bool → Str
bool_byte true = 1 ∷ []
bool_byte false = 0 ∷ []

-- The word of an `int`.
abbrev pub int_bytes : ℤ → Str
int_bytes (pos n) = le32 n
int_bytes (negsuc n) = le32 (2 ^ 32 - 1 - n)

abbrev pub is_one : ℤ → Bool
is_one (pos n) = n == 1
is_one (negsuc n) = false

abbrev pub equal_ℤ : ℤ → ℤ → Bool
equal_ℤ (pos m) (pos n) = m == n
equal_ℤ (pos m) (negsuc n) = false
equal_ℤ (negsuc m) (pos n) = false
equal_ℤ (negsuc m) (negsuc n) = m == n

-- A reply without a message, with bytes at the front of its parameters.
unfoldable pub respond : MsgType → Str → Pdu
respond type bytes =
    let p = mk_pdu (number type) 0 in record p { ca_data = overwrite bytes p.ca_data }

-- `QString("%1/%2")`
abbrev pub join : Str → Str → Str
join dir name = dir ++ (b'/' ∷ name)

-- A `qint64` in memory.
unfoldable pub i64 : Str → ℤ
i64 bytes =
    let n = u32 bytes + 2 ^ 32 * u32 (drop 4 bytes) in
    if ltb n (2 ^ 63) then pos n else negsuc (2 ^ 64 - n - 1)

-- What `entryInfoList` tells of a file.
pub record FileEntry : Type 0 where
  pub file_name : Str
  pub is_dir : Bool
  pub is_file : Bool

pub record Disk (W : Type 0) : Type 0 where
  pub mkdir : W → Str → W × Bool
  pub rename : W → Str → Str → W × Bool
  pub remove_recursively : W → Str → W × Bool
  pub is_dir : W → Str → Bool
  pub is_file : W → Str → Bool
  pub copy : W → Str → Str → W × Bool
  pub entries : W → Str → List FileEntry
  pub open_file : W → Str → W × Bool
  pub write : W → Str → W
  pub close : W → W

pub record Sock : Type 0 where
  pub login_name : Str
  pub written : Str

-- The server as one connection sees it: `self` is its place in the list of sockets.
pub record State (W : Type 0) : Type 0 where
  pub world : W
  pub sockets : List Sock
  pub self : ℕ
  pub upload_file_size : ℤ
  pub receive_size : ℤ

-- The body of the loop of `MyTcpServer::resend`.
unfoldable pub deliver : Str → Pdu → Sock → Sock
deliver tar pdu k =
    ite (str_dec tar k.login_name)
      (record k { written = k.written ++ take pdu.pdu_len (encode pdu) }) k

-- `MyTcpServer::resend`
unfoldable pub resend : Str → Pdu → List Sock → List Sock
resend tar pdu [] = []
resend tar pdu (k ∷ sockets) = deliver tar pdu k ∷ resend tar pdu sockets

-- `strLoginName = caName`, which is the login name of the socket in the list.
unfoldable pub set_login : ℕ → Str → List Sock → List Sock
set_login i name [] = []
set_login zero name (k ∷ sockets) = record k { login_name = name } ∷ sockets
set_login (suc i) name (k ∷ sockets) = k ∷ set_login i name sockets

-- The fields of 32 bytes that a list of names fills.
unfoldable pub name_fields : (Str → Str) → List Str → Str
name_fields behind [] = []
name_fields behind (name ∷ names) = take 32 (name ++ (0 ∷ behind name)) ++ name_fields behind names

abbrev pub names_reply : (Str → Str) → MsgType → List Str → Pdu
names_reply behind type names = record (mk_pdu (number type) (length names * 32)) {
  ca_msg = name_fields behind names;
}

module _ {W : Type 0} (exec : Engine W) (disk : Disk W) (root_path : Str) (behind : Str → Str) where
  abbrev pub Answer : Type 0
  Answer = Option (State W × Option Pdu)

  unfoldable pub regist : State W → Pdu → Answer
  regist s p = do
    name ← name_at 0 p
    pwd ← name_at 32 p
    let (w, ret) = handle_regist exec s.world name pwd
    let w' = if ret then (disk.mkdir w (join root_path name)).0 else w
    some (record s { world = w' }, some (respond regist_respond (bool_byte ret)))

  unfoldable pub login : State W → Pdu → Answer
  login s p = do
    name ← name_at 0 p
    pwd ← name_at 32 p
    let (w, ret) = handle_login exec s.world name pwd
    let sockets = if ret then set_login s.self name s.sockets else s.sockets
    some (record s { world = w; sockets = sockets }, some (respond login_respond (bool_byte ret)))

  unfoldable pub find_user : State W → Pdu → Answer
  find_user s p = do
    name ← name_at 0 p
    let (w, ret) = handle_find_user exec s.world name
    some (
      record s { world = w },
      some (respond find_user_respond (take 32 p.ca_data ++ int_bytes ret)),
    )

  unfoldable pub online_user : State W → Pdu → Answer
  online_user s p =
      let (w, names) = handle_online_user exec s.world in
      some (record s { world = w }, some (names_reply behind online_user_respond names))

  unfoldable pub add_friend : State W → Pdu → Answer
  add_friend s p = do
    cur ← name_at 0 p
    tar ← name_at 32 p
    let (w, ret) = handle_add_friend exec s.world cur tar
    let sockets = if is_one ret then resend tar p s.sockets else s.sockets
    some (
      record s { world = w; sockets = sockets },
      some (respond add_friend_respond (int_bytes ret)),
    )

  unfoldable pub add_friend_agree : State W → Pdu → Answer
  add_friend_agree s p = do
    cur ← name_at 0 p
    tar ← name_at 32 p
    let (w, ret) = handle_add_friend_agree exec s.world cur tar
    let respdu = respond add_friend_agree_respond (bool_byte ret)
    some (record s { world = w; sockets = resend cur respdu s.sockets }, some respdu)

  unfoldable pub flush_friend : State W → Pdu → Answer
  flush_friend s p = do
    cur ← name_at 0 p
    let (w, names) = handle_online_friend exec s.world cur
    some (record s { world = w }, some (names_reply behind flush_friend_respond names))

  unfoldable pub del_friend : State W → Pdu → Answer
  del_friend s p = do
    cur ← name_at 0 p
    tar ← name_at 32 p
    let (w, ret) = handle_del_friend exec s.world cur tar
    let respdu = respond del_friend_respond (bool_byte ret)
    let sockets = if ret then resend tar respdu s.sockets else s.sockets
    some (record s { world = w; sockets = sockets }, some respdu)

  unfoldable pub chat : State W → Pdu → Answer
  chat s p = do tar ← name_at 32 p; some (record s { sockets = resend tar p s.sockets }, none)

  unfoldable pub mkdir : State W → Pdu → Answer
  mkdir s p = do
    name ← name_at 0 p
    dir ← cstr p.ca_msg
    let (w, ret) = disk.mkdir s.world (join dir name)
    some (record s { world = w }, some (respond mkdir_respond (bool_byte ret)))

  unfoldable pub del_dir : State W → Pdu → Answer
  del_dir s p = do
    path ← cstr p.ca_msg
    let removed = disk.remove_recursively s.world path
    let (w, ret) = if disk.is_dir s.world path then removed else (s.world, false)
    some (record s { world = w }, some (respond del_dir_respond (bool_byte ret)))

  unfoldable pub rename_file : State W → Pdu → Answer
  rename_file s p = do
    old ← name_at 0 p
    new ← name_at 32 p
    dir ← cstr p.ca_msg
    let (w, ret) = disk.rename s.world (join dir old) (join dir new)
    some (record s { world = w }, some (respond rename_file_respond (bool_byte ret)))

  -- The file to upload is opened, and the counts start.
  unfoldable pub upload_file_init : State W → Pdu → Answer
  upload_file_init s p = do
    name ← name_at 0 p
    dir ← cstr p.ca_msg
    let (w, ret) = disk.open_file s.world (join dir name)
    some (
      record s { world = w; upload_file_size = i64 (drop 32 p.ca_data); receive_size = pos 0 },
      some (respond upload_file_init_respond (bool_byte ret)),
    )

  -- A write of more bytes than the message has reads past its end: `none`.
  unfoldable pub upload_file_data : State W → Pdu → Answer
  upload_file_data s p =
      let w = disk.write s.world (take p.msg_len p.ca_msg) in
      let received = s.receive_size +ℤ pos p.msg_len in
      let ret = equal_ℤ received s.upload_file_size in
      let done : State W × Option Pdu =
        if ltb_ℤ received s.upload_file_size
        then (record s { world = w; receive_size = received }, none)
        else (
          record s { world = disk.close w; receive_size = received },
          some (respond upload_file_data_respond (bool_byte ret)),
        ) in
      if leb p.msg_len (length p.ca_msg) then some done else none
