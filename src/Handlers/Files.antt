-- ===== src/Handlers/Files.antt =====
-- The handlers of Server/msghandler.cpp that share, move and list files, and the dispatch of
-- Server/mytcpsocket.cpp over all handlers. Copying a directory has fuel for its depth, and `none`
-- stands for its end too. A count or a length that makes the source read or write outside of its
-- buffers gives `none`.
use youdge.Base.{
  ℕ, zero, suc, ◌+◌, ◌-◌, ◌*◌, Bool, true, false, List, [], ◌∷◌, ◌++◌, Option, none, some, Str,
  str_dec, codes, ite, length, take, drop, leb, ◌==◌, if◌then◌else◌, ◌>>=◌,
}
use youdge.Pdu.{Pdu, mk_pdu, le32, u32}
use youdge.Users.{Engine}
use youdge.Handlers.{
  State, Disk, FileEntry, Sock, cstr, overwrite, respond, bool_byte, join, resend, regist, login,
  find_user, online_user, add_friend, add_friend_agree, flush_friend, del_friend, chat, mkdir,
  del_dir, rename_file, upload_file_init, upload_file_data,
}
use youdge.Handlers.Types.{
  is_type, number, regist_request, login_request, find_user_request, online_user_request,
  add_friend_request, add_friend_agree_request, flush_friend_request, del_friend_request,
  chat_request, mkdir_request, flush_file_request, flush_file_respond, del_dir_request,
  rename_file_request, mv_file_request, mv_file_respond, share_file_request, share_file_respond,
  share_file_agree_request, share_file_agree_respond, upload_file_init_request,
  upload_file_data_request,
}

-- `sizeof(FileInfo)`
abbrev pub sizeof_file_info : ℕ
sizeof_file_info = 36

abbrev pub is_dots : Str → Bool
is_dots name = ite (str_dec name (codes ".")) true (ite (str_dec name (codes "..")) true false)

-- The entries but `.` and `..`.
unfoldable pub real_entries : List FileEntry → List FileEntry
real_entries [] = []
real_entries (e ∷ l) = let rest = real_entries l in if is_dots e.file_name then rest else e ∷ rest

-- The structs of the entries, one behind the other.
unfoldable pub file_infos : (Str → Str) → List FileEntry → Str
file_infos behind [] = []
file_infos behind (e ∷ l) =
    take 32 (e.file_name ++ (0 ∷ behind e.file_name))
    ++ (le32 (if e.is_dir then 0 else 1) ++ file_infos behind l)

-- `strFilePath.right(size - index - 1)` for the last index of a slash.
unfoldable pub after_slash : Str → Str → Str
after_slash [] name = name
after_slash (c ∷ path) name = if c == b'/' then after_slash path path else after_slash path name

-- The fields of the names that `shareFile` sends to.
unfoldable pub resend_all : ℕ → Str → Pdu → List Sock → Option (List Sock)
resend_all zero names pdu sockets = some sockets
resend_all (suc n) names pdu sockets = do
  name ← cstr (take 32 names)
  resend_all n (drop 32 names) pdu (resend name pdu sockets)

module _ {W : Type 0} (exec : Engine W) (disk : Disk W) (root_path : Str) (behind : Str → Str) where
  abbrev pub Answer : Type 0
  Answer = Option (State W × Option Pdu)

  -- The buffer has room for the list's size less two entries: fewer than two entries wrap the
  -- size around, and a list without the dots runs over the buffer.
  unfoldable pub flush_file : State W → Pdu → Answer
  flush_file s p = do
    path ← cstr p.ca_msg
    let all = disk.entries s.world path
    let real = real_entries all
    let reply = mk_pdu (number flush_file_respond) (sizeof_file_info * (length all - 2))
    let answer = record reply { ca_msg = overwrite (file_infos behind real) reply.ca_msg }
    if leb (length real + 2) (length all) then some (s, some answer) else none

  -- The lengths are signed, and a negative one, or one past the message, is out of bounds.
  unfoldable pub mv_file : State W → Pdu → Answer
  mv_file s p =
      let src_len = u32 p.ca_data in
      let tar_len = u32 (drop 32 p.ca_data) in
      let answer : Answer = (do
        src ← cstr (take src_len p.ca_msg ++ (0 ∷ []))
        tar ← cstr (take tar_len (drop src_len p.ca_msg) ++ (0 ∷ []))
        let (w, ret) = disk.rename s.world src tar
        some (record s { world = w }, some (respond mv_file_respond (bool_byte ret)))) in
      if leb (src_len + tar_len) (length p.ca_msg) then answer else none

  unfoldable pub share_file : State W → Pdu → Answer
  share_file s p =
      let friend_num = u32 (drop 32 p.ca_data) in
      let rest = p.msg_len - friend_num * 32 in
      let message = mk_pdu p.msg_type rest in
      let resendpdu = record message {
        ca_data = overwrite (take 32 p.ca_data) message.ca_data;
        ca_msg = take rest (drop (friend_num * 32) p.ca_msg);
      } in
      let answer : Answer = (do
        sockets ← resend_all friend_num p.ca_msg resendpdu s.sockets
        some (record s { sockets = sockets }, some (mk_pdu (number share_file_respond) 0))) in
      if leb (friend_num * 32) p.msg_len
      then (if leb p.msg_len (length p.ca_msg) then answer else none)
      else none

  -- The loop of `copyDir`, where `sub` copies a directory below.
  unfoldable pub copy_entries :
      (W → Str → Str → Option (W × Bool))
      → List FileEntry
      → Str
      → Str
      → W × Bool
      → Option (W × Bool)
  copy_entries sub [] src dest r = some r
  copy_entries sub (e ∷ l) src dest (w, ret) =
      let from = join src e.file_name in
      let to = join dest e.file_name in
      let skip = copy_entries sub l src dest (w, ret) in
      let file = copy_entries sub l src dest (disk.copy w from to) in
      let dir : Option (W × Bool) = (do r ← sub w from to; copy_entries sub l src dest r) in
      if is_dots e.file_name then skip else if e.is_file then file else dir

  unfoldable pub copy_dir : ℕ → W → Str → Str → Option (W × Bool)
  copy_dir zero w src dest = none
  copy_dir (suc depth) w src dest =
      let made = disk.mkdir w dest in
      copy_entries (copy_dir depth) (disk.entries made.0 src) src dest made

  unfoldable pub share_file_agree : ℕ → State W → Pdu → Answer
  share_file_agree depth s p = do
    path ← cstr p.ca_msg
    user ← cstr p.ca_data
    let recv = join (join root_path user) (after_slash path path)
    (w, ret) ←
        (if disk.is_file s.world path
          then some (disk.copy s.world path recv)
          else copy_dir depth s.world path recv)
    some (record s { world = w }, some (respond share_file_agree_respond (bool_byte ret)))

  -- `MyTcpSocket::handlePDU`
  unfoldable pub handle_pdu : ℕ → State W → Pdu → Answer
  handle_pdu depth s p =
      if is_type p regist_request
      then regist exec disk root_path behind s p
      else if is_type p login_request
      then login exec disk root_path behind s p
      else if is_type p find_user_request
      then find_user exec disk root_path behind s p
      else if is_type p online_user_request
      then online_user exec disk root_path behind s p
      else if is_type p add_friend_request
      then add_friend exec disk root_path behind s p
      else if is_type p add_friend_agree_request
      then add_friend_agree exec disk root_path behind s p
      else if is_type p flush_friend_request
      then flush_friend exec disk root_path behind s p
      else if is_type p del_friend_request
      then del_friend exec disk root_path behind s p
      else if is_type p chat_request
      then chat exec disk root_path behind s p
      else if is_type p mkdir_request
      then mkdir exec disk root_path behind s p
      else if is_type p flush_file_request
      then flush_file s p
      else if is_type p del_dir_request
      then del_dir exec disk root_path behind s p
      else if is_type p rename_file_request
      then rename_file exec disk root_path behind s p
      else if is_type p mv_file_request
      then mv_file s p
      else if is_type p share_file_request
      then share_file s p
      else if is_type p share_file_agree_request
      then share_file_agree depth s p
      else if is_type p upload_file_init_request
      then upload_file_init exec disk root_path behind s p
      else if is_type p upload_file_data_request
      then upload_file_data exec disk root_path behind s p
      else some (s, none)
