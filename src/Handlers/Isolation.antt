-- ===== src/Handlers/Isolation.antt =====
-- What a PDU of one connection does to the login names of the other ones: Server/msghandler.cpp and
-- `resend` of Server/mytcpserver.cpp.
use youdge.Base.{
  ℕ, ◌*◌, ◌-◌, ◌≡◌, ◌≢◌, refl, Bool, true, false, Option, none, some, Str, arith, take, drop,
  length, leb, if◌then◌else◌, ◌>>=◌,
}
use youdge.Pdu.{Pdu, mk_pdu, u32}
use youdge.Users.{Engine, handle_login, handle_add_friend, handle_del_friend}
use youdge.Handlers.{
  State, Disk, name_at, set_login, overwrite, is_one, regist, find_user, online_user, flush_friend,
  mkdir, del_dir, rename_file, upload_file_init, login, add_friend, add_friend_agree, del_friend,
  chat, upload_file_data,
}
use youdge.Handlers.Types.{
  number, is_type, regist_request, login_request, find_user_request, online_user_request,
  add_friend_request, add_friend_agree_request, flush_friend_request, del_friend_request,
  chat_request, mkdir_request, flush_file_request, del_dir_request, rename_file_request,
  mv_file_request, share_file_request, share_file_agree_request, upload_file_init_request,
  upload_file_data_request, share_file_respond,
}
use youdge.Handlers.Files.{
  flush_file, mv_file, share_file_agree, share_file, resend_all, handle_pdu,
}
use youdge.Handlers.Logins.{
  login_at, login_at-resend, login_at-set_login, LeavesLogin, then_leaves, if_leaves, if_resend,
  resend_all-LeavesAll, all_leaves,
}

module _ {W : Type 0} (exec : Engine W) (disk : Disk W) (root_path : Str) (behind : Str → Str) where
  regist-LeavesLogin :
      (j : ℕ) (s : State W) (p : Pdu) → LeavesLogin j s (regist exec disk root_path behind s p)
  unfolding regist
  regist-LeavesLogin j s p = ground arith

  find_user-LeavesLogin :
      (j : ℕ) (s : State W) (p : Pdu) → LeavesLogin j s (find_user exec disk root_path behind s p)
  unfolding find_user
  find_user-LeavesLogin j s p = ground arith

  online_user-LeavesLogin :
      (j : ℕ) (s : State W) (p : Pdu) → LeavesLogin j s (online_user exec disk root_path behind s p)
  unfolding online_user
  online_user-LeavesLogin j s p = ground arith

  flush_friend-LeavesLogin :
      (j : ℕ) (s : State W) (p : Pdu)
      → LeavesLogin j s (flush_friend exec disk root_path behind s p)
  unfolding flush_friend
  flush_friend-LeavesLogin j s p = ground arith

  mkdir-LeavesLogin :
      (j : ℕ) (s : State W) (p : Pdu) → LeavesLogin j s (mkdir exec disk root_path behind s p)
  unfolding mkdir
  mkdir-LeavesLogin j s p = ground arith

  del_dir-LeavesLogin :
      (j : ℕ) (s : State W) (p : Pdu) → LeavesLogin j s (del_dir exec disk root_path behind s p)
  unfolding del_dir
  del_dir-LeavesLogin j s p = ground arith

  rename_file-LeavesLogin :
      (j : ℕ) (s : State W) (p : Pdu) → LeavesLogin j s (rename_file exec disk root_path behind s p)
  unfolding rename_file
  rename_file-LeavesLogin j s p = ground arith

  upload_file_init-LeavesLogin :
      (j : ℕ) (s : State W) (p : Pdu)
      → LeavesLogin j s (upload_file_init exec disk root_path behind s p)
  unfolding upload_file_init
  upload_file_init-LeavesLogin j s p = ground arith

  flush_file-LeavesLogin :
      (j : ℕ) (s : State W) (p : Pdu) → LeavesLogin j s (flush_file exec disk root_path behind s p)
  unfolding flush_file
  flush_file-LeavesLogin j s p = ground arith

  mv_file-LeavesLogin :
      (j : ℕ) (s : State W) (p : Pdu) → LeavesLogin j s (mv_file exec disk root_path behind s p)
  unfolding mv_file
  mv_file-LeavesLogin j s p = ground arith

  share_file_agree-LeavesLogin :
      (j depth : ℕ) (s : State W) (p : Pdu)
      → LeavesLogin j s (share_file_agree exec disk root_path behind depth s p)
  unfolding share_file_agree
  share_file_agree-LeavesLogin j depth s p = ground arith

  login-LeavesLogin :
      (j : ℕ) (s : State W) (p : Pdu)
      → j ≢ s.self
      → LeavesLogin j s (login exec disk root_path behind s p)
  unfolding login
  login-LeavesLogin j s p h = then_leaves j s (name_at 0 p) _ (λ name.
      then_leaves j s (name_at 32 p) _ (λ pwd. by name (handle_login exec s.world name pwd).1))
    where
      by :
          (name : Str) (ret : Bool)
          → login_at j (if ret then set_login s.self name s.sockets else s.sockets)
            ≡ login_at j s.sockets
      by name true = login_at-set_login j s.self name s.sockets h
      by name false = refl

  add_friend-LeavesLogin :
      (j : ℕ) (s : State W) (p : Pdu) → LeavesLogin j s (add_friend exec disk root_path behind s p)
  unfolding add_friend
  add_friend-LeavesLogin j s p = then_leaves j s (name_at 0 p) _ (λ cur.
      then_leaves j s (name_at 32 p) _
        (λ tar. if_resend j (is_one (handle_add_friend exec s.world cur tar).1) tar p s.sockets))

  add_friend_agree-LeavesLogin :
      (j : ℕ) (s : State W) (p : Pdu)
      → LeavesLogin j s (add_friend_agree exec disk root_path behind s p)
  unfolding add_friend_agree
  add_friend_agree-LeavesLogin j s p =
      then_leaves j s (name_at 0 p) _
        (λ cur. then_leaves j s (name_at 32 p) _ (λ tar. login_at-resend j cur _ s.sockets))

  del_friend-LeavesLogin :
      (j : ℕ) (s : State W) (p : Pdu) → LeavesLogin j s (del_friend exec disk root_path behind s p)
  unfolding del_friend
  del_friend-LeavesLogin j s p = then_leaves j s (name_at 0 p) _ (λ cur.
      then_leaves j s (name_at 32 p) _
        (λ tar. if_resend j (handle_del_friend exec s.world cur tar).1 tar _ s.sockets))

  chat-LeavesLogin :
      (j : ℕ) (s : State W) (p : Pdu) → LeavesLogin j s (chat exec disk root_path behind s p)
  unfolding chat
  chat-LeavesLogin j s p =
      then_leaves j s (name_at 32 p) _ (λ tar. login_at-resend j tar p s.sockets)

  upload_file_data-LeavesLogin :
      (j : ℕ) (s : State W) (p : Pdu)
      → LeavesLogin j s (upload_file_data exec disk root_path behind s p)
  unfolding upload_file_data
  upload_file_data-LeavesLogin j s p = ground arith

  share_file-LeavesLogin :
      (j : ℕ) (s : State W) (p : Pdu) → LeavesLogin j s (share_file exec disk root_path behind s p)
  unfolding share_file
  share_file-LeavesLogin j s p =
      let n = u32 (drop 32 p.ca_data) in
      let rest = p.msg_len - n * 32 in
      let message = mk_pdu p.msg_type rest in
      let resendpdu : Pdu = record message {
        ca_data = overwrite (take 32 p.ca_data) message.ca_data;
        ca_msg = take rest (drop (n * 32) p.ca_msg);
      } in
      let all = resend_all n p.ca_msg resendpdu s.sockets in
      let reply = some (mk_pdu (number share_file_respond) 0) in
      let answer : Option (State W × Option Pdu) =
        all >>= (λ l. some (record s { sockets = l }, reply)) in
      if_leaves j s (leb (n * 32) p.msg_len)
        (if leb p.msg_len (length p.ca_msg) then answer else none) none
        (if_leaves j s (leb p.msg_len (length p.ca_msg)) answer none
          (all_leaves j s all reply (resend_all-LeavesAll j n p.ca_msg resendpdu s.sockets)) tt)
        tt

  -- No PDU of one connection changes the login name under which another one gets its messages.
  pub handle_pdu-LeavesLogin :
      (j depth : ℕ) (s : State W) (p : Pdu)
      → j ≢ s.self
      → LeavesLogin j s (handle_pdu exec disk root_path behind depth s p)
  unfolding handle_pdu
  handle_pdu-LeavesLogin j depth s p h =
      if_leaves j s (is_type p regist_request) _ _ (regist-LeavesLogin j s p) (
        if_leaves j s (is_type p login_request) _ _ (login-LeavesLogin j s p h) (
          if_leaves j s (is_type p find_user_request) _ _ (find_user-LeavesLogin j s p) (
            if_leaves j s (is_type p online_user_request) _ _ (online_user-LeavesLogin j s p) (
              if_leaves j s (is_type p add_friend_request) _ _ (add_friend-LeavesLogin j s p) (
                if_leaves j s (is_type p add_friend_agree_request) _ _
                  (add_friend_agree-LeavesLogin j s p)
                  (if_leaves j s (is_type p flush_friend_request) _ _
                    (flush_friend-LeavesLogin j s p)
                    (if_leaves j s (is_type p del_friend_request) _ _ (del_friend-LeavesLogin j s p)
                      (if_leaves j s (is_type p chat_request) _ _ (chat-LeavesLogin j s p) (
                        if_leaves j s (is_type p mkdir_request) _ _ (mkdir-LeavesLogin j s p) (
                          if_leaves j s (is_type p flush_file_request) _ _
                            (flush_file-LeavesLogin j s p)
                            (if_leaves j s (is_type p del_dir_request) _ _
                              (del_dir-LeavesLogin j s p)
                              (if_leaves j s (is_type p rename_file_request) _ _
                                (rename_file-LeavesLogin j s p)
                                (if_leaves j s (is_type p mv_file_request) _ _
                                  (mv_file-LeavesLogin j s p)
                                  (if_leaves j s (is_type p share_file_request) _ _
                                    (share_file-LeavesLogin j s p)
                                    (if_leaves j s (is_type p share_file_agree_request) _ _
                                      (share_file_agree-LeavesLogin j depth s p)
                                      (if_leaves j s (is_type p upload_file_init_request) _ _
                                        (upload_file_init-LeavesLogin j s p)
                                        (if_leaves j s (is_type p upload_file_data_request) _ _
                                          (upload_file_data-LeavesLogin j s p)
                                          (refl))))))))))))))))))
