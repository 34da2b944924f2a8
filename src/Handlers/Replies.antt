-- ===== src/Handlers/Replies.antt =====
-- The type of each reply of the server: the one that follows the request's in the enumeration of
-- Server/protocol.h.
use youdge.Base.{
  ℕ, ◌+◌, ◌≡◌, inl, inr, sym, subst, Option, none, some, Str, arith, ◌==◌, ==_iff, if◌then◌else◌,
  Bool-cases,
}
use youdge.Pdu.{Pdu, mk_pdu}
use youdge.Users.{Engine}
use youdge.Handlers.{
  State, Disk, respond, regist, login, find_user, online_user, add_friend, add_friend_agree,
  flush_friend, del_friend, chat, mkdir, del_dir, rename_file, upload_file_init, upload_file_data,
}
use youdge.Handlers.Types.{
  number, regist_request, login_request, find_user_request, online_user_request, add_friend_request,
  add_friend_agree_request, flush_friend_request, del_friend_request, chat_request, mkdir_request,
  flush_file_request, del_dir_request, rename_file_request, mv_file_request, share_file_request,
  share_file_agree_request, upload_file_init_request, upload_file_data_request,
}
use youdge.Handlers.Files.{flush_file, mv_file, share_file, share_file_agree, handle_pdu}

-- An answer that has no reply, or one of the type behind this one.
abbrev pub IsReply : {W : Type 0} → ℕ → Option (State W × Option Pdu) → Type 0
IsReply n none = Unit {0}
IsReply n (some (s, none)) = Unit {0}
IsReply n (some (s, some r)) = r.msg_type ≡ n + 1

-- One case of the dispatch.
by_type :
    {W : Type 0} (n k : ℕ) (x y : Option (State W × Option Pdu))
    → IsReply k x
    → IsReply n y
    → IsReply n (if n == k then x else y)
by_type n k x y hx hy = elim (Bool-cases (n == k)) [
  | inl e ↦ rw e (subst (λ m. IsReply m x) (sym ((==_iff n k).0 e)) hx)
  | inr e ↦ rw e hy
]

module _ {W : Type 0} (exec : Engine W) (disk : Disk W) (root_path : Str) (behind : Str → Str) where
  regist-IsReply :
      (s : State W) (p : Pdu)
      → IsReply (number regist_request) (regist exec disk root_path behind s p)
  unfolding regist respond mk_pdu
  regist-IsReply s p = ground arith

  login-IsReply :
      (s : State W) (p : Pdu)
      → IsReply (number login_request) (login exec disk root_path behind s p)
  unfolding login respond mk_pdu
  login-IsReply s p = ground arith

  find_user-IsReply :
      (s : State W) (p : Pdu)
      → IsReply (number find_user_request) (find_user exec disk root_path behind s p)
  unfolding find_user respond mk_pdu
  find_user-IsReply s p = ground arith

  online_user-IsReply :
      (s : State W) (p : Pdu)
      → IsReply (number online_user_request) (online_user exec disk root_path behind s p)
  unfolding online_user respond mk_pdu
  online_user-IsReply s p = ground arith

  add_friend-IsReply :
      (s : State W) (p : Pdu)
      → IsReply (number add_friend_request) (add_friend exec disk root_path behind s p)
  unfolding add_friend respond mk_pdu
  add_friend-IsReply s p = ground arith

  add_friend_agree-IsReply :
      (s : State W) (p : Pdu)
      → IsReply (number add_friend_agree_request) (add_friend_agree exec disk root_path behind s p)
  unfolding add_friend_agree respond mk_pdu
  add_friend_agree-IsReply s p = ground arith

  flush_friend-IsReply :
      (s : State W) (p : Pdu)
      → IsReply (number flush_friend_request) (flush_friend exec disk root_path behind s p)
  unfolding flush_friend respond mk_pdu
  flush_friend-IsReply s p = ground arith

  del_friend-IsReply :
      (s : State W) (p : Pdu)
      → IsReply (number del_friend_request) (del_friend exec disk root_path behind s p)
  unfolding del_friend respond mk_pdu
  del_friend-IsReply s p = ground arith

  chat-IsReply :
      (s : State W) (p : Pdu) → IsReply (number chat_request) (chat exec disk root_path behind s p)
  unfolding chat respond mk_pdu
  chat-IsReply s p = ground arith

  mkdir-IsReply :
      (s : State W) (p : Pdu)
      → IsReply (number mkdir_request) (mkdir exec disk root_path behind s p)
  unfolding mkdir respond mk_pdu
  mkdir-IsReply s p = ground arith

  del_dir-IsReply :
      (s : State W) (p : Pdu)
      → IsReply (number del_dir_request) (del_dir exec disk root_path behind s p)
  unfolding del_dir respond mk_pdu
  del_dir-IsReply s p = ground arith

  rename_file-IsReply :
      (s : State W) (p : Pdu)
      → IsReply (number rename_file_request) (rename_file exec disk root_path behind s p)
  unfolding rename_file respond mk_pdu
  rename_file-IsReply s p = ground arith

  upload_file_init-IsReply :
      (s : State W) (p : Pdu)
      → IsReply (number upload_file_init_request) (upload_file_init exec disk root_path behind s p)
  unfolding upload_file_init respond mk_pdu
  upload_file_init-IsReply s p = ground arith

  flush_file-IsReply :
      (s : State W) (p : Pdu)
      → IsReply (number flush_file_request) (flush_file exec disk root_path behind s p)
  unfolding flush_file respond mk_pdu
  flush_file-IsReply s p = ground arith

  mv_file-IsReply :
      (s : State W) (p : Pdu)
      → IsReply (number mv_file_request) (mv_file exec disk root_path behind s p)
  unfolding mv_file respond mk_pdu
  mv_file-IsReply s p = ground arith

  share_file-IsReply :
      (s : State W) (p : Pdu)
      → IsReply (number share_file_request) (share_file exec disk root_path behind s p)
  unfolding share_file respond mk_pdu
  share_file-IsReply s p = ground arith

  share_file_agree-IsReply :
      (depth : ℕ) (s : State W) (p : Pdu)
      → IsReply
          (number share_file_agree_request)
          (share_file_agree exec disk root_path behind depth s p)
  unfolding share_file_agree respond mk_pdu
  share_file_agree-IsReply depth s p = ground arith

  upload_file_data-IsReply :
      (s : State W) (p : Pdu)
      → IsReply (number upload_file_data_request) (upload_file_data exec disk root_path behind s p)
  unfolding upload_file_data respond mk_pdu
  upload_file_data-IsReply s p = ground arith

  -- Every reply of the server has the type that follows its request's in the enumeration.
  pub handle_pdu-IsReply :
      (depth : ℕ) (s : State W) (p : Pdu)
      → IsReply p.msg_type (handle_pdu exec disk root_path behind depth s p)
  unfolding handle_pdu
  handle_pdu-IsReply depth s p =
      by_type p.msg_type (number regist_request) _ _ (regist-IsReply s p) (
        by_type p.msg_type (number login_request) _ _ (login-IsReply s p) (
          by_type p.msg_type (number find_user_request) _ _ (find_user-IsReply s p) (
            by_type p.msg_type (number online_user_request) _ _ (online_user-IsReply s p) (
              by_type p.msg_type (number add_friend_request) _ _ (add_friend-IsReply s p) (
                by_type p.msg_type (number add_friend_agree_request) _ _
                  (add_friend_agree-IsReply s p)
                  (by_type p.msg_type (number flush_friend_request) _ _ (flush_friend-IsReply s p) (
                    by_type p.msg_type (number del_friend_request) _ _ (del_friend-IsReply s p) (
                      by_type p.msg_type (number chat_request) _ _ (chat-IsReply s p) (
                        by_type p.msg_type (number mkdir_request) _ _ (mkdir-IsReply s p) (
                          by_type p.msg_type (number flush_file_request) _ _
                            (flush_file-IsReply s p)
                            (by_type p.msg_type (number del_dir_request) _ _ (del_dir-IsReply s p) (
                              by_type p.msg_type (number rename_file_request) _ _
                                (rename_file-IsReply s p)
                                (by_type p.msg_type (number mv_file_request) _ _
                                  (mv_file-IsReply s p)
                                  (by_type p.msg_type (number share_file_request) _ _
                                    (share_file-IsReply s p)
                                    (by_type p.msg_type (number share_file_agree_request) _ _
                                      (share_file_agree-IsReply depth s p)
                                      (by_type p.msg_type (number upload_file_init_request) _ _
                                        (upload_file_init-IsReply s p)
                                        (by_type p.msg_type (number upload_file_data_request) _ _
                                          (upload_file_data-IsReply s p) (tt))))))))))))))))))
