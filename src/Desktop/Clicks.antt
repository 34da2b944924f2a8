-- ===== src/Desktop/Clicks.antt =====
-- Each click of the client's pages keeps what was written a stream of whole PDUs.
use youdge.Base.{
  ℕ, zero, suc, ◌+◌, ◌-◌, ◌^◌, ◌<◌, ◌≤◌, ◌≡◌, Bool, true, false, [], ◌∷◌, Option, none, some, Str,
  str_dec, ite, length, take, is_empty, ltb, length-append, arith, if◌then◌else◌,
}
use youdge.Handlers.{join}
use youdge.Handlers.Files.{after_slash}
use youdge.Handlers.Types.{
  regist_request, login_request, find_user_request, online_user_request, add_friend_request,
  del_friend_request, flush_friend_request, flush_file_request, mkdir_request, del_dir_request,
}
use youdge.Desktop.{App, flush_friend_of, flush_file_of, flush_friend_page, flush_file_page}
use youdge.Desktop.Friends.{
  on_regist, on_login, on_find_user, on_online_user, on_flush_friend, on_del, on_chat, on_send,
  on_online_item,
}
use youdge.Desktop.Browser.{
  is_listed_file, last_slash, parent_path, on_mkdir, on_flush_file, on_del_dir, on_rename,
  on_return, on_file_item, mv_to, mv_second, mv_first, on_mv, on_share, on_upload,
}
use youdge.Desktop.Sharing.{on_ok}
use youdge.Desktop.Fields.{IsReadable}
use youdge.Desktop.Moving.{IsStack}
use youdge.Desktop.Requests.{
  mk-IsFrame, with_text-IsFrame, one_name-IsFrame, two_names-IsFrame, text_name-IsFrame,
  chat_pdu-IsFrame, rename_pdu-IsFrame, init_pdu-IsFrame, mv_pdu-IsFrame, share_pdu-IsFrame,
}
use youdge.Desktop.Stream.{
  IsStream, send_msg-IsStream, if_IsStream, Sends, Sends-then, AllReadable, is_listed_file-defined,
  Click, click_regist, click_login, click_find_user, click_online_user, click_flush_friend,
  click_del, click_chat, click_send, click_online_item, click_mkdir, click_flush_file,
  click_del_dir, click_rename, click_return, click_file_item, click_mv, click_share, click_upload,
  click_ok, IsShort, ShortItem, ShortClick,
}

module _ (memory : Str → Str) (stack : ℕ → Str) where
  unfoldable pub click : Click → App → Option App
  click (click_regist name pwd) a = some (on_regist memory name pwd a)
  click (click_login name pwd) a = some (on_login memory name pwd a)
  click (click_find_user name) a = some (on_find_user memory name a)
  click click_online_user a = some (on_online_user memory a)
  click click_flush_friend a = some (on_flush_friend memory a)
  click (click_del item agreed) a = some (on_del memory item agreed a)
  click (click_chat item) a = some (on_chat memory item a)
  click (click_send text) a = some (on_send memory text a)
  click (click_online_item name) a = some (on_online_item memory name a)
  click (click_mkdir name) a = some (on_mkdir memory stack name a)
  click click_flush_file a = some (on_flush_file memory stack a)
  click (click_del_dir item agreed) a = on_del_dir memory stack item agreed a
  click (click_rename item new) a = some (on_rename memory stack item new a)
  click click_return a = some (on_return memory stack a)
  click (click_file_item name) a = on_file_item memory stack name a
  click (click_mv item agreed) a = on_mv memory stack item agreed a
  click (click_share item) a = some (on_share memory stack item a)
  click (click_upload path size) a = some (on_upload memory stack path size a)
  click (click_ok names) a = some (on_ok memory stack names a)

  module _ (readable : IsReadable memory) (stacked : IsStack stack) where
    flush_friend-IsStream :
        (a : App) → IsStream a.written → IsStream (flush_friend_page memory a).written
    unfolding flush_friend_page flush_friend_of
    flush_friend-IsStream a h =
        send_msg-IsStream _ a
          (one_name-IsFrame memory stack readable stacked flush_friend_request a.login_name) h

    flush_file-IsStream :
        (a : App)
        → length a.cur_path < 2 ^ 30
        → IsStream a.written
        → IsStream (flush_file_page memory a).written
    unfolding flush_file_page flush_file_of
    flush_file-IsStream a s h =
        send_msg-IsStream _ a (with_text-IsFrame flush_file_request a.cur_path s) h

    length-take : (n : ℕ) (l : Str) → length (take n l) ≤ length l
    length-take zero l = omega arith
    length-take (suc n) [] = omega arith
    length-take (suc n) (x ∷ l) = omega (arith, length-take n l)

    parent_path-le : (p : Str) → length (parent_path p) ≤ length p
    unfolding parent_path
    parent_path-le p = by (last_slash p)
      where
        by :
            (o : Option ℕ)
            → length (elim o as (λ x. Str) [ some i ↦ take i p | none ↦ take (length p - 1) p ])
              ≤ length p
        by none = length-take (length p - 1) p
        by (some i) = length-take i p

    mv_to-IsStream :
        (tar : Str) (agreed : Bool) (a : App)
        → length a.mv_file_path + length tar < 2 ^ 30
        → IsStream a.written
        → IsStream (mv_to memory stack tar agreed a).written
    unfolding mv_to
    mv_to-IsStream tar false a s h = h
    mv_to-IsStream tar true a s h =
        send_msg-IsStream _ a (mv_pdu-IsFrame memory stack readable stacked a.mv_file_path tar s) h

    mv_second-Sends :
        (item : Option Str) (agreed : Bool) (a : App)
        → IsShort a
        → AllReadable a.file_infos
        → ShortItem item
        → IsStream a.written
        → Sends (mv_second memory stack item agreed a)
    unfolding mv_second
    mv_second-Sends none agreed a s l t h =
        mv_to-IsStream (join a.cur_path a.mv_file_name) agreed a
          (omega
            (arith, s.cur, s.mv_name, s.mv_path, length-append a.cur_path (b'/' ∷ a.mv_file_name)))
          h
    mv_second-Sends (some name) agreed a s l t h =
        Sends-then (is_listed_file name a.file_infos) _ (is_listed_file-defined name a.file_infos l)
          (λ is_file. if_IsStream is_file _ _ h (
            mv_to-IsStream (join (join a.cur_path name) a.mv_file_name) agreed a
              (omega (
                arith,
                s.cur,
                s.mv_name,
                s.mv_path,
                t,
                length-append a.cur_path (b'/' ∷ name),
                length-append (join a.cur_path name) (b'/' ∷ a.mv_file_name),
              ))
              h))

    pub click-Sends :
        (c : Click) (a : App)
        → IsShort a
        → AllReadable a.file_infos
        → ShortClick c
        → IsStream a.written
        → Sends (click c a)
    unfolding click on_regist on_login on_find_user on_online_user on_flush_friend on_del on_chat
        on_send on_online_item on_mkdir on_flush_file on_del_dir on_rename on_return on_file_item
        on_mv mv_first on_share on_upload on_ok
    click-Sends (click_regist name pwd) a s l t h = if_IsStream _ _ _ h (
        send_msg-IsStream _ a
          (two_names-IsFrame memory stack readable stacked regist_request name pwd) h)
    click-Sends (click_login name pwd) a s l t h =
        send_msg-IsStream _ _
          (two_names-IsFrame memory stack readable stacked login_request name pwd) h
    click-Sends (click_find_user name) a s l t h = if_IsStream (is_empty name) _ _ h (
        if_IsStream (ltb 32 (length name)) _ _ h (
          send_msg-IsStream _ a
            (one_name-IsFrame memory stack readable stacked find_user_request name) h))
    click-Sends click_online_user a s l t h =
        send_msg-IsStream _ _ (mk-IsFrame online_user_request 0 (omega arith)) h
    click-Sends click_flush_friend a s l t h = flush_friend-IsStream a h
    click-Sends (click_del none agreed) a s l t h = h
    click-Sends (click_del (some name) false) a s l t h = h
    click-Sends (click_del (some name) true) a s l t h =
        send_msg-IsStream _ a
          (two_names-IsFrame memory stack readable stacked del_friend_request a.login_name name) h
    click-Sends (click_chat none) a s l t h = h
    click-Sends (click_chat (some name)) a s l t h = h
    click-Sends (click_send text) a s l t h = if_IsStream (is_empty text) _ _ h (
        send_msg-IsStream _ a
          (chat_pdu-IsFrame memory stack readable stacked a.login_name a.chat_name text
            (omega (arith, t)))
          h)
    click-Sends (click_online_item name) a s l t h =
        send_msg-IsStream _ a
          (two_names-IsFrame memory stack readable stacked add_friend_request a.login_name name) h
    click-Sends (click_mkdir name) a s l t h = if_IsStream _ _ _ h (
        send_msg-IsStream _ a
          (text_name-IsFrame memory stack readable stacked mkdir_request name a.cur_path
            (omega (arith, s.cur)))
          h)
    click-Sends click_flush_file a s l t h = flush_file-IsStream a (omega (arith, s.cur)) h
    click-Sends (click_del_dir none agreed) a s l t h = h
    click-Sends (click_del_dir (some name) agreed) a s l t h =
        Sends-then (is_listed_file name a.file_infos) _ (is_listed_file-defined name a.file_infos l)
          (λ is_file. if_IsStream is_file _ _ h (
            if_IsStream agreed _ _
              (send_msg-IsStream _ a
                (with_text-IsFrame del_dir_request (join a.cur_path name)
                  (omega (arith, s.cur, t, length-append a.cur_path (b'/' ∷ name))))
                h)
              h))
    click-Sends (click_rename none new) a s l t h = h
    click-Sends (click_rename (some old) new) a s l t h = if_IsStream _ _ _ h (
        send_msg-IsStream _ a
          (rename_pdu-IsFrame memory stack readable stacked old new a.cur_path
            (omega (arith, s.cur)))
          h)
    click-Sends click_return a s l t h = by (str_dec a.cur_path a.user_path)
      where
        by :
            (d : Dec (a.cur_path ≡ a.user_path))
            → IsStream
                (ite d a
                  (flush_file_page memory (record a { cur_path = parent_path a.cur_path }))).written
        by (yes e) = h
        by (no e) =
            flush_file-IsStream (record a { cur_path = parent_path a.cur_path })
              (omega (arith, s.cur, parent_path-le a.cur_path)) h
    click-Sends (click_file_item name) a s l t h =
        Sends-then (is_listed_file name a.file_infos) _ (is_listed_file-defined name a.file_infos l)
          (λ is_file. if_IsStream is_file _ _ h (
            flush_file-IsStream (record a { cur_path = join a.cur_path name })
              (omega (arith, s.cur, t, length-append a.cur_path (b'/' ∷ name))) h))
    click-Sends (click_mv item agreed) a s l t h = by a.mv_asks
      where
        first : (i : Option Str) → IsStream (mv_first memory stack i a).written
        first none = h
        first (some name) = h

        by :
            (b : Bool)
            → Sends (
                if b
                then mv_second memory stack item agreed (record a { mv_asks = false })
                else some (mv_first memory stack item a))
        by true =
            mv_second-Sends item agreed (record a { mv_asks = false })
              (record { cur = s.cur; mv_name = s.mv_name; mv_path = s.mv_path; share = s.share }) l
              t h
        by false = first item
    click-Sends (click_share none) a s l t h = h
    click-Sends (click_share (some name)) a s l t h = h
    click-Sends (click_upload path size) a s l t h = if_IsStream (is_empty path) _ _ h (
        send_msg-IsStream _ _
          (init_pdu-IsFrame memory stack readable stacked (after_slash path path) size a.cur_path
            (omega (arith, s.cur)))
          h)
    click-Sends (click_ok names) a s l t h =
        send_msg-IsStream _ a
          (share_pdu-IsFrame memory stack readable stacked a.login_name names a.share_file_path
            (omega (arith, s.share, t)))
          h
