-- ===== src/Desktop/Browser.antt =====
-- The requests of Client/file.cpp: the list of files, and what the buttons of the page send. An
-- `item` is the selected item's text. `stack` is what lies in memory behind an `int`, which the
-- source copies with 32 bytes.
use youdge.Base.{
  ℕ, suc, ◌+◌, ◌-◌, ◌/◌, ◌^◌, Bool, true, false, ◌||◌, List, [], ◌∷◌, ◌++◌, Option, none, some, Str,
  str_dec, ite, length, take, is_empty, ltb, ◌==◌, if◌then◌else◌, ◌>>=◌,
}
use youdge.Pdu.{Pdu, mk_pdu, le32}
use youdge.Handlers.{cstr, join}
use youdge.Handlers.Files.{after_slash}
use youdge.Handlers.Types.{
  number, mkdir_request, del_dir_request, rename_file_request, mv_file_request,
  upload_file_init_request,
}
use youdge.Desktop.{
  App, FileInfo, not_a_dir, dir_name_illegal, file_name_illegal, choose_dir, choose_file, put_data,
  put_msg, field, with_text, send_msg, notify, flush_file_page,
}

-- The texts of the items.
unfoldable pub item_texts : List FileInfo → Option (List Str)
item_texts [] = some []
item_texts (i ∷ l) = do name ← cstr i.ca_name; names ← item_texts l; some (name ∷ names)

unfoldable pub update_file_list : List FileInfo → App → Option App
update_file_list infos a = do
  names ← item_texts infos
  some (record a { file_infos = infos; file_items = names })

-- The loop that looks for a listed file with this name that is no directory.
unfoldable pub is_listed_file : Str → List FileInfo → Option Bool
is_listed_file name [] = some false
is_listed_file name (i ∷ l) = do
  other ← cstr i.ca_name
  let rest = is_listed_file name l
  ite (str_dec name other) (if i.file_type == 0 then rest else some true) rest

-- `lastIndexOf('/')`
unfoldable pub last_slash : Str → Option ℕ
last_slash [] = none
last_slash (c ∷ l) = elim (last_slash l) [
  | some i ↦ some (suc i)
  | none ↦ if c == b'/' then some 0 else none
]

-- `remove(index, size - index)`, where -1 is the index of the last character.
unfoldable pub parent_path : Str → Str
parent_path path = elim (last_slash path) [
  | some i ↦ take i path
  | none ↦ take (length path - 1) path
]

-- A `qint64` that is not negative.
abbrev pub le64 : ℕ → Str
le64 n = le32 n ++ le32 (n / 2 ^ 32)

module _ (behind : Str → Str) (stack : ℕ → Str) where
  unfoldable pub on_mkdir : Str → App → App
  on_mkdir name a =
      if is_empty name || ltb 32 (length name)
      then notify dir_name_illegal a
      else send_msg (put_data 0 (field behind name) (with_text mkdir_request a.cur_path)) a

  unfoldable pub on_flush_file : App → App
  on_flush_file a = flush_file_page behind a

  unfoldable pub on_del_dir : Option Str → Bool → App → Option App
  on_del_dir none agreed a = some a
  on_del_dir (some name) agreed a = do
    is_file ← is_listed_file name a.file_infos
    let sent = send_msg (with_text del_dir_request (join a.cur_path name)) a
    some (if is_file then notify not_a_dir a else if agreed then sent else a)

  unfoldable pub rename_pdu : Str → Str → Str → Pdu
  rename_pdu old new dir =
      put_data 32 (field behind new)
        (put_data 0 (field behind old) (with_text rename_file_request dir))

  unfoldable pub on_rename : Option Str → Str → App → App
  on_rename none new a = a
  on_rename (some old) new a =
      if is_empty new || ltb 32 (length new)
      then notify file_name_illegal a
      else send_msg (rename_pdu old new a.cur_path) a

  unfoldable pub on_return : App → App
  on_return a =
      ite (str_dec a.cur_path a.user_path) a
        (flush_file_page behind (record a { cur_path = parent_path a.cur_path }))

  unfoldable pub on_file_item : Str → App → Option App
  on_file_item name a = do
    is_file ← is_listed_file name a.file_infos
    let there = flush_file_page behind (record a { cur_path = join a.cur_path name })
    some (if is_file then notify not_a_dir a else there)

  -- The 32 bytes from an `int` on.
  unfoldable pub int_field : ℕ → Str
  int_field n = le32 n ++ take 28 (stack n)

  unfoldable pub mv_pdu : Str → Str → Pdu
  mv_pdu src tar =
      let p = mk_pdu (number mv_file_request) (length src + length tar + 1) in
      let params = put_data 32 (int_field (length tar)) (put_data 0 (int_field (length src)) p) in
      put_msg (length src) tar (put_msg 0 src params)

  -- The second click, on a target that is no listed file.
  unfoldable pub mv_to : Str → Bool → App → App
  mv_to tar false a = a
  mv_to tar true a = send_msg (mv_pdu a.mv_file_path tar) a

  -- The target is the current directory, or the selected one in it.
  unfoldable pub mv_second : Option Str → Bool → App → Option App
  mv_second none agreed a = some (mv_to (join a.cur_path a.mv_file_name) agreed a)
  mv_second (some name) agreed a = do
    is_file ← is_listed_file name a.file_infos
    let target = join (join a.cur_path name) a.mv_file_name
    some (if is_file then notify not_a_dir a else mv_to target agreed a)

  unfoldable pub mv_first : Option Str → App → App
  mv_first none a = a
  mv_first (some name) a =
      notify choose_dir
        (record a { mv_file_name = name; mv_file_path = join a.cur_path name; mv_asks = true })

  unfoldable pub on_mv : Option Str → Bool → App → Option App
  on_mv item agreed a =
      let second = mv_second item agreed (record a { mv_asks = false }) in
      if a.mv_asks then second else some (mv_first item a)

  unfoldable pub on_share : Option Str → App → App
  on_share none a = notify choose_file a
  on_share (some name) a = record a {
    share_file_path = join a.cur_path name;
    share_friends = a.friends;
    share_shown = true;
  }

  unfoldable pub init_pdu : Str → ℕ → Str → Pdu
  init_pdu name size dir =
      put_data 32 (le64 size)
        (put_data 0 (field behind name) (with_text upload_file_init_request dir))

  -- The chosen path, and the size of the file there.
  unfoldable pub on_upload : Str → ℕ → App → App
  on_upload path size a =
      let b = record a { upload_file_path = path } in
      if is_empty path then b else send_msg (init_pdu (after_slash path path) size a.cur_path) b
