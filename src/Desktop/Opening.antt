-- ===== src/Desktop/Opening.antt =====
-- The start of an upload, and a renaming: the requests of Client/file.cpp at the handlers of
-- Server/msghandler.cpp.
use mathlib.Core.List.{append_assoc}
use youdge.Base.{
  ℕ, ◌^◌, ◌<◌, ◌≡◌, refl, ap, ◌∙◌, Bool, [], ◌∷◌, ◌++◌, some, Str, length, drop, arith,
  if◌then◌else◌, ◌>>=◌,
}
use youdge.Base.Int.{pos}
use youdge.Pdu.{Pdu, mk_pdu, zeros, le32, u32}
use youdge.Pdu.Wire.{length-zeros, drop-append}
use youdge.Users.{Engine}
use youdge.Handlers.{
  State, Disk, cstr, name_at, respond, bool_byte, join, i64, rename_file, upload_file_init,
}
use youdge.Handlers.Types.{
  MsgType, number, rename_file_request, rename_file_respond, upload_file_init_request,
  upload_file_init_respond,
}
use youdge.Handlers.Files.{handle_pdu}
use youdge.Handlers.Upload.{uploading}
use youdge.Desktop.{
  App, field, put_at, with_text, upload_init_failed, index_notice, get_index, notify,
}
use youdge.Desktop.Fields.{
  IsText, IsName, IsReadable, two_fields, length-field, length-drop, cstr-append, name_at-first,
  name_at-second, with_text-ca_msg, put_at-zero, put_at-append,
}
use youdge.Desktop.Browser.{rename_pdu, init_pdu, le64}
use youdge.Desktop.Replies.{handle_res, upload_file_init_res, start_upload}
use youdge.Desktop.Session.{bool_at-respond}

-- A size goes through the parameters unchanged.
pub i64-le64 : (n : ℕ) (rest : Str) → n < 2 ^ 63 → i64 (le64 n ++ rest) ≡ pos n
unfolding i64 le32 u32
i64-le64 n rest h = ground arith

-- The string of a message with one text.
cstr-with_text :
    (type : MsgType) (text : Str)
    → IsText text
    → length text < 2 ^ 31
    → cstr (with_text type text).ca_msg ≡ some text
cstr-with_text type text h small =
    ap cstr (with_text-ca_msg type text small) ∙ cstr-append text [] h

module _ {W : Type 0} (exec : Engine W) (disk : Disk W) (root_path : Str) (behind : Str → Str)
    (memory : Str → Str) (stack : ℕ → Str) where
  init_pdu-ca_data :
      (name dir : Str) (size : ℕ)
      → IsReadable memory
      → (rest : Str) × ((init_pdu memory stack name size dir).ca_data
          ≡ field memory name ++ (le64 size ++ rest))
  unfolding init_pdu with_text mk_pdu le32
  init_pdu-ca_data name dir size r =
      let f = field memory name in
      let long = length-field memory name r in
      let left = drop (length f) (zeros 64) in
      (
        drop 8 left,
        ap (put_at 32 (le64 size)) (put_at-zero f (zeros 64) (omega (arith, long, length-zeros 64)))
            ∙ put_at-append 32 f (le64 size) left long
                (omega (arith, long, length-zeros 64, length-drop (length f) (zeros 64)))
            ∙ append_assoc f (le64 size) (drop 8 left),
      )

  init_pdu-handle_pdu :
      (name dir : Str) (size depth : ℕ) (s : State W)
      → handle_pdu exec disk root_path behind depth s (init_pdu memory stack name size dir)
        ≡ upload_file_init exec disk root_path behind s (init_pdu memory stack name size dir)
  unfolding handle_pdu init_pdu with_text mk_pdu
  init_pdu-handle_pdu name dir size depth s = refl

  init_pdu-dir :
      (name dir : Str) (size : ℕ)
      → IsText dir
      → length dir < 2 ^ 31
      → cstr (init_pdu memory stack name size dir).ca_msg ≡ some dir
  unfolding init_pdu
  init_pdu-dir name dir size h small = cstr-with_text upload_file_init_request dir h small

  init_respond-handle_res :
      (agreed ok : Bool) (a : App)
      → handle_res memory agreed (respond upload_file_init_respond (bool_byte ok)) a
        ≡ some (if ok then start_upload memory a else index_notice memory upload_init_failed a)
  unfolding handle_res respond mk_pdu upload_file_init_res
  init_respond-handle_res agreed ok a =
      ap (λ b. some (if b then start_upload memory a else index_notice memory upload_init_failed a))
        (bool_at-respond upload_file_init_respond ok)

  -- For a file name of fewer than 32 bytes, a directory shorter than 2 ^ 31 and a size below 2 ^ 63,
  -- the name and the directory without a zero byte, and readable memory behind the name: the
  -- request for an upload opens the file of this name in the directory, and the server waits for as
  -- many bytes as the client's file has; on the reply, the client has made its pages, and adds its
  -- chosen path to the uploads it started if the server could open the file, or else shows the box
  -- that the upload failed.
  pub upload_file_init-handle_res :
      (name dir : Str) (size depth : ℕ) (s : State W) (agreed : Bool) (a : App)
      → IsReadable memory
      → IsName name
      → IsText dir
      → length dir < 2 ^ 31
      → size < 2 ^ 63
      → (r : Pdu) × (handle_pdu exec disk root_path behind depth s
            (init_pdu memory stack name size dir)
          ≡ some (
            uploading exec disk root_path behind s.sockets s.self size 0
                (disk.open_file s.world (join dir name)).0,
            some r,
          ))
        × (handle_res memory agreed r a
            ≡ some (
                if (disk.open_file s.world (join dir name)).1
                then record (get_index memory a) {
                  uploads =
                      (get_index memory a).uploads ++ ((get_index memory a).upload_file_path ∷ []);
                }
                else notify upload_init_failed (get_index memory a)))
  unfolding upload_file_init start_upload
  upload_file_init-handle_res name dir size depth s agreed a r n h small fits =
      let p = init_pdu memory stack name size dir in
      let (rest, params) = init_pdu-ca_data name dir size r in
      let first : name_at 0 p ≡ some name = name_at-first memory name _ p r n params in
      let folder : cstr p.ca_msg ≡ some dir = init_pdu-dir name dir size h small in
      let file_size : i64 (drop 32 p.ca_data) ≡ pos size =
        ap (λ d. i64 (drop 32 d)) params
        ∙ ap i64
            (drop-append 32 (field memory name) (le64 size ++ rest) (length-field memory name r))
        ∙ i64-le64 size rest fits in
      let ok = (disk.open_file s.world (join dir name)).1 in
      (
        respond upload_file_init_respond (bool_byte ok),
        init_pdu-handle_pdu name dir size depth s ∙ rw (first, folder, file_size, ◌>>=◌) refl,
        init_respond-handle_res agreed ok a,
      )

  rename_pdu-ca_data :
      (old new dir : Str)
      → IsReadable memory
      → (rename_pdu memory stack old new dir).ca_data ≡ field memory old ++ field memory new
  unfolding rename_pdu with_text mk_pdu
  rename_pdu-ca_data old new dir r =
      two_fields (field memory old) (field memory new) (zeros 64) (length-field memory old r)
        (length-field memory new r) (length-zeros 64)

  rename_pdu-dir :
      (old new dir : Str)
      → IsText dir
      → length dir < 2 ^ 31
      → cstr (rename_pdu memory stack old new dir).ca_msg ≡ some dir
  unfolding rename_pdu
  rename_pdu-dir old new dir h small =
      cstr-with_text youdge.Handlers.Types.rename_file_request dir h small

  rename_pdu-handle_pdu :
      (old new dir : Str) (depth : ℕ) (s : State W)
      → handle_pdu exec disk root_path behind depth s (rename_pdu memory stack old new dir)
        ≡ rename_file exec disk root_path behind s (rename_pdu memory stack old new dir)
  unfolding handle_pdu rename_pdu with_text mk_pdu
  rename_pdu-handle_pdu old new dir depth s = refl

  -- A request to rename makes the server rename the file in the client's directory.
  pub rename_file-rename :
      (old new dir : Str) (depth : ℕ) (s : State W)
      → IsReadable memory
      → IsName old
      → IsName new
      → IsText dir
      → length dir < 2 ^ 31
      → handle_pdu exec disk root_path behind depth s (rename_pdu memory stack old new dir)
        ≡ some (
          record s { world = (disk.rename s.world (join dir old) (join dir new)).0 },
          some (
              respond rename_file_respond
                (bool_byte (disk.rename s.world (join dir old) (join dir new)).1)),
        )
  unfolding rename_file
  rename_file-rename old new dir depth s r o n h small =
      let p = rename_pdu memory stack old new dir in
      let params = rename_pdu-ca_data old new dir r in
      let first : name_at 0 p ≡ some old = name_at-first memory old _ p r o params in
      let second : name_at 32 p ≡ some new =
        name_at-second memory new _ p r n (length-field memory old r) params in
      let folder : cstr p.ca_msg ≡ some dir = rename_pdu-dir old new dir h small in
      rename_pdu-handle_pdu old new dir depth s ∙ rw (first, second, folder, ◌>>=◌) refl
