-- ===== src/Desktop/Uploader.antt =====
-- Client/uploader.cpp: the thread that reads the file and sends its pieces. The file is the
-- parameter `read`: a read of at most so many bytes, with the new position and the bytes, or
-- `none` for an error. The loop has fuel, and `none` as the result means that it still runs.
use youdge.Base.{
  ℕ, zero, suc, ◌+◌, Bool, true, false, List, [], ◌∷◌, Option, none, some, Str, length, ◌>>=◌,
}
use youdge.Pdu.{Pdu, sizeof_pdu, mk_pdu}
use youdge.Handlers.{overwrite}
use youdge.Handlers.Types.{number, upload_file_data_request}
use youdge.Desktop.{App, upload_open_failed, upload_read_failed, send_msg, index_notice}

-- The size of a read.
abbrev pub piece_size : ℕ
piece_size = 40960

-- The PDU of the bytes that were read into `caMsg`.
unfoldable pub piece_pdu : Str → Pdu
piece_pdu bytes =
    let p = mk_pdu (number upload_file_data_request) piece_size in
    record p {
      ca_msg = overwrite bytes p.ca_msg;
      msg_len = length bytes;
      pdu_len = length bytes + sizeof_pdu;
    }

module _ {F : Type 0} (read : ℕ → F → F × Option Str) where
  -- What the loop emits: the PDUs, and whether a read failed.
  unfoldable pub upload_loop : ℕ → F → Option (List Pdu × Bool)
  upload_loop zero f = none
  upload_loop (suc fuel) f = elim (read piece_size f).1 [
    | none ↦ some ([], true)
    | some [] ↦ some ([], false)
    | some (c ∷ bytes) ↦ do
      (pdus, failed) ← upload_loop fuel (read piece_size f).0
      some (piece_pdu (c ∷ bytes) ∷ pdus, failed)
  ]

-- The slots of `uploadPDU` and `handlError`.
unfoldable pub send_all : List Pdu → App → App
send_all [] a = a
send_all (p ∷ l) a = send_all l (send_msg p a)

module _ {F : Type 0} (read : ℕ → F → F × Option Str) (behind : Str → Str) where
  -- `Uploader::uploadFile`, with the file if it could be opened.
  unfoldable pub upload_file : ℕ → Option F → App → Option App
  upload_file fuel none a = some (index_notice behind upload_open_failed a)
  upload_file fuel (some f) a = do
    (pdus, failed) ← upload_loop read fuel f
    let b = send_all pdus a
    some (elim failed [ true ↦ index_notice behind upload_read_failed b | false ↦ b ])
