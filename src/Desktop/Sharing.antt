-- ===== src/Desktop/Sharing.antt =====
-- The page of Client/sharefile.cpp: a file path that is sent with the names of the selected friends.
use youdge.Base.{ℕ, suc, ◌+◌, ◌*◌, List, [], ◌∷◌, Str, length}
use youdge.Pdu.{Pdu, mk_pdu}
use youdge.Handlers.Types.{number, share_file_request}
use youdge.Desktop.{App, put_data, put_msg, field, send_msg}
use youdge.Desktop.Browser.{int_field}

module _ (behind : Str → Str) (stack : ℕ → Str) where
  -- The loop over the selected friends, from the `i`-th on.
  unfoldable pub put_names : ℕ → List Str → Pdu → Pdu
  put_names i [] p = p
  put_names i (name ∷ names) p = put_names (suc i) names (put_msg (i * 32) (field behind name) p)

  unfoldable pub share_pdu : Str → List Str → Str → Pdu
  share_pdu cur names path =
      let n = length names in
      let p = mk_pdu (number share_file_request) (n * 32 + length path + 1) in
      let params = put_data 32 (int_field behind stack n) (put_data 0 (field behind cur) p) in
      put_msg (n * 32) path (put_names 0 names params)

  unfoldable pub on_ok : List Str → App → App
  on_ok names a = send_msg (share_pdu a.login_name names a.share_file_path) a
