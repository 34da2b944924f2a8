-- ===== src/Desktop/Tests.antt =====
-- The theorems on the client's requests at a small server and a small client.
use youdge.Base.{
  ℕ, ◌≡◌, refl, sym, ap, true, false, List, [], ◌∷◌, ◌++◌, none, some, Str, codes, arith,
  if◌then◌else◌, map,
}
use youdge.Pdu.{Pdu, mk_pdu, encode}
use youdge.Users.{handle_login, handle_online_user}
use youdge.Handlers.{State, Sock, FileEntry, respond, bool_byte, join}
use youdge.Handlers.Files.{handle_pdu}
use youdge.Handlers.Types.{
  number, regist_request, login_request, online_user_request, mv_file_respond, share_file_respond,
  share_file_agree_respond,
}
use youdge.Handlers.Upload.{uploading}
use youdge.Handlers.Replies.{IsReply, handle_pdu-IsReply}
use youdge.Desktop.{
  App, send_msg, notify, login_failed, get_index, flush_file_of, upload_init_failed,
}
use youdge.Desktop.Friends.{two_names, on_regist, chat_pdu}
use youdge.Desktop.Browser.{mv_pdu, init_pdu}
use youdge.Desktop.Replies.{handle_res}
use youdge.Desktop.Session.{login-handle_res, chat-handle_res, regist-unterminated}
use youdge.Desktop.Names.{IsWithout, online_user-handle_res}
use youdge.Desktop.Listing.{AllEntries, AllReal, info_of, flush_file-handle_res}
use youdge.Desktop.Moving.{mv_file-rename}
use youdge.Desktop.Opening.{upload_file_init-handle_res}
use youdge.Desktop.Sharing.{share_pdu}
use youdge.Desktop.Delivered.{Delivered, EachGets}
use youdge.Desktop.Accept.{offer, accept}
use youdge.Desktop.Offer.{share_file-copy}
use youdge.Desktop.Trees.{
  Move, go_in, go_back, Has, TreeMoves, enters, refuses, leaves, at_home, ends, further,
}
use youdge.Desktop.Paths.{page_moves, IsIn, page_moves-IsIn}
use youdge.Socket.Framing.{encode_all}
use youdge.Desktop.Stream.{IsStream, Sends, IsShort, click_send}
use youdge.Desktop.Clicks.{click, click-Sends}
use youdge.Desktop.Samples.{
  memory, stack, readable, stacked, accepting, entry, paper, server, client, ann-IsName, bob-IsName,
}

login-handle_res_example :
    (s' : State Str) × (r : Pdu) × (handle_pdu accepting paper [] memory 1 server
        (two_names memory (number login_request) (codes "ann") (codes "bob"))
      ≡ some (s', some r))
    × (s'.world ≡ (handle_login accepting server.world (codes "ann") (codes "bob")).0)
    × (handle_res memory true r client
        ≡ some (
            if (handle_login accepting server.world (codes "ann") (codes "bob")).1
            then record (get_index memory client) { index_shown = true }
            else notify login_failed client))
login-handle_res_example =
    login-handle_res accepting paper [] memory memory (codes "ann") (codes "bob") 1 server true
      client readable ann-IsName bob-IsName

chat-handle_res_example :
    ((sockets' : List Sock) × (handle_pdu accepting paper [] memory 1 server
          (chat_pdu memory (codes "bob") (codes "ann") (codes "hi"))
        ≡ some (record server { sockets = sockets' }, none))
      × Delivered
          (codes "ann")
          (encode (chat_pdu memory (codes "bob") (codes "ann") (codes "hi")))
          server.sockets
          sockets')
    × (handle_res memory true (chat_pdu memory (codes "bob") (codes "ann") (codes "hi")) client
        ≡ some (record (get_index memory client) {
          chat_shown = true;
          show_te =
              (get_index memory client).show_te
              ++ ((codes "bob" ++ (b':' ∷ b' ' ∷ codes "hi")) ∷ []);
          chat_title = codes "bob";
          chat_name = codes "bob";
        }))
chat-handle_res_example =
    chat-handle_res accepting paper [] memory memory (codes "bob") (codes "ann") (codes "hi") 1
      server true client readable bob-IsName ann-IsName (omega arith) (omega arith)

abbrev long_name : Str
long_name = codes "abcdefghijklmnopqrstuvwxyzabcdef"

regist-unterminated_example :
    (on_regist memory long_name (codes "pw") client
      ≡ send_msg (two_names memory (number regist_request) long_name (codes "pw")) client)
    × (handle_pdu accepting paper [] memory 1 server
          (two_names memory (number regist_request) long_name (codes "pw"))
        ≡ none)
regist-unterminated_example =
    regist-unterminated accepting paper [] memory memory long_name (codes "pw") 1 server client
      readable (omega arith) refl (omega arith) (omega arith)

ann_AllNames : (codes "bob" ∷ []) ≡ (handle_online_user accepting server.world).1
unfolding handle_online_user
ann_AllNames = refl

online_user-handle_res_example :
    (r : Pdu) × (handle_pdu accepting paper [] memory 1 server
        (mk_pdu (number online_user_request) 0)
      ≡ some (record server { world = (handle_online_user accepting server.world).0 }, some r))
    × (l : List Str) × IsWithout client.login_name (codes "bob" ∷ []) l
    × (handle_res memory true r client
        ≡ some (record (get_index memory client) { online_users = l }))
online_user-handle_res_example =
    online_user-handle_res accepting paper [] memory memory (codes "bob" ∷ []) 1 server true client
      readable (sym ann_AllNames) (bob-IsName, tt)

abbrev one_dot : FileEntry
one_dot = entry (codes ".") true

abbrev two_dots : FileEntry
two_dots = entry (codes "..") true

abbrev x_dir : FileEntry
x_dir = entry (codes "x") true

x_AllReal : AllReal (x_dir ∷ [])
x_AllReal = ((record { text = omega arith; short = omega arith }, (λ q. cc), λ q. cc), tt)

flush_file-handle_res_example :
    (r : Pdu) × (handle_pdu accepting paper [] memory 1 server (flush_file_of memory client)
      ≡ some (server, some r))
    × (handle_res memory true r client
        ≡ some (record (get_index memory client) {
          file_infos = map (info_of memory) (x_dir ∷ []);
          file_items = map (λ (e : FileEntry). e.file_name) (x_dir ∷ []);
        }))
flush_file-handle_res_example =
    flush_file-handle_res accepting paper [] memory memory [] [] (x_dir ∷ []) one_dot two_dots 1
      server true client readable (omega arith) (omega arith) refl refl refl tt tt x_AllReal
      (omega arith)

mv_file-rename_example :
    handle_pdu accepting paper [] memory 1 server (mv_pdu memory stack (codes "a/b") (codes "c/b"))
    ≡ some (
      record server { world = (paper.rename server.world (codes "a/b") (codes "c/b")).0 },
      some (
          respond mv_file_respond
            (bool_byte (paper.rename server.world (codes "a/b") (codes "c/b")).1)),
    )
mv_file-rename_example =
    mv_file-rename memory stack accepting paper [] memory (codes "a/b") (codes "c/b") 1 server
      stacked (omega arith) (omega arith) (omega arith)

upload_file_init-handle_res_example :
    (r : Pdu) × (handle_pdu accepting paper [] memory 1 server
        (init_pdu memory stack (codes "ann") 70000 (codes "home"))
      ≡ some (
        uploading accepting paper [] memory server.sockets server.self 70000 0
            (paper.open_file server.world (join (codes "home") (codes "ann"))).0,
        some r,
      ))
    × (handle_res memory true r client
        ≡ some (
            if (paper.open_file server.world (join (codes "home") (codes "ann"))).1
            then record (get_index memory client) {
              uploads =
                  (get_index memory client).uploads
                  ++ ((get_index memory client).upload_file_path ∷ []);
            }
            else notify upload_init_failed (get_index memory client)))
upload_file_init-handle_res_example =
    upload_file_init-handle_res accepting paper [] memory memory stack (codes "ann") (codes "home")
      70000 1 server true client readable ann-IsName (omega arith) (omega arith) (omega arith)

abbrev a_dir : FileEntry
a_dir = entry (codes "a") true

abbrev f_file : FileEntry
f_file = entry (codes "f") false

-- Each directory has a directory and a file.
abbrev tree : Str → List FileEntry
tree path = a_dir ∷ f_file ∷ []

tree-AllEntries : (p : Str) → AllEntries (tree p)
tree-AllEntries p = (
  record { text = omega arith; short = omega arith },
  (record { text = omega arith; short = omega arith }, tt),
)

abbrev first_byte : Str → ℕ
first_byte [] = 0
first_byte (c ∷ name) = c

a_dir-Has : Has (codes "a") true (a_dir ∷ f_file ∷ [])
a_dir-Has = record {
  front = [];
  entry = a_dir;
  back = f_file ∷ [];
  whole = refl;
  named = refl;
  kind = refl;
  before = tt;
  behind = ((λ q. omega (arith, ap first_byte q)), tt);
}

f_file-Has : Has (codes "f") false (a_dir ∷ f_file ∷ [])
f_file-Has = record {
  front = a_dir ∷ [];
  entry = f_file;
  back = [];
  whole = refl;
  named = refl;
  kind = refl;
  before = ((λ q. omega (arith, ap first_byte q)), tt);
  behind = tt;
}

abbrev tour : List Move
tour = go_in (codes "a") ∷ go_in (codes "f") ∷ go_back ∷ go_back ∷ []

toured : TreeMoves tree (codes "home") tour [] []
toured = further _ _ _ (codes "a" ∷ []) _ (enters (codes "a") [] (omega arith) a_dir-Has) (
    further _ _ _ (codes "a" ∷ []) _ (refuses (codes "f") (codes "a" ∷ []) f_file-Has)
      (further _ _ _ [] _ (leaves (codes "a") []) (further _ _ _ [] _ at_home (ends []))))

abbrev visitor : App
visitor = record client { file_infos = map (info_of memory) (tree (codes "home")) }

home-IsIn : IsIn memory stack memory tree (codes "home") [] visitor
home-IsIn = record { current = refl; home = refl; listed = refl; plain = tt }

page_moves-IsIn_example :
    (b : App) × (page_moves memory stack memory tree tour visitor ≡ some b)
    × IsIn memory stack memory tree (codes "home") [] b
page_moves-IsIn_example =
    page_moves-IsIn memory stack memory tree (codes "home") tour [] [] visitor tree-AllEntries
      home-IsIn toured

handle_pdu-IsReply_example : IsReply 3 (
    handle_pdu accepting paper [] memory 1 server
      (two_names memory (number login_request) (codes "ann") (codes "bob")))
unfolding two_names mk_pdu
handle_pdu-IsReply_example =
    handle_pdu-IsReply accepting paper [] memory 1 server
      (two_names memory (number login_request) (codes "ann") (codes "bob"))

share_file-copy_example :
    let copy =
      paper.copy server.world (codes "d/x") (join (join [] client.login_name) (codes "x")) in
    ((sockets' : List Sock) × (handle_pdu accepting paper [] memory 1 server
          (share_pdu memory stack (codes "ann") (codes "bob" ∷ []) (codes "d/x"))
        ≡ some (record server { sockets = sockets' }, some (mk_pdu (number share_file_respond) 0)))
      × EachGets
          (encode (offer memory (codes "ann") (codes "d/x")))
          (codes "bob" ∷ [])
          server.sockets
          sockets')
    × (handle_res memory true (offer memory (codes "ann") (codes "d/x")) client
        ≡ some (send_msg (accept memory client.login_name (codes "d/x")) (get_index memory client)))
    × (handle_pdu accepting paper [] memory 1 server (accept memory client.login_name (codes "d/x"))
        ≡ some (
          record server { world = copy.0 },
          some (respond share_file_agree_respond (bool_byte copy.1)),
        ))
share_file-copy_example =
    share_file-copy accepting paper [] memory memory stack (codes "ann") (codes "d") (codes "x")
      (codes "bob" ∷ []) 1 server server client readable stacked ann-IsName bob-IsName
      (bob-IsName, tt) (omega arith) (omega arith) (omega arith) refl

client-IsShort : IsShort client
client-IsShort = record {
  cur = omega arith;
  mv_name = omega arith;
  mv_path = omega arith;
  share = omega arith;
}

client-IsStream : IsStream client.written
unfolding encode_all
client-IsStream = ([], tt, refl)

click-Sends_example : Sends (click memory stack (click_send (codes "hi")) client)
click-Sends_example =
    click-Sends memory stack readable stacked (click_send (codes "hi")) client client-IsShort tt
      (omega arith) client-IsStream
