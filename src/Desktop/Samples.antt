-- ===== src/Desktop/Samples.antt =====
-- A small server and a small client for the tests: a disk whose state is what was written, and an
-- engine that accepts all.
use youdge.Base.{ℕ, Bool, true, false, [], ◌∷◌, ◌++◌, some, Str, codes, arith, if◌then◌else◌}
use youdge.Base.Int.{pos}
use youdge.Pdu.{zeros}
use youdge.Users.{Engine}
use youdge.Handlers.{State, Disk, FileEntry}
use youdge.Desktop.{App}
use youdge.Desktop.Fields.{IsName, IsReadable}
use youdge.Desktop.Moving.{IsStack}

abbrev pub memory : Str → Str
memory name = zeros 31

abbrev pub stack : ℕ → Str
stack n = zeros 28

pub readable : IsReadable memory
readable name = omega arith

pub stacked : IsStack stack
stacked n = omega arith

abbrev pub accepting : Engine Str
accepting w sql = (w, some (record { to_int = pos 1; to_string = codes "bob" } ∷ []))

abbrev pub entry : Str → Bool → FileEntry
entry name dir = record { file_name = name; is_dir = dir; is_file = if dir then false else true }

abbrev pub paper : Disk Str
paper = record {
  mkdir = λ w path. (w, true);
  rename = λ w old new. (old ++ new, true);
  remove_recursively = λ w path. (w, true);
  is_dir = λ w path. false;
  is_file = λ w path. true;
  copy = λ w src dest. (w, true);
  entries =
      λ w path. entry (codes ".") true ∷ entry (codes "..") true ∷ entry (codes "x") true ∷ [];
  open_file = λ w path. ([], true);
  write = λ w bytes. w ++ bytes;
  close = λ w. w;
}

abbrev pub server : State Str
server = record {
  world = [];
  sockets = record { login_name = codes "ann"; written = [] } ∷ [];
  self = 0;
  upload_file_size = pos 0;
  receive_size = pos 0;
}

abbrev pub client : App
client = record {
  login_name = codes "bob";
  written = [];
  notices = [];
  index_made = true;
  index_shown = true;
  friends = [];
  online_users = [];
  online_shown = false;
  chat_shown = false;
  chat_title = [];
  chat_name = [];
  show_te = [];
  cur_path = codes "home";
  user_path = codes "home";
  file_infos = [];
  file_items = [];
  mv_file_name = [];
  mv_file_path = [];
  mv_asks = false;
  upload_file_path = codes "f";
  share_file_path = [];
  share_friends = [];
  share_shown = false;
  uploads = [];
}

pub ann-IsName : IsName (codes "ann")
ann-IsName = record { text = omega arith; short = omega arith }

pub bob-IsName : IsName (codes "bob")
bob-IsName = record { text = omega arith; short = omega arith }
