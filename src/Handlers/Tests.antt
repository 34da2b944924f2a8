-- ===== src/Handlers/Tests.antt =====
-- The theorems on the handlers at a small server: an engine that finds and accepts all, and a disk
-- whose state is what was written.
use youdge.Base.{arith, ◌≡◌, refl, true, false, [], ◌∷◌, ◌++◌, some, Str, codes}
use youdge.Base.Int.{pos}
use youdge.Pdu.{Pdu, zeros, mk_pdu}
use youdge.Users.{Engine}
use youdge.Handlers.{State, Disk, Sock, cstr, name_at}
use youdge.Handlers.Types.{number, login_request}
use youdge.Handlers.Files.{handle_pdu}
use youdge.Handlers.Logins.{LeavesLogin}
use youdge.Handlers.Isolation.{handle_pdu-LeavesLogin}

abbrev accepting : Engine Str
accepting w sql = (w, some (record { to_int = pos 1; to_string = [] } ∷ []))

abbrev paper : Disk Str
paper = record {
  mkdir = λ w path. (w, true);
  rename = λ w old new. (w, true);
  remove_recursively = λ w path. (w, true);
  is_dir = λ w path. false;
  is_file = λ w path. true;
  copy = λ w src dest. (w, true);
  entries = λ w path. [];
  open_file = λ w path. (w, true);
  write = λ w bytes. w ++ bytes;
  close = λ w. w;
}

abbrev nothing : Str → Str
nothing name = []

abbrev ann_login : Pdu
ann_login = record (mk_pdu (number login_request) 0) {
  ca_data = codes "ann" ++ (zeros 29 ++ (codes "pw" ++ zeros 30));
}

abbrev fresh : Sock
fresh = record { login_name = []; written = [] }

abbrev server : State Str
server = record {
  world = [];
  sockets = record { login_name = codes "bob"; written = [] } ∷ fresh ∷ [];
  self = 1;
  upload_file_size = pos 0;
  receive_size = pos 0;
}

ann_first : name_at 0 ann_login ≡ some (codes "ann")
unfolding cstr
ann_first = refl

ann_second : name_at 32 ann_login ≡ some (codes "pw")
unfolding cstr
ann_second = refl

-- The login of the second connection leaves the first one's name.
handle_pdu-LeavesLogin_example :
    LeavesLogin 0 server (handle_pdu accepting paper [] nothing 1 server ann_login)
handle_pdu-LeavesLogin_example =
    handle_pdu-LeavesLogin accepting paper [] nothing 0 1 server ann_login (omega arith)
