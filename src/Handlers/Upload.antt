-- ===== src/Handlers/Upload.antt =====
-- The data requests of an upload at Server/msghandler.cpp.
use youdge.Base.{
  ℕ, ◌+◌, ◌<◌, ◌≤◌, ◌≡◌, refl, true, false, List, none, some, Str, length, take, ltb, leb, ◌==◌,
  arith,
}
use youdge.Base.Int.{pos, +ℤ_pos}
use youdge.Pdu.{Pdu}
use youdge.Users.{Engine}
use youdge.Handlers.{State, Disk, Sock, respond, bool_byte, upload_file_data}
use youdge.Handlers.Types.{upload_file_data_respond}

module _ {W : Type 0} (exec : Engine W) (disk : Disk W) (root_path : Str) (behind : Str → Str) where
  -- A connection that has received `r` of `n` bytes.
  abbrev pub uploading : List Sock → ℕ → ℕ → ℕ → W → State W
  uploading sockets self n r w = record {
    world = w;
    sockets = sockets;
    self = self;
    upload_file_size = pos n;
    receive_size = pos r;
  }

  module _ (sockets : List Sock) (self n : ℕ) where
    pub partial :
        (w : W) (p : Pdu) (r : ℕ)
        → p.msg_len ≤ length p.ca_msg
        → r + p.msg_len < n
        → upload_file_data exec disk root_path behind (uploading sockets self n r w) p
          ≡ some (
            uploading sockets self n (r + p.msg_len) (disk.write w (take p.msg_len p.ca_msg)),
            none,
          )
    unfolding upload_file_data
    partial w p r whole h =
        let room : leb p.msg_len (length p.ca_msg) ≡ true = ground arith in
        let less : ltb (r + p.msg_len + 0) (n + 0) ≡ true = ground arith in
        rw (+ℤ_pos r p.msg_len, less, room) refl

    pub last :
        (w : W) (p : Pdu) (r : ℕ)
        → p.msg_len ≤ length p.ca_msg
        → n ≤ r + p.msg_len
        → upload_file_data exec disk root_path behind (uploading sockets self n r w) p
          ≡ some (
            uploading sockets self n
                (r + p.msg_len)
                (disk.close (disk.write w (take p.msg_len p.ca_msg))),
            some (respond upload_file_data_respond (bool_byte (r + p.msg_len == n))),
          )
    unfolding upload_file_data
    last w p r whole h =
        let room : leb p.msg_len (length p.ca_msg) ≡ true = ground arith in
        let reached : ltb (r + p.msg_len + 0) (n + 0) ≡ false = ground arith in
        rw (+ℤ_pos r p.msg_len, reached, room) refl
