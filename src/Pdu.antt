-- ===== src/Pdu.antt =====
-- Server/protocol.h and Server/protocol.cpp (the client has the same files): a protocol data unit
-- and its bytes. The struct is read and written as it lies in memory, little-endian and without
-- padding: three 32-bit words, 64 bytes of parameters, and the message as a flexible array.
-- `malloc` is taken to succeed (the source exits where it does not).
pub mod Wire
use youdge.Base.{
  ℕ, zero, suc, ◌+◌, ◌-◌, ◌*◌, ◌/◌, ◌%◌, ◌^◌, ◌<◌, ◌≡◌, List, [], ◌∷◌, ◌++◌, Str, length, take,
  drop,
}

pub record Pdu : Type 0 where
  pub pdu_len : ℕ
  pub msg_len : ℕ
  pub msg_type : ℕ
  pub ca_data : Str
  pub ca_msg : Str

-- `sizeof(PDU)`
abbrev pub sizeof_pdu : ℕ
sizeof_pdu = 76

abbrev pub zeros : ℕ → Str
zeros zero = []
zeros (suc n) = 0 ∷ zeros n

unfoldable pub mk_pdu : ℕ → ℕ → Pdu
mk_pdu msg_type msg_len =
    let len = (sizeof_pdu + msg_len) % 2 ^ 32 in
    record {
      pdu_len = len;
      msg_len = msg_len;
      msg_type = msg_type;
      ca_data = zeros 64;
      ca_msg = zeros (len - sizeof_pdu);
    }

-- A 32-bit word in memory.
unfoldable pub le32 : ℕ → Str
le32 n = (n % 256) ∷ (n / 256 % 256) ∷ (n / 65536 % 256) ∷ (n / 16777216 % 256) ∷ []

unfoldable pub u32 : Str → ℕ
u32 (a ∷ b ∷ c ∷ d ∷ rest) = a + 256 * b + 65536 * c + 16777216 * d
u32 _ = 0

-- The bytes of the struct and its message, `(char*)pdu`.
unfoldable pub encode : Pdu → Str
encode p = le32 p.pdu_len ++ (le32 p.msg_len ++ (le32 p.msg_type ++ (p.ca_data ++ p.ca_msg)))

-- `(PDU*)buffer.data()`: the message runs on to the end of the buffer.
unfoldable pub cast : Str → Pdu
cast buffer = record {
  pdu_len = u32 buffer;
  msg_len = u32 (drop 4 buffer);
  msg_type = u32 (drop 8 buffer);
  ca_data = take 64 (drop 12 buffer);
  ca_msg = drop 76 buffer;
}

-- What a sender builds: the lengths are those of the data, and fit the signed 32-bit sizes.
pub record IsFrame (p : Pdu) : Type 0 where
  pub params : length p.ca_data ≡ 64
  pub total : p.pdu_len ≡ 76 + length p.ca_msg
  pub message : p.msg_len ≡ length p.ca_msg
  pub small : p.pdu_len < 2 ^ 31
  pub typed : p.msg_type < 2 ^ 32
