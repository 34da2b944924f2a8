-- ===== src/Handlers/Connection.antt =====
-- `MyTcpSocket::recvMsg` with the dispatch: one connection of the server, from chunks of bytes to
-- the replies.
use youdge.Base.{ℕ, List, Option, none, some, Str}
use youdge.Pdu.{Pdu}
use youdge.Socket.{Socket, recv_all}
use youdge.Users.{Engine}
use youdge.Handlers.{State, Disk}
use youdge.Handlers.Files.{handle_pdu}

module _ {W : Type 0} (exec : Engine W) (disk : Disk W) (root_path : Str) (behind : Str → Str) where
  -- After an undefined step nothing is defined.
  unfoldable pub serve_pdu : ℕ → Option (State W) → Pdu → Option (State W) × Option Pdu
  serve_pdu depth none p = (none, none)
  serve_pdu depth (some s) p = elim (handle_pdu exec disk root_path behind depth s p) [
    | none ↦ (none, none)
    | some (s', reply) ↦ (some s', reply)
  ]

  abbrev pub serve :
      ℕ → ℕ → Socket (Option (State W)) → List Str → Option (Socket (Option (State W)))
  serve depth = recv_all (serve_pdu depth)
