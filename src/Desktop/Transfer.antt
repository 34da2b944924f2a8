-- ===== src/Desktop/Transfer.antt =====
-- An upload from the thread of Client/uploader.cpp to the handlers of Server/msghandler.cpp.
use mathlib.Core.List.{append_assoc, append-nil}
use youdge.Base.{
  ℕ, ◌+◌, ◌<◌, ◌≤◌, ◌≡◌, refl, sym, ap, ◌∙◌, true, List, [], ◌∷◌, ◌++◌, Option, none, some, Str,
  length, take, leb, length-append, arith, ◌>>=◌, map, ◌==◌,
}
use youdge.Pdu.{Pdu}
use youdge.Pdu.Wire.{take-append}
use youdge.Socket.{send_msg}
use youdge.Socket.Framing.{AllFrames, AllReadFrame, ReadsFrame, encode_all, deliver, deliver_all}
use youdge.Users.{Engine}
use youdge.Handlers.{State, Disk, Sock, respond, bool_byte, upload_file_data}
use youdge.Handlers.Types.{upload_file_data_respond}
use youdge.Handlers.Files.{handle_pdu}
use youdge.Handlers.Upload.{uploading, partial, last}
use youdge.Handlers.Connection.{serve_pdu}
use youdge.Desktop.{App}
use youdge.Desktop.Uploader.{piece_pdu, upload_file, send_all}
use youdge.Desktop.Pieces.{
  frame_of, frame_of-IsFrame, take-piece_pdu, IsRegular, Pieces, flat, AllSized, upload_loop-Pieces,
}

-- The bytes of the pieces on the wire.
unfoldable pub wire : List Str → Str
wire pieces = encode_all (map frame_of pieces)

send_all-written :
    (pieces : List Str) (a : App)
    → AllSized pieces
    → send_all (map piece_pdu pieces) a ≡ record a { written = a.written ++ wire pieces }
unfolding send_all wire encode_all youdge.Desktop.send_msg
send_all-written [] a h = ap (λ w. record a { written = w }) (sym (append-nil a.written))
send_all-written (b ∷ l) a h =
    send_all-written l (youdge.Desktop.send_msg (piece_pdu b) a) h.2
    ∙ ap (λ w. record a { written = w })
        (append_assoc a.written _ (wire l)
          ∙ ap (λ x. a.written ++ (x ++ wire l)) (take-piece_pdu b h.1))

module _ {F : Type 0} (read : ℕ → F → F × Option Str) (rest : F → Str) (behind : Str → Str) where
  -- The thread of a regular file, with more fuel than the file has bytes, ends without an error,
  -- and has sent the whole file in pieces, none of them empty or longer than 40960 bytes.
  pub upload_file-Pieces :
      IsRegular read rest
      → (fuel : ℕ) (f : F) (a : App) → length (rest f) < fuel
      → (c : Pieces (rest f)) × (upload_file read behind fuel (some f) a
          ≡ some (record a { written = a.written ++ wire c.pieces }))
  unfolding upload_file
  upload_file-Pieces reg fuel f a h =
      let (c, run) = upload_loop-Pieces read rest reg fuel f h in
      (c, rw (run, ◌>>=◌) (ap some (send_all-written c.pieces a c.sized)))

pub AllFrames-pieces : (pieces : List Str) → AllSized pieces → AllFrames (map frame_of pieces)
AllFrames-pieces [] h = tt
AllFrames-pieces (b ∷ l) h = (frame_of-IsFrame b h.1, AllFrames-pieces l h.2)

pub length-pieces :
    (pieces : List Str) → AllSized pieces → length (map frame_of pieces) ≤ length (flat pieces)
length-pieces [] h = omega arith
length-pieces (b ∷ l) h = omega (arith, h.0, length-pieces l h.2, length-append b (flat l))

take_whole : (b : Str) → take (length b) b ≡ b
take_whole [] = refl
take_whole (c ∷ b) = ap (◌∷◌ c) (take_whole b)

module _ {W : Type 0} (exec : Engine W) (disk : Disk W) (root_path : Str) (behind : Str → Str)
    (depth : ℕ) where
  -- The dispatch hands a piece to the handler of uploads.
  frame_of-handle_pdu :
      (b msg : Str) (s : State W)
      → handle_pdu exec disk root_path behind depth s (record (frame_of b) { ca_msg = msg })
        ≡ upload_file_data exec disk root_path behind s (record (frame_of b) { ca_msg = msg })
  unfolding handle_pdu frame_of
  frame_of-handle_pdu b msg s = refl

  -- Only the bytes of the piece count.
  upload_file_data-rest :
      (b rest : Str) (s : State W)
      → upload_file_data exec disk root_path behind s (record (frame_of b) { ca_msg = b ++ rest })
        ≡ upload_file_data exec disk root_path behind s (frame_of b)
  unfolding upload_file_data frame_of
  upload_file_data-rest b rest s =
      let all : leb (length b) (length b) ≡ true = ground arith in
      let room : leb (length b) (length (b ++ rest)) ≡ true =
        ground (arith, length-append b rest) in
      rw (take-append (length b) b rest refl, take_whole b, all, room) refl

  serve_pdu-piece :
      (b : Str) (s s' : State W) (reply : Option Pdu)
      → upload_file_data exec disk root_path behind s (frame_of b) ≡ some (s', reply)
      → serve_pdu exec disk root_path behind depth (some s) (frame_of b) ≡ (some s', reply)
  unfolding serve_pdu
  serve_pdu-piece b s s' reply e =
      ap
        (λ o. elim o as (λ x. Option (State W) × Option Pdu) [
          | none ↦ (none, none)
          | some (t, r) ↦ (some t, r)
        ])
        (frame_of-handle_pdu b (frame_of b).ca_msg s ∙ e)

  serve_pdu-ReadsFrame :
      (b : Str) → ReadsFrame (serve_pdu exec disk root_path behind depth) (frame_of b)
  unfolding serve_pdu frame_of
  serve_pdu-ReadsFrame b none rest = refl
  serve_pdu-ReadsFrame b (some s) rest =
      ap
        (λ o. elim o as (λ x. Option (State W) × Option Pdu) [
          | none ↦ (none, none)
          | some (t, r) ↦ (some t, r)
        ])
        (frame_of-handle_pdu b (b ++ rest) s
          ∙ upload_file_data-rest b rest s
          ∙ sym (frame_of-handle_pdu b b s))

  pub AllReadFrame-pieces :
      (pieces : List Str)
      → AllReadFrame (serve_pdu exec disk root_path behind depth) (map frame_of pieces)
  AllReadFrame-pieces [] = tt
  AllReadFrame-pieces (b ∷ l) = (serve_pdu-ReadsFrame b, AllReadFrame-pieces l)

  module _ (appends : (w : W) (x y : Str) → disk.write (disk.write w x) y ≡ disk.write w (x ++ y))
      (sockets : List Sock) (self n : ℕ) where
    abbrev pub received : ℕ → W → Option (State W)
    received r w = some (uploading exec disk root_path behind sockets self n r w)

    -- The reply to a whole file.
    abbrev pub done_bytes : Str
    done_bytes = send_msg (some (respond upload_file_data_respond (bool_byte true))) []

    piece_partial :
        (b : Str) (r : ℕ) (w : W)
        → r + length b < n
        → deliver (serve_pdu exec disk root_path behind depth) (frame_of b) (received r w, [])
          ≡ (received (r + length b) (disk.write w b), [])
    unfolding deliver send_msg frame_of
    piece_partial b r w h =
        rw
          (serve_pdu-piece b _ _ _
            (partial exec disk root_path behind sockets self n w (frame_of b) r (omega arith) h))
          (rw (take_whole b) refl)

    piece_last :
        (b : Str) (r : ℕ) (w : W)
        → r + length b ≡ n
        → deliver (serve_pdu exec disk root_path behind depth) (frame_of b) (received r w, [])
          ≡ (received n (disk.close (disk.write w b)), done_bytes)
    unfolding deliver frame_of
    piece_last b r w h =
        let same : (n == n) ≡ true = ground arith in
        rw
          (serve_pdu-piece b _ _ _ (
            last exec disk root_path behind sockets self n w (frame_of b) r (omega arith)
              (omega (arith, h))))
          (rw (take_whole b, h, same) refl)

    -- The pieces that are still to come, of which the last one completes the file.
    pub deliver_all-pieces :
        (l : List Str) (b : Str) (r : ℕ) (w : W)
        → AllSized (b ∷ l)
        → r + length (flat (b ∷ l)) ≡ n
        → deliver_all
            (serve_pdu exec disk root_path behind depth)
            (map frame_of (b ∷ l))
            (received r w, [])
          ≡ (received n (disk.close (disk.write w (flat (b ∷ l)))), done_bytes)
    unfolding deliver_all
    deliver_all-pieces [] b r w h e =
        piece_last b r w (omega (arith, e, length-append b []))
        ∙ ap (λ x. (received n (disk.close (disk.write w x)), done_bytes)) (sym (append-nil b))
    deliver_all-pieces (c ∷ l) b r w h e =
        let sum = length-append b (flat (c ∷ l)) in
        let more = length-append c (flat l) in
        ap (deliver_all (serve_pdu exec disk root_path behind depth) (map frame_of (c ∷ l)))
          (piece_partial b r w (omega (arith, e, sum, more, h.2.0)))
        ∙ deliver_all-pieces l c (r + length b) (disk.write w b) h.2 (omega (arith, e, sum))
        ∙ ap (λ x. (received n (disk.close x), done_bytes)) (appends w b (flat (c ∷ l)))
