-- ===== src/Desktop/Delivery.antt =====
-- An upload from end to end: Client/uploader.cpp, the network, and the connection of
-- Server/mytcpsocket.cpp with its handlers.
use youdge.Base.{
  ℕ, ◌<◌, ◌≡◌, refl, sym, ap, ◌∙◌, inl, List, [], ◌∷◌, ◌++◌, Option, some, Str, length, arith,
  some_inj, drop, map, subst,
}
use mathlib.Core.List.{append-nil}
use youdge.Pdu.Wire.{drop-append}
use youdge.Socket.Framing.{socket, encode_all}
use youdge.Socket.Chunks.{concat, recv_all-concat}
use youdge.Users.{Engine}
use youdge.Handlers.{State, Disk, Sock}
use youdge.Handlers.Connection.{serve_pdu, serve}
use youdge.Desktop.{App}
use youdge.Desktop.Uploader.{upload_file}
use youdge.Desktop.Pieces.{IsRegular, flat, AllSized, frame_of}
use youdge.Desktop.Transfer.{
  wire, upload_file-Pieces, AllFrames-pieces, length-pieces, AllReadFrame-pieces, received,
  done_bytes, deliver_all-pieces,
}

append_cancel : (a x y : Str) → a ++ x ≡ a ++ y → x ≡ y
append_cancel a x y e =
    sym (drop-append (length a) a x refl) ∙ ap (drop (length a)) e ∙ drop-append (length a) a y refl

module _ {W : Type 0} (exec : Engine W) (disk : Disk W) (root_path : Str) (behind : Str → Str)
    (depth : ℕ)
    (appends : (w : W) (x y : Str) → disk.write (disk.write w x) y ≡ disk.write w (x ++ y))
    (sockets : List Sock) (self n : ℕ) where
  serve_pieces :
      (pieces : List Str) (chunks : List Str) (fuel : ℕ) (w : W)
      → AllSized pieces
      → 0 < n
      → length (flat pieces) ≡ n
      → concat chunks ≡ wire pieces
      → n < fuel
      → serve exec disk root_path behind depth fuel
          (socket
            (serve_pdu exec disk root_path behind depth)
            []
            (received exec disk root_path behind depth appends sockets self n 0 w)
            [])
          chunks
        ≡ some (
            socket
              (serve_pdu exec disk root_path behind depth)
              []
              (received exec disk root_path behind depth appends sockets self n n
                (disk.close (disk.write w (flat pieces))))
              (done_bytes exec disk root_path behind depth appends sockets self n))
  unfolding wire
  serve_pieces [] chunks fuel w h some_bytes e whole enough = absurd (omega (arith, e, some_bytes))
  serve_pieces (b ∷ l) chunks fuel w h some_bytes e whole enough =
      recv_all-concat (serve_pdu exec disk root_path behind depth) chunks (map frame_of (b ∷ l))
        fuel [] [] [] _ (AllFrames-pieces (b ∷ l) h)
        (AllReadFrame-pieces exec disk root_path behind depth (b ∷ l)) (inl (omega arith))
        (inl (omega arith)) (whole ∙ sym (append-nil (encode_all (map frame_of (b ∷ l)))))
        (omega (arith, length-pieces (b ∷ l) h, e, enough))
      ∙ ap
          (λ (r : Option (State W) × Str).
            some (socket (serve_pdu exec disk root_path behind depth) [] r.0 r.1))
          (deliver_all-pieces exec disk root_path behind depth appends sockets self n l b 0 w h
            (omega (arith, e)))

  module _ {F : Type 0} (read : ℕ → F → F × Option Str) (rest : F → Str) (memory : Str → Str) where
    -- A regular file that is not empty is uploaded whole: if the server waits for its size, then
    -- however the network cuts what the thread has sent into chunks, the server's receive loop
    -- writes the file's bytes, in order and nothing else, closes it, and answers once, with true.
    pub serve-upload_file :
        (f : F) (a b : App) (chunks : List Str) (fuel fuel' : ℕ) (w : W)
        → IsRegular read rest
        → 0 < n
        → length (rest f) ≡ n
        → n < fuel
        → n < fuel'
        → upload_file read memory fuel (some f) a ≡ some b
        → b.written ≡ a.written ++ concat chunks
        → serve exec disk root_path behind depth fuel'
            (socket
              (serve_pdu exec disk root_path behind depth)
              []
              (received exec disk root_path behind depth appends sockets self n 0 w)
              [])
            chunks
          ≡ some (
              socket
                (serve_pdu exec disk root_path behind depth)
                []
                (received exec disk root_path behind depth appends sockets self n n
                  (disk.close (disk.write w (rest f))))
                (done_bytes exec disk root_path behind depth appends sockets self n))
    serve-upload_file f a b chunks fuel fuel' w reg some_bytes size h h' run cut =
        let (c, ran) = upload_file-Pieces read rest memory reg fuel f a (omega (arith, size, h)) in
        let same = some_inj _ _ (sym run ∙ ran) in
        let bytes : concat chunks ≡ wire c.pieces =
          append_cancel a.written (concat chunks) (wire c.pieces)
            (sym cut ∙ ap (λ (x : App). x.written) same) in
        subst
          (λ x.
            serve exec disk root_path behind depth fuel'
              (socket (serve_pdu exec disk root_path behind depth) []
                (received exec disk root_path behind depth appends sockets self n 0 w) [])
              chunks
            ≡ some (
                socket (serve_pdu exec disk root_path behind depth) []
                  (received exec disk root_path behind depth appends sockets self n n
                    (disk.close (disk.write w x)))
                  (done_bytes exec disk root_path behind depth appends sockets self n)))
          c.whole
          (serve_pieces c.pieces chunks fuel' w c.sized some_bytes (ap length c.whole ∙ size) bytes
            h')
