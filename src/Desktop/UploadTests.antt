-- ===== src/Desktop/UploadTests.antt =====
-- The theorems on an upload at a small file, which is read from its bytes.
use youdge.Base.{
  ℕ, ◌<◌, ◌≤◌, ◌≡◌, refl, sym, ap, zero, suc, [], ◌∷◌, ◌++◌, Option, some, Str, codes, length, take,
  drop, arith,
}
use mathlib.Core.List.{append_assoc, append-nil}
use youdge.Socket.Framing.{socket}
use youdge.Handlers.Connection.{serve_pdu, serve}
use youdge.Desktop.Uploader.{upload_file}
use youdge.Desktop.Pieces.{IsRegular, Pieces}
use youdge.Desktop.Transfer.{wire, upload_file-Pieces, received, done_bytes}
use youdge.Desktop.Delivery.{serve-upload_file}
use youdge.Desktop.Samples.{memory, accepting, paper, client}

-- A file is its bytes from the position on.
abbrev read : ℕ → Str → Str × Option Str
read n f = (drop n f, some (take n f))

read-IsRegular : IsRegular read (λ f. f)
read-IsRegular = record { reads = λ n f h. (take n f, refl, cut n f, within n f, at_end n f h) }
  where
    cut : (n : ℕ) (f : Str) → take n f ++ drop n f ≡ f
    cut zero f = refl
    cut (suc n) [] = refl
    cut (suc n) (c ∷ f) = ap (◌∷◌ c) (cut n f)

    within : (n : ℕ) (f : Str) → length (take n f) ≤ n
    within zero f = omega arith
    within (suc n) [] = omega arith
    within (suc n) (c ∷ f) = omega (arith, within n f)

    at_end : (n : ℕ) (f : Str) → 0 < n → take n f ≡ [] → f ≡ []
    at_end zero f h e = absurd (omega arith)
    at_end (suc n) [] h e = refl
    at_end (suc n) (c ∷ f) h e = cc

abbrev contents : Str
contents = codes "some text"

upload_file-Pieces_example :
    (c : Pieces contents) × (upload_file read memory 10 (some contents) client
      ≡ some (record client { written = client.written ++ wire c.pieces }))
upload_file-Pieces_example =
    upload_file-Pieces read (λ f. f) memory read-IsRegular 10 contents client (omega arith)

appends : (w x y : Str) → (w ++ x) ++ y ≡ w ++ (x ++ y)
appends w x y = append_assoc w x y

abbrev uploaded :
    (c : Pieces contents) × (upload_file read memory 10 (some contents) client
      ≡ some (record client { written = client.written ++ wire c.pieces }))
uploaded = upload_file-Pieces read (λ f. f) memory read-IsRegular 10 contents client (omega arith)

abbrev sent : Str
sent = wire uploaded.0.pieces

in_two : (n : ℕ) (f : Str) → f ≡ take n f ++ (drop n f ++ [])
in_two zero f = sym (append-nil f)
in_two (suc n) [] = refl
in_two (suc n) (c ∷ f) = ap (◌∷◌ c) (in_two n f)

serve-upload_file_example :
    serve accepting paper [] memory 1 10
      (socket
        (serve_pdu accepting paper [] memory 1)
        []
        (received accepting paper [] memory 1 appends [] 0 9 0 [])
        [])
      (take 50 sent ∷ drop 50 sent ∷ [])
    ≡ some (
        socket
          (serve_pdu accepting paper [] memory 1)
          []
          (received accepting paper [] memory 1 appends [] 0 9 9
            (paper.close (paper.write [] contents)))
          (done_bytes accepting paper [] memory 1 appends [] 0 9))
serve-upload_file_example =
    serve-upload_file accepting paper [] memory 1 appends [] 0 9 read (λ f. f) memory contents
      client (record client { written = client.written ++ sent }) (take 50 sent ∷ drop 50 sent ∷ [])
      10 10 [] read-IsRegular (omega arith) refl (omega arith) (omega arith) uploaded.1
      (in_two 50 sent)
