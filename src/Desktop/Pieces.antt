-- ===== src/Desktop/Pieces.antt =====
-- The pieces of Client/uploader.cpp: what goes over the wire for one read, and for a whole file.
use youdge.Base.{
  ℕ, zero, suc, ◌+◌, ◌<◌, ◌≤◌, ◌≡◌, refl, sym, ap, ◌∙◌, false, List, [], ◌∷◌, ◌++◌, Option, some,
  Str, length, take, length-append, arith, map,
}
use youdge.Pdu.{Pdu, zeros, mk_pdu, le32, encode, IsFrame}
use youdge.Pdu.Wire.{take-append, length-zeros}
use youdge.Handlers.Types.{number, upload_file_data_request}
use youdge.Desktop.Fields.{overwrite_lem, take-append_more}
use youdge.Desktop.Uploader.{piece_size, piece_pdu, upload_loop}

-- The frame with these bytes.
unfoldable pub frame_of : Str → Pdu
frame_of bytes = record {
  pdu_len = length bytes + 76;
  msg_len = length bytes;
  msg_type = number upload_file_data_request;
  ca_data = zeros 64;
  ca_msg = bytes;
}

pub frame_of-IsFrame : (bytes : Str) → length bytes ≤ piece_size → IsFrame (frame_of bytes)
unfolding frame_of
frame_of-IsFrame bytes h = record {
  params = length-zeros 64;
  total = omega arith;
  message = refl;
  small = omega arith;
  typed = omega arith;
}

-- The buffer behind the bytes that were read is not sent.
take-encode :
    (p : Pdu) (k : ℕ) (bytes rest : Str)
    → length p.ca_data ≡ 64
    → length bytes ≡ k
    → p.ca_msg ≡ bytes ++ rest
    → take (k + 76) (encode p) ≡ encode (record p { ca_msg = bytes })
unfolding encode le32
take-encode p k bytes rest d e m =
    let head : Str = le32 p.pdu_len ++ (le32 p.msg_len ++ le32 p.msg_type) in
    let body : take (64 + k) (p.ca_data ++ p.ca_msg) ≡ p.ca_data ++ bytes =
      take-append_more (64 + k) k p.ca_data p.ca_msg (omega (arith, d))
      ∙ ap (λ r. p.ca_data ++ take k r) m
      ∙ ap (◌++◌ p.ca_data) (take-append k bytes rest e) in
    take-append_more (k + 76) (64 + k) head (p.ca_data ++ p.ca_msg) (omega arith)
    ∙ ap (◌++◌ head) body

pub take-piece_pdu :
    (bytes : Str)
    → length bytes ≤ piece_size
    → take (piece_pdu bytes).pdu_len (encode (piece_pdu bytes)) ≡ encode (frame_of bytes)
unfolding piece_pdu frame_of mk_pdu
take-piece_pdu bytes h =
    take-encode (piece_pdu bytes) (length bytes) bytes _ (length-zeros 64) refl
      (overwrite_lem bytes (zeros piece_size) (omega (arith, length-zeros piece_size)))

-- What is behind a file's position, for a file whose reads go on in order, fail never, and give no
-- byte only at the end.
pub record IsRegular {F : Type 0} (read : ℕ → F → F × Option Str) (rest : F → Str) : Type 0 where
  pub reads :
      (n : ℕ) (f : F)
      → 0 < n
      → (bytes : Str) × ((read n f).1 ≡ some bytes)
        × (bytes ++ rest (read n f).0 ≡ rest f)
        × (length bytes ≤ n)
        × (bytes ≡ [] → rest f ≡ [])

abbrev pub flat : List Str → Str
flat [] = []
flat (b ∷ l) = b ++ flat l

abbrev pub AllSized : List Str → Type 0
AllSized [] = Unit {0}
AllSized (b ∷ l) = (0 < length b) × (length b ≤ piece_size) × AllSized l

-- The pieces of a file: none is empty or too long, and together they are the file.
pub record Pieces (contents : Str) : Type 0 where
  pub pieces : List Str
  pub whole : flat pieces ≡ contents
  pub sized : AllSized pieces

module _ {F : Type 0} (read : ℕ → F → F × Option Str) (rest : F → Str) where
  -- With more fuel than the file has bytes the loop ends, and no read has failed.
  pub upload_loop-Pieces :
      IsRegular read rest
      → (fuel : ℕ) (f : F) → length (rest f) < fuel
      → (c : Pieces (rest f)) × (upload_loop read fuel f ≡ some (map piece_pdu c.pieces, false))
  unfolding upload_loop
  upload_loop-Pieces reg zero f h = absurd (omega arith)
  upload_loop-Pieces reg (suc fuel) f h =
      step (upload_loop-Pieces reg fuel) (reg.reads piece_size f (omega arith))
    where
      step :
          ((g : F)
            → length (rest g) < fuel
            → (c : Pieces (rest g)) × (upload_loop read fuel g
                ≡ some (map piece_pdu c.pieces, false)))
          → (bytes : Str) × ((read piece_size f).1 ≡ some bytes)
            × (bytes ++ rest (read piece_size f).0 ≡ rest f)
            × (length bytes ≤ piece_size)
            × (bytes ≡ [] → rest f ≡ [])
          → (c : Pieces (rest f)) × (upload_loop read (suc fuel) f
              ≡ some (map piece_pdu c.pieces, false))
      step ih ([], e, w, l, last) =
          (record { pieces = []; whole = sym (last refl); sized = tt }, rw (e, upload_loop) refl)
      step ih (b ∷ bytes, e, w, l, last) =
          let shorter : length (rest (read piece_size f).0) < fuel =
            omega (arith, ap length w, length-append (b ∷ bytes) (rest (read piece_size f).0)) in
          let (c, run) = ih (read piece_size f).0 shorter in
          (
            record {
              pieces = (b ∷ bytes) ∷ c.pieces;
              whole = ap (◌++◌ (b ∷ bytes)) c.whole ∙ w;
              sized = (omega arith, l, c.sized);
            },
            rw (e, upload_loop) (rw run refl),
          )
