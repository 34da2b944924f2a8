-- ===== src/Desktop/Moving.antt =====
-- Moving and renaming a file, and the start of an upload: what Client/file.cpp asks for is what
-- Server/msghandler.cpp does.
use mathlib.Core.List.{append_assoc, append-nil}
use youdge.Base.{
  ℕ, ◌+◌, ◌-◌, ◌%◌, ◌^◌, ◌<◌, ◌≤◌, ◌≡◌, refl, sym, ap, ◌∙◌, true, [], ◌∷◌, ◌++◌, some, Str, length,
  take, drop, leb, length-append, arith, ◌>>=◌,
}
use youdge.Pdu.{mk_pdu, zeros, le32, u32}
use youdge.Pdu.Wire.{length-zeros, take-append, drop-append, u32-le32}
use youdge.Users.{Engine}
use youdge.Handlers.{State, Disk, cstr, respond, bool_byte}
use youdge.Handlers.Types.{mv_file_respond}
use youdge.Handlers.Files.{handle_pdu, mv_file}
use youdge.Desktop.{put_at}
use youdge.Desktop.Fields.{
  IsText, two_fields, length-drop, length-take, cstr-append, put_at-zero, put_at-append,
}
use youdge.Desktop.Browser.{int_field, mv_pdu}

-- There are 28 bytes at least in memory behind an `int`.
abbrev pub IsStack : (ℕ → Str) → Type 0
IsStack stack = (n : ℕ) → 28 ≤ length (stack n)

pub length-int_field :
    (behind : Str → Str) (stack : ℕ → Str) (n : ℕ)
    → IsStack stack
    → length (int_field behind stack n) ≡ 32
unfolding int_field le32
length-int_field behind stack n r = omega (arith, length-take 28 (stack n) (r n))

pub u32-int_field :
    (behind : Str → Str) (stack : ℕ → Str) (n : ℕ) (more : Str)
    → n < 2 ^ 32
    → u32 (int_field behind stack n ++ more) ≡ n
unfolding int_field
u32-int_field behind stack n more h =
    ap u32 (append_assoc (le32 n) (take 28 (stack n)) more)
    ∙ u32-le32 n (take 28 (stack n) ++ more) h

-- Two texts, one behind the other, in a message with room for a zero byte.
two_texts :
    (src tar room : Str)
    → length room ≡ length src + length tar + 1
    → put_at (length src) tar (put_at 0 src room)
      ≡ src ++ (tar ++ drop (length tar) (drop (length src) room))
two_texts src tar room h =
    ap (put_at (length src) tar) (put_at-zero src room (omega (arith, h)))
    ∙ put_at-append (length src) src tar (drop (length src) room) refl
        (omega (arith, h, length-drop (length src) room))
    ∙ append_assoc src tar (drop (length tar) (drop (length src) room))

module _ (memory : Str → Str) (stack : ℕ → Str) where
  mv_pdu-ca_data :
      (src tar : Str)
      → IsStack stack
      → (mv_pdu memory stack src tar).ca_data
        ≡ int_field memory stack (length src) ++ int_field memory stack (length tar)
  unfolding mv_pdu mk_pdu
  mv_pdu-ca_data src tar r =
      two_fields (int_field memory stack (length src)) (int_field memory stack (length tar))
        (zeros 64) (length-int_field memory stack (length src) r)
        (length-int_field memory stack (length tar) r) (length-zeros 64)

  mv_pdu-ca_msg :
      (src tar : Str)
      → length src + length tar < 2 ^ 31
      → (rest : Str) × ((mv_pdu memory stack src tar).ca_msg ≡ src ++ (tar ++ rest))
  unfolding mv_pdu mk_pdu
  mv_pdu-ca_msg src tar h =
      let n : (76 + (length src + length tar + 1)) % 2 ^ 32 - 76 ≡ length src + length tar + 1 =
        omega arith in
      let room : Str = zeros ((76 + (length src + length tar + 1)) % 2 ^ 32 - 76) in
      (
        drop (length tar) (drop (length src) room),
        two_texts src tar room
            (length-zeros ((76 + (length src + length tar + 1)) % 2 ^ 32 - 76) ∙ n),
      )

  module _ {W : Type 0} (exec : Engine W) (disk : Disk W) (root_path : Str)
      (behind : Str → Str) where
    mv_pdu-handle_pdu :
        (src tar : Str) (depth : ℕ) (s : State W)
        → handle_pdu exec disk root_path behind depth s (mv_pdu memory stack src tar)
          ≡ mv_file exec disk root_path behind s (mv_pdu memory stack src tar)
    unfolding handle_pdu mv_pdu mk_pdu
    mv_pdu-handle_pdu src tar depth s = refl

    -- A request to move a file makes the server rename the path to the target, and answer as the
    -- file system does.
    pub mv_file-rename :
        (src tar : Str) (depth : ℕ) (s : State W)
        → IsStack stack
        → IsText src
        → IsText tar
        → length src + length tar < 2 ^ 31
        → handle_pdu exec disk root_path behind depth s (mv_pdu memory stack src tar)
          ≡ some (
            record s { world = (disk.rename s.world src tar).0 },
            some (respond mv_file_respond (bool_byte (disk.rename s.world src tar).1)),
          )
    unfolding mv_file
    mv_file-rename src tar depth s r hs ht small =
        let p = mv_pdu memory stack src tar in
        let (rest, message) = mv_pdu-ca_msg src tar small in
        let params = mv_pdu-ca_data src tar r in
        let src_len : u32 p.ca_data ≡ length src =
          ap u32 params ∙ u32-int_field memory stack (length src) _ (omega arith) in
        let tar_len : u32 (drop 32 p.ca_data) ≡ length tar =
          ap (λ d. u32 (drop 32 d)) params
          ∙ ap u32 (
              drop-append 32 (int_field memory stack (length src))
                (int_field memory stack (length tar))
                (length-int_field memory stack (length src) r))
          ∙ ap u32 (sym (append-nil (int_field memory stack (length tar))))
          ∙ u32-int_field memory stack (length tar) [] (omega arith) in
        let room : leb (length src + length tar) (length p.ca_msg) ≡ true =
          ground
            (arith, ap length message, length-append src (tar ++ rest), length-append tar rest) in
        let first : cstr (take (length src) p.ca_msg ++ (0 ∷ [])) ≡ some src =
          ap (λ m. cstr (take (length src) m ++ (0 ∷ []))) message
          ∙ ap (λ m. cstr (m ++ (0 ∷ []))) (take-append (length src) src (tar ++ rest) refl)
          ∙ cstr-append src [] hs in
        let second : cstr (take (length tar) (drop (length src) p.ca_msg) ++ (0 ∷ [])) ≡ some tar =
          ap (λ m. cstr (take (length tar) (drop (length src) m) ++ (0 ∷ []))) message
          ∙ ap (λ m. cstr (take (length tar) m ++ (0 ∷ [])))
              (drop-append (length src) src (tar ++ rest) refl)
          ∙ ap (λ m. cstr (m ++ (0 ∷ []))) (take-append (length tar) tar rest refl)
          ∙ cstr-append tar [] ht in
        mv_pdu-handle_pdu src tar depth s
        ∙ rw (src_len, tar_len) (rw (room, first, second, ◌>>=◌) refl)
