-- ===== src/Desktop/Listing.antt =====
-- The list of files: from the server's directory through `flushFile` of Server/msghandler.cpp to the
-- list of the client's page.
use mathlib.Core.List.{append_assoc, append-nil}
use youdge.Base.{
  ℕ, ◌+◌, ◌-◌, ◌*◌, ◌/◌, ◌%◌, ◌^◌, ◌<◌, ◌≡◌, ◌≢◌, ◌⊎◌, inl, inr, refl, sym, ap, subst, ◌∙◌, Bool,
  true, List, [], ◌∷◌, ◌++◌, some, Str, codes, length, take, drop, leb, length-append, arith, map,
  if◌then◌else◌, ◌>>=◌,
}
use youdge.Pdu.{Pdu, mk_pdu, zeros, le32, u32}
use youdge.Pdu.Wire.{take-append, drop-append, length-zeros, u32-le32}
use youdge.Users.{Engine}
use youdge.Handlers.{State, Disk, FileEntry, cstr, overwrite}
use youdge.Handlers.Types.{number, flush_file_request, flush_file_respond}
use youdge.Handlers.Files.{real_entries, file_infos, flush_file, handle_pdu}
use youdge.Desktop.{App, FileInfo, field, with_text, get_index, flush_file_of}
use youdge.Desktop.Fields.{
  IsText, IsName, IsReadable, length-field, cstr-field, cstr-append, drop_all, overwrite_lem,
  with_text-ca_msg,
}
use youdge.Desktop.Browser.{item_texts, update_file_list}
use youdge.Desktop.Replies.{read_infos, handle_res, flush_file_res}

abbrev pub AllEntries : List FileEntry → Type 0
AllEntries [] = Unit {0}
AllEntries (e ∷ l) = IsName e.file_name × AllEntries l

abbrev pub type_of : FileEntry → ℕ
type_of e = if e.is_dir then 0 else 1

-- Entries other than the two dots.
abbrev pub AllReal : List FileEntry → Type 0
AllReal [] = Unit {0}
AllReal (e ∷ l) =
    (IsName e.file_name × (e.file_name ≢ codes ".") × (e.file_name ≢ codes "..")) × AllReal l

AllReal-AllEntries :
    (l more : List FileEntry) → AllReal l → AllEntries more → AllEntries (l ++ more)
AllReal-AllEntries [] more h k = k
AllReal-AllEntries (e ∷ l) more h k = (h.0.0, AllReal-AllEntries l more h.1 k)

real_entries-AllReal :
    (l more : List FileEntry) → AllReal l → real_entries (l ++ more) ≡ l ++ real_entries more
unfolding real_entries
real_entries-AllReal [] more h = refl
real_entries-AllReal (e ∷ l) more ((n, one, two), h) =
    ground (arith, one, two, real_entries-AllReal l more h)

real_entries-skip :
    (e : FileEntry) (l : List FileEntry)
    → (e.file_name ≡ codes ".") ⊎ (e.file_name ≡ codes "..")
    → real_entries (e ∷ l) ≡ real_entries l
unfolding real_entries
real_entries-skip e l (inl q) = ground (arith, q)
real_entries-skip e l (inr q) = ground (arith, q)

-- Which entries are listed.
real_entries-dots :
    (front mid back : List FileEntry) (dot dots : FileEntry)
    → dot.file_name ≡ codes "."
    → dots.file_name ≡ codes ".."
    → AllReal front
    → AllReal mid
    → AllReal back
    → real_entries (front ++ (dot ∷ (mid ++ (dots ∷ back)))) ≡ front ++ (mid ++ back)
unfolding real_entries
real_entries-dots front mid back dot dots one two f m b =
    real_entries-AllReal front _ f
    ∙ ap (λ l. front ++ l)
        (real_entries-skip dot _ (inl one)
          ∙ real_entries-AllReal mid _ m
          ∙ ap (λ l. mid ++ l) (real_entries-skip dots back (inr two) ∙ all_real))
  where
    all_real : real_entries back ≡ back
    all_real =
        ap real_entries (sym (append-nil back)) ∙ real_entries-AllReal back [] b ∙ append-nil back

length-dots :
    (front mid back : List FileEntry) (dot dots : FileEntry)
    → length (front ++ (mid ++ back)) + 2 ≡ length (front ++ (dot ∷ (mid ++ (dots ∷ back))))
length-dots front mid back dot dots = omega (
  arith,
  length-append front (mid ++ back),
  length-append mid back,
  length-append front (dot ∷ (mid ++ (dots ∷ back))),
  length-append mid (dots ∷ back),
)

-- What the client keeps of an entry.
abbrev pub info_of : (Str → Str) → FileEntry → FileInfo
info_of behind e = record { ca_name = field behind e.file_name; file_type = type_of e }

file_infos-field :
    (behind : Str → Str) (e : FileEntry) (l : List FileEntry)
    → file_infos behind (e ∷ l)
      ≡ field behind e.file_name ++ (le32 (type_of e) ++ file_infos behind l)
unfolding file_infos field
file_infos-field behind e l = refl

length-le32 : (n : ℕ) → length (le32 n) ≡ 4
unfolding le32
length-le32 n = omega arith

length-file_infos :
    (behind : Str → Str) (l : List FileEntry)
    → IsReadable behind
    → length (file_infos behind l) ≡ 36 * length l
unfolding file_infos
length-file_infos behind [] r = omega arith
length-file_infos behind (e ∷ l) r = omega (
  arith,
  ap length (file_infos-field behind e l),
  length-append (field behind e.file_name) (le32 (type_of e) ++ file_infos behind l),
  length-append (le32 (type_of e)) (file_infos behind l),
  length-field behind e.file_name r,
  length-le32 (type_of e),
  length-file_infos behind l r,
)

type_of_small : (e : FileEntry) → type_of e < 2 ^ 32
type_of_small e = ground arith

-- The client reads back the structs that the server writes.
read_infos-file_infos :
    (behind : Str → Str) (l : List FileEntry)
    → IsReadable behind
    → read_infos (length l) (file_infos behind l) ≡ some (map (info_of behind) l)
unfolding read_infos
read_infos-file_infos behind [] r = refl
read_infos-file_infos behind (e ∷ l) r =
    let f = field behind e.file_name in
    let t = le32 (type_of e) in
    let more = file_infos behind l in
    let long = length-field behind e.file_name r in
    let start = file_infos-field behind e l in
    let name : take 32 (file_infos behind (e ∷ l)) ≡ f =
      ap (take 32) start ∙ take-append 32 f (t ++ more) long in
    let type : u32 (drop 32 (file_infos behind (e ∷ l))) ≡ type_of e =
      ap (λ b. u32 (drop 32 b)) start
      ∙ ap u32 (drop-append 32 f (t ++ more) long)
      ∙ u32-le32 (type_of e) more (type_of_small e) in
    let later : drop 36 (file_infos behind (e ∷ l)) ≡ more =
      ap (drop 36) start
      ∙ ap (drop 36) (sym (append_assoc f t more))
      ∙ drop-append 36 (f ++ t) more
          (omega (arith, length-append f t, long, length-le32 (type_of e))) in
    let room : leb 36 (length (file_infos behind (e ∷ l))) ≡ true =
      ground (arith, length-file_infos behind (e ∷ l) r) in
    rw (later, room, name, type, read_infos-file_infos behind l r, ◌>>=◌) refl

pub item_texts-info_of :
    (behind : Str → Str) (l : List FileEntry)
    → AllEntries l
    → item_texts (map (info_of behind) l) ≡ some (map (λ (e : FileEntry). e.file_name) l)
unfolding item_texts
item_texts-info_of behind [] h = refl
item_texts-info_of behind (e ∷ l) h =
    rw (cstr-field behind e.file_name h.0, item_texts-info_of behind l h.1, ◌>>=◌) refl

-- The buffer of the reply is filled to its end.
overwrite-zeros : (bytes : Str) (n : ℕ) → length bytes ≡ n → overwrite bytes (zeros n) ≡ bytes
overwrite-zeros bytes n e =
    overwrite_lem bytes (zeros n) (omega (arith, e, length-zeros n))
    ∙ ap (λ r. bytes ++ r) (drop_all (length bytes) (zeros n) (omega (arith, e, length-zeros n)))
    ∙ append-nil bytes

module _ {W : Type 0} (exec : Engine W) (disk : Disk W) (root_path : Str) (behind : Str → Str)
    (memory : Str → Str) where
  -- The reply for the entries of a directory.
  abbrev infos_reply : List FileEntry → Pdu
  infos_reply l = record (mk_pdu (number flush_file_respond) (36 * length l)) {
    ca_msg = file_infos behind l;
  }

  infos_reply-handle_res :
      (l : List FileEntry) (agreed : Bool) (a : App)
      → IsReadable behind
      → AllEntries l
      → handle_res memory agreed (infos_reply l) a
        ≡ some (record (get_index memory a) {
          file_infos = map (info_of behind) l;
          file_items = map (λ (e : FileEntry). e.file_name) l;
        })
  unfolding handle_res mk_pdu flush_file_res update_file_list
  infos_reply-handle_res l agreed a r h =
      let n : 36 * length l / 36 ≡ length l = omega arith in
      rw (n, read_infos-file_infos behind l r, item_texts-info_of behind l h, ◌>>=◌) refl

  flush_file_of-handle_pdu :
      (depth : ℕ) (s : State W) (a : App)
      → handle_pdu exec disk root_path behind depth s (flush_file_of memory a)
        ≡ flush_file exec disk root_path behind s (flush_file_of memory a)
  unfolding handle_pdu flush_file_of with_text mk_pdu
  flush_file_of-handle_pdu depth s a = refl

  flush_file_of-path :
      (a : App)
      → IsText a.cur_path
      → length a.cur_path < 2 ^ 31
      → cstr (flush_file_of memory a).ca_msg ≡ some a.cur_path
  unfolding flush_file_of
  flush_file_of-path a h small =
      ap cstr (with_text-ca_msg flush_file_request a.cur_path small) ∙ cstr-append a.cur_path [] h

  -- The server's buffer has room for the entries less the two dots.
  flush_file-reply :
      (all l : List FileEntry) (s : State W) (a : App)
      → IsReadable behind
      → IsText a.cur_path
      → length a.cur_path < 2 ^ 31
      → disk.entries s.world a.cur_path ≡ all
      → real_entries all ≡ l
      → length l + 2 ≡ length all
      → 36 * length l < 2 ^ 31
      → flush_file exec disk root_path behind s (flush_file_of memory a)
        ≡ some (s, some (infos_reply l))
  unfolding flush_file mk_pdu
  flush_file-reply all l s a r h small there real two fits =
      let n : length all - 2 ≡ length l = omega (arith, two) in
      let room : leb (length l + 2) (length all) ≡ true = ground (arith, two) in
      let size : (76 + 36 * length l) % 2 ^ 32 - 76 ≡ 36 * length l = omega (arith, fits) in
      let bytes : overwrite (file_infos behind l) (zeros (36 * length l)) ≡ file_infos behind l =
        overwrite-zeros (file_infos behind l) (36 * length l) (length-file_infos behind l r) in
      rw (flush_file_of-path a h small, there, real, ◌>>=◌) (rw (n, room) (rw size (rw bytes refl)))

  -- For a directory that has the entries `.` and then `..`, with other entries before, between and
  -- behind them, whose names have fewer than 32 bytes and no zero byte: the page of files lists all
  -- entries but these two, in their order, with each one's kind. The directory's path has no zero
  -- byte and fewer than 2 ^ 31 bytes, the reply has fewer than 2 ^ 31 bytes, and the memory behind
  -- names on the server is readable.
  pub flush_file-handle_res :
      (front mid back : List FileEntry) (dot dots : FileEntry) (depth : ℕ) (s : State W)
      (agreed : Bool) (a : App)
      → IsReadable behind
      → IsText a.cur_path
      → length a.cur_path < 2 ^ 31
      → disk.entries s.world a.cur_path ≡ front ++ (dot ∷ (mid ++ (dots ∷ back)))
      → dot.file_name ≡ codes "."
      → dots.file_name ≡ codes ".."
      → AllReal front
      → AllReal mid
      → AllReal back
      → 36 * length (front ++ (mid ++ back)) < 2 ^ 31
      → (r : Pdu) × (handle_pdu exec disk root_path behind depth s (flush_file_of memory a)
          ≡ some (s, some r))
        × (handle_res memory agreed r a
            ≡ some (record (get_index memory a) {
              file_infos = map (info_of behind) (front ++ (mid ++ back));
              file_items = map (λ (e : FileEntry). e.file_name) (front ++ (mid ++ back));
            }))
  flush_file-handle_res front mid back dot dots depth s agreed a r h small there one two f m b
        fits =
      let l : List FileEntry = front ++ (mid ++ back) in
      let real = real_entries-dots front mid back dot dots one two f m b in
      let names = AllReal-AllEntries front (mid ++ back) f (
        AllReal-AllEntries mid back m
          (subst AllEntries (append-nil back) (AllReal-AllEntries back [] b tt))) in
      (
        infos_reply l,
        flush_file_of-handle_pdu depth s a
            ∙ flush_file-reply _ l s a r h small there real (length-dots front mid back dot dots)
                fits,
        infos_reply-handle_res l agreed a r names,
      )
