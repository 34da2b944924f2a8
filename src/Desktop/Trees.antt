-- ===== src/Desktop/Trees.antt =====
-- Trees of directories and moves in them, beside the tests of Client/file.cpp on names and paths.
use youdge.Base.{
  ◌≤◌, ◌≡◌, ◌≢◌, refl, sym, ap, ◌∙◌, Bool, true, false, not, List, [], ◌∷◌, ◌++◌, none, some, Str,
  str_dec, subst, ◌==◌, map, length, length-append, arith, if_pos, if_neg, if◌then◌else◌, ◌>>=◌,
}
use youdge.Pdu.Wire.{take-append}
use youdge.Handlers.{FileEntry, join}
use youdge.Desktop.Fields.{cstr-field}
use youdge.Desktop.Listing.{AllEntries, info_of}
use youdge.Desktop.Browser.{is_listed_file, last_slash, parent_path}

-- A name without a slash.
abbrev pub IsPlain : Str → Type 0
IsPlain [] = Unit {0}
IsPlain (c ∷ l) = ¬ (c ≡ b'/') × IsPlain l

last_slash-IsPlain : (name : Str) → IsPlain name → last_slash name ≡ none
unfolding last_slash
last_slash-IsPlain [] h = refl
last_slash-IsPlain (c ∷ name) h = ground (arith, h.0, last_slash-IsPlain name h.1)

last_slash-join : (p name : Str) → IsPlain name → last_slash (join p name) ≡ some (length p)
unfolding last_slash
last_slash-join [] name h = ground (arith, last_slash-IsPlain name h)
last_slash-join (c ∷ p) name h = rw (last_slash-join p name h) refl

-- Going back from a directory leads to where it lies.
pub parent_path-join : (p name : Str) → IsPlain name → parent_path (join p name) ≡ p
unfolding parent_path
parent_path-join p name h =
    rw (last_slash-join p name h, parent_path) (take-append (length p) p (b'/' ∷ name) refl)

pub data Move : Type 0 where
  go_in : Str → Move
  go_back : Move

-- The directories that the user is in, the innermost one first.
abbrev pub Stack : Type 0
Stack = List Str

abbrev pub path_of : Str → Stack → Str
path_of user [] = user
path_of user (name ∷ st) = join (path_of user st) name

-- No entry has this name.
abbrev pub Absent : Str → List FileEntry → Type 0
Absent name [] = Unit {0}
Absent name (e ∷ l) = (e.file_name ≢ name) × Absent name l

-- The directory has one entry of this name, which is a directory or a file.
pub record Has (name : Str) (is_dir : Bool) (l : List FileEntry) : Type 0 where
  pub front : List FileEntry
  pub entry : FileEntry
  pub back : List FileEntry
  pub whole : l ≡ front ++ (entry ∷ back)
  pub named : entry.file_name ≡ name
  pub kind : entry.is_dir ≡ is_dir
  pub before : Absent name front
  pub behind : Absent name back

-- Where a move leads in a tree of directories, given by the entries under each path: into an entry
-- that is a directory, nowhere at an entry that is a file, back, and nowhere back from the user's
-- own directory.
pub data TreeMove (tree : Str → List FileEntry) (user : Str) : Move → Stack → Stack → Type 0 where
  enters :
      (name : Str) (st : Stack)
      → IsPlain name
      → Has name true (tree (path_of user st))
      → TreeMove tree user (go_in name) st (name ∷ st)
  refuses :
      (name : Str) (st : Stack)
      → Has name false (tree (path_of user st))
      → TreeMove tree user (go_in name) st st
  leaves : (name : Str) (st : Stack) → TreeMove tree user go_back (name ∷ st) st
  at_home : TreeMove tree user go_back [] []

pub data TreeMoves (tree : Str → List FileEntry) (user : Str)
    : List Move → Stack → Stack → Type 0 where
  ends : (st : Stack) → TreeMoves tree user [] st st
  further :
      (m : Move) (l : List Move) (st mid st' : Stack)
      → TreeMove tree user m st mid
      → TreeMoves tree user l mid st'
      → TreeMoves tree user (m ∷ l) st st'

abbrev pub PlainStack : Stack → Type 0
PlainStack [] = Unit {0}
PlainStack (name ∷ st) = IsPlain name × PlainStack st

path_of_longer : (user : Str) (st : Stack) → length user ≤ length (path_of user st)
path_of_longer user [] = omega arith
path_of_longer user (name ∷ st) =
    omega (arith, path_of_longer user st, length-append (path_of user st) (b'/' ∷ name))

pub path_of_ne : (user name : Str) (st : Stack) → ¬ (path_of user (name ∷ st) ≡ user)
path_of_ne user name st e =
    omega
      (arith, ap length e, path_of_longer user st, length-append (path_of user st) (b'/' ∷ name))

pub join_ne : (p name : Str) → join p name ≢ p
join_ne p name e = omega (arith, ap length e, length-append p (b'/' ∷ name))

-- The test of a click on an item, at the list of a directory.
module _ (memory : Str → Str) (name : Str) where
  is_listed_file-Absent :
      (l : List FileEntry)
      → AllEntries l
      → Absent name l
      → is_listed_file name (map (info_of memory) l) ≡ some false
  unfolding is_listed_file
  is_listed_file-Absent [] h n = refl
  is_listed_file-Absent (e ∷ l) h n =
      rw (cstr-field memory e.file_name h.0, is_listed_file-Absent l h.1 n.1, ◌>>=◌)
        (if_neg (str_dec name e.file_name) (λ q. n.0 (sym q)) _ _)

  is_listed_file-entry :
      (e : FileEntry) (l : List FileEntry)
      → AllEntries (e ∷ l)
      → e.file_name ≡ name
      → Absent name l
      → is_listed_file name (map (info_of memory) (e ∷ l)) ≡ some (not e.is_dir)
  unfolding is_listed_file
  is_listed_file-entry e l h q n =
      rw (cstr-field memory e.file_name h.0, is_listed_file-Absent l h.1 n, ◌>>=◌)
        (if_pos (str_dec name e.file_name) (sym q) _ _ ∙ by e.is_dir)
    where
      by : (b : Bool) → (if (if b then 0 else 1) == 0 then some false else some true) ≡ some (not b)
      by true = refl
      by false = refl

  is_listed_file-append :
      (front : List FileEntry) (e : FileEntry) (back : List FileEntry)
      → AllEntries (front ++ (e ∷ back))
      → Absent name front
      → e.file_name ≡ name
      → Absent name back
      → is_listed_file name (map (info_of memory) (front ++ (e ∷ back))) ≡ some (not e.is_dir)
  unfolding is_listed_file
  is_listed_file-append [] e back h n q m = is_listed_file-entry e back h q m
  is_listed_file-append (d ∷ front) e back h n q m =
      rw (cstr-field memory d.file_name h.0, is_listed_file-append front e back h.1 n.1 q m, ◌>>=◌)
        (if_neg (str_dec name d.file_name) (λ r. n.0 (sym r)) _ _)

  pub is_listed_file-Has :
      (l : List FileEntry) (is_dir : Bool)
      → AllEntries l
      → Has name is_dir l
      → is_listed_file name (map (info_of memory) l) ≡ some (not is_dir)
  is_listed_file-Has l is_dir h e =
      ap (λ x. is_listed_file name (map (info_of memory) x)) e.whole
      ∙ is_listed_file-append e.front e.entry e.back (subst AllEntries e.whole h) e.before e.named
          e.behind
      ∙ ap (λ b. some (not b)) e.kind
