-- ===== src/Desktop/Paths.antt =====
-- The directory that the page of Client/file.cpp shows, as the user goes into directories and back.
use youdge.Base.{
  ℕ, ◌≡◌, ◌≢◌, refl, sym, ap, ◌∙◌, true, false, List, [], ◌∷◌, Option, some, Str, str_dec, map, ite,
  if_pos, if_neg, ◌>>=◌,
}
use youdge.Handlers.{FileEntry, join}
use youdge.Desktop.{App, FileInfo, not_a_dir, send_msg, flush_file_page, notify}
use youdge.Desktop.Listing.{AllEntries, info_of, item_texts-info_of}
use youdge.Desktop.Browser.{is_listed_file, parent_path, on_return, on_file_item, update_file_list}
use youdge.Desktop.Trees.{
  Move, go_in, go_back, Stack, path_of, TreeMove, enters, refuses, leaves, at_home, TreeMoves, ends,
  further, PlainStack, parent_path-join, path_of_ne, join_ne, is_listed_file-Has,
}

module _ (behind : Str → Str) (stack : ℕ → Str) (memory : Str → Str)
    (tree : Str → List FileEntry) where
  unfoldable pub move : Move → App → Option App
  move (go_in name) a = on_file_item behind stack name a
  move go_back a = some (on_return behind stack a)

  -- The list of files that the server gives for a path.
  abbrev pub listing : Str → List FileInfo
  listing path = map (info_of memory) (tree path)

  -- A click, and the reply to the request for the list that it makes if it changes the path.
  unfoldable pub page_move : Move → App → Option App
  page_move m a = do
    b ← move m a
    ite (str_dec b.cur_path a.cur_path) (some b) (update_file_list (listing b.cur_path) b)

  unfoldable pub page_moves : List Move → App → Option App
  page_moves [] a = some a
  page_moves (m ∷ l) a = do b ← page_move m a; page_moves l b

  -- The page is in these directories, below this one, with the files there listed.
  pub record IsIn (user : Str) (st : Stack) (a : App) : Type 0 where
    pub current : a.cur_path ≡ path_of user st
    pub home : a.user_path ≡ user
    pub listed : a.file_infos ≡ listing (path_of user st)
    pub plain : PlainStack st

  listing-update :
      (a : App)
      → AllEntries (tree a.cur_path)
      → update_file_list (listing a.cur_path) a
        ≡ some (record a {
          file_infos = listing a.cur_path;
          file_items = map (λ (e : FileEntry). e.file_name) (tree a.cur_path);
        })
  unfolding update_file_list
  listing-update a h = rw (item_texts-info_of memory (tree a.cur_path) h, ◌>>=◌) refl

  -- A click that changes the path leads to the list of the new one.
  refreshed :
      (m : Move) (user : Str) (st : Stack) (a b : App)
      → ((p : Str) → AllEntries (tree p))
      → move m a ≡ some b
      → b.cur_path ≢ a.cur_path
      → b.cur_path ≡ path_of user st
      → b.user_path ≡ user
      → PlainStack st
      → (c : App) × (page_move m a ≡ some c) × IsIn user st c
  unfolding page_move
  refreshed m user st a b named e away there home plain = (
    record b {
      file_infos = listing b.cur_path;
      file_items = map (λ (e : FileEntry). e.file_name) (tree b.cur_path);
    },
    rw (e, ◌>>=◌)
        (if_neg (str_dec b.cur_path a.cur_path) away _ _ ∙ listing-update b (named b.cur_path)),
    record { current = there; home = home; listed = ap listing there; plain = plain },
  )

  -- A click that leaves the path leaves the list.
  stayed :
      (m : Move) (user : Str) (st : Stack) (a b : App)
      → move m a ≡ some b
      → b.cur_path ≡ a.cur_path
      → IsIn user st b
      → (c : App) × (page_move m a ≡ some c) × IsIn user st c
  unfolding page_move
  stayed m user st a b e same i =
      (b, rw (e, ◌>>=◌) (if_pos (str_dec b.cur_path a.cur_path) same _ _), i)

  move-enters :
      (name : Str) (a : App)
      → is_listed_file name a.file_infos ≡ some false
      → move (go_in name) a
        ≡ some (flush_file_page behind (record a { cur_path = join a.cur_path name }))
  unfolding move on_file_item
  move-enters name a e = rw (e, ◌>>=◌) refl

  move-refuses :
      (name : Str) (a : App)
      → is_listed_file name a.file_infos ≡ some true
      → move (go_in name) a ≡ some (notify not_a_dir a)
  unfolding move on_file_item
  move-refuses name a e = rw (e, ◌>>=◌) refl

  move-leaves :
      (a : App)
      → a.cur_path ≢ a.user_path
      → move go_back a
        ≡ some (flush_file_page behind (record a { cur_path = parent_path a.cur_path }))
  unfolding move on_return
  move-leaves a n = ap some (if_neg (str_dec a.cur_path a.user_path) n _ _)

  move-at_home : (a : App) → a.cur_path ≡ a.user_path → move go_back a ≡ some a
  unfolding move on_return
  move-at_home a e = ap some (if_pos (str_dec a.cur_path a.user_path) e _ _)

  page_move-IsIn :
      (m : Move) (user : Str) (st st' : Stack) (a : App)
      → ((p : Str) → AllEntries (tree p))
      → IsIn user st a
      → TreeMove tree user m st st'
      → (b : App) × (page_move m a ≡ some b) × IsIn user st' b
  unfolding flush_file_page send_msg
  page_move-IsIn _ user _ _ a named i (enters name st p has) =
      let there : is_listed_file name a.file_infos ≡ some false =
        ap (is_listed_file name) i.listed
        ∙ is_listed_file-Has memory name _ true (named (path_of user st)) has in
      refreshed (go_in name) user (name ∷ st) a _ named (move-enters name a there)
        (join_ne a.cur_path name) (ap (λ q. join q name) i.current) i.home (p, i.plain)
  page_move-IsIn _ user _ _ a named i (refuses name st has) =
      let there : is_listed_file name a.file_infos ≡ some true =
        ap (is_listed_file name) i.listed
        ∙ is_listed_file-Has memory name _ false (named (path_of user st)) has in
      stayed (go_in name) user st a (notify not_a_dir a) (move-refuses name a there) refl
        (record { current = i.current; home = i.home; listed = i.listed; plain = i.plain })
  page_move-IsIn _ user _ _ a named i (leaves name st) =
      let below : a.cur_path ≢ a.user_path =
        λ h. path_of_ne user name st (sym i.current ∙ h ∙ i.home) in
      let up : parent_path a.cur_path ≡ path_of user st =
        ap parent_path i.current ∙ parent_path-join (path_of user st) name i.plain.0 in
      refreshed go_back user st a _ named (move-leaves a below)
        (λ q. join_ne (path_of user st) name (sym i.current ∙ sym q ∙ up)) up i.home i.plain.1
  page_move-IsIn _ user _ _ a named i at_home =
      stayed go_back user [] a a (move-at_home a (i.current ∙ sym i.home)) refl i

  pub page_moves-IsIn :
      (user : Str) (l : List Move) (st st' : Stack) (a : App)
      → ((p : Str) → AllEntries (tree p))
      → IsIn user st a
      → TreeMoves tree user l st st'
      → (b : App) × (page_moves l a ≡ some b) × IsIn user st' b
  unfolding page_moves
  page_moves-IsIn user _ _ _ a named i (ends st) = (a, refl, i)
  page_moves-IsIn user _ _ _ a named i (further m l st mid st' one more) =
      let (b, go, there) = page_move-IsIn m user st mid a named i one in
      let (c, run, end) = page_moves-IsIn user l mid st' b named there more in
      (c, rw (go, ◌>>=◌) run, end)
