-- ===== src/Users.antt =====
-- Server/operatedb.cpp: the users and their friends. The SQL engine is a parameter: it runs a
-- statement, and answers whether that succeeded and the first column of each row. A statement is
-- its template with the arguments; how the engine reads the text is not modelled. The callers pass
-- arrays, so the tests for null pointers are left out.
use youdge.Base.{Bool, true, false, List, [], ◌∷◌, Option, none, some, Str, map}
use youdge.Base.Int.{ℤ, pos, negsuc}

pub data Sql : Type 0 where
  select_user : Str → Sql
  insert_user : Str → Str → Sql
  select_login : Str → Str → Sql
  update_online : Str → Str → Sql
  update_offline : Str → Sql
  select_online : Str → Sql
  select_online_names : Sql
  select_friend : Str → Str → Sql
  insert_friend : Str → Str → Sql
  select_online_friends : Str → Sql
  delete_friend : Str → Str → Sql

-- `q.value(0)`
pub record Value : Type 0 where
  pub to_int : ℤ
  pub to_string : Str

-- The engine: `none` where `exec` answers false, else the rows.
abbrev pub Engine : Type 0 → Type 0
Engine W = W → Sql → W × Option (List Value)

-- What `next` goes through after an `exec` whose answer is not read.
abbrev pub rows : Option (List Value) → List Value
rows none = []
rows (some l) = l

abbrev pub succeeded : Option (List Value) → Bool
succeeded none = false
succeeded (some l) = true

module _ {W : Type 0} (exec : Engine W) where
  abbrev pub exec_bool : W → Sql → W × Bool
  exec_bool w sql = let (w', r) = exec w sql in (w', succeeded r)

  unfoldable pub regist_rest : Str → Str → W × Option (List Value) → W × Bool
  regist_rest name pwd (w, none) = (w, false)
  regist_rest name pwd (w, some (row ∷ l)) = (w, false)
  regist_rest name pwd (w, some []) = exec_bool w (insert_user name pwd)

  unfoldable pub handle_regist : W → Str → Str → W × Bool
  handle_regist w name pwd = regist_rest name pwd (exec w (select_user name))

  unfoldable pub login_rest : Str → Str → W × Option (List Value) → W × Bool
  login_rest name pwd (w, none) = (w, false)
  login_rest name pwd (w, some []) = (w, false)
  login_rest name pwd (w, some (row ∷ l)) = exec_bool w (update_online name pwd)

  unfoldable pub handle_login : W → Str → Str → W × Bool
  handle_login w name pwd = login_rest name pwd (exec w (select_login name pwd))

  unfoldable pub handle_offline : W → Str → W
  handle_offline w name = (exec w (update_offline name)).0

  -- 0 off line, 1 on line, 2 unknown, -1 where the statement fails.
  unfoldable pub find_answer : Option (List Value) → ℤ
  find_answer none = negsuc 0
  find_answer (some []) = pos 2
  find_answer (some (row ∷ l)) = row.to_int

  unfoldable pub handle_find_user : W → Str → W × ℤ
  handle_find_user w name = let (w', r) = exec w (select_online name) in (w', find_answer r)

  unfoldable pub handle_online_user : W → W × List Str
  handle_online_user w =
      let (w', r) = exec w select_online_names in (w', map (λ (v : Value). v.to_string) (rows r))

  abbrev pub first_int : List Value → ℤ
  first_int [] = negsuc 0
  first_int (row ∷ l) = row.to_int

  unfoldable pub add_friend_rest : Str → W → List Value → W × ℤ
  add_friend_rest tar w (row ∷ l) = (w, negsuc 1)
  add_friend_rest tar w [] = let (w', r) = exec w (select_online tar) in (w', first_int (rows r))

  unfoldable pub handle_add_friend : W → Str → Str → W × ℤ
  handle_add_friend w cur tar =
      let (w', r) = exec w (select_friend cur tar) in add_friend_rest tar w' (rows r)

  unfoldable pub handle_add_friend_agree : W → Str → Str → W × Bool
  handle_add_friend_agree w cur tar = exec_bool w (insert_friend cur tar)

  unfoldable pub handle_online_friend : W → Str → W × List Str
  handle_online_friend w cur =
      let (w', r) = exec w (select_online_friends cur) in
      (w', map (λ (v : Value). v.to_string) (rows r))

  unfoldable pub del_friend_rest : Str → Str → W → List Value → W × Bool
  del_friend_rest cur tar w [] = (w, false)
  del_friend_rest cur tar w (row ∷ l) = exec_bool w (delete_friend cur tar)

  unfoldable pub handle_del_friend : W → Str → Str → W × Bool
  handle_del_friend w cur tar =
      let (w', r) = exec w (select_friend cur tar) in del_friend_rest cur tar w' (rows r)
