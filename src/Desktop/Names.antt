-- ===== src/Desktop/Names.antt =====
-- The lists of names: from the database through Server/msghandler.cpp to the lists of the client's
-- pages.
use youdge.Base.{
  ℕ, ◌*◌, ◌/◌, ◌≡◌, ◌≢◌, refl, sym, ap, subst, ◌∙◌, str_dec, if_pos, if_neg, Bool, true, List, [],
  ◌∷◌, ◌++◌, some, Str, length, drop, leb, length-append, arith, ◌>>=◌,
}
use mathlib.Core.List.{append_assoc, append-nil}
use youdge.Pdu.{Pdu, mk_pdu, zeros}
use youdge.Pdu.Wire.{take-append, drop-append, length-zeros}
use youdge.Users.{Engine, handle_online_user, handle_online_friend}
use youdge.Handlers.{State, Disk, name_at, name_fields, names_reply, online_user, flush_friend}
use youdge.Handlers.Types.{number, online_user_request, online_user_respond, flush_friend_respond}
use youdge.Handlers.Files.{handle_pdu}
use youdge.Desktop.{App, field, get_index, flush_friend_of}
use youdge.Desktop.Fields.{put_at-zero, IsName, IsReadable, length-field, cstr-field, name_at-first}
use youdge.Desktop.Replies.{
  name_front, read_names, without, handle_res, online_user_res, flush_friend_res,
}

abbrev pub AllNames : List Str → Type 0
AllNames [] = Unit {0}
AllNames (name ∷ names) = IsName name × AllNames names

-- The server's fields are the client's.
pub name_fields-field :
    (behind : Str → Str) (name : Str) (names : List Str)
    → name_fields behind (name ∷ names) ≡ field behind name ++ name_fields behind names
unfolding name_fields field
name_fields-field behind name names = refl

front_name :
    (behind : Str → Str) (name more : Str)
    → IsReadable behind
    → IsName name
    → name_front (field behind name ++ more) ≡ some name
unfolding name_front
front_name behind name more r n =
    let long = length-field behind name r in
    let all : leb 32 (length (field behind name ++ more)) ≡ true =
      ground (arith, length-append (field behind name) more, long) in
    rw (all, take-append 32 (field behind name) more long) (cstr-field behind name n)

-- Reading back the fields of names, with what follows them in memory.
pub read_names-name_fields :
    (behind : Str → Str) (names : List Str) (rest : Str)
    → IsReadable behind
    → AllNames names
    → read_names (length names) (name_fields behind names ++ rest) ≡ some names
unfolding read_names name_fields
read_names-name_fields behind [] rest r h = refl
read_names-name_fields behind (name ∷ names) rest r h =
    let more : Str = name_fields behind names ++ rest in
    let start : name_fields behind (name ∷ names) ++ rest ≡ field behind name ++ more =
      ap (λ x. x ++ rest) (name_fields-field behind name names)
      ∙ append_assoc (field behind name) (name_fields behind names) rest in
    let long = length-field behind name r in
    let front : name_front (field behind name ++ more) ≡ some name =
      front_name behind name more r h.0 in
    let later : drop 32 (field behind name ++ more) ≡ more =
      drop-append 32 (field behind name) more long in
    rw (start, front, ◌>>=◌) (rw later (rw (read_names-name_fields behind names rest r h.1) refl))

-- The reply with these names.
reply_names :
    (behind : Str → Str) (names : List Str)
    → IsReadable behind
    → AllNames names
    → read_names (length names * 32 / 32) (name_fields behind names) ≡ some names
reply_names behind names r h =
    let n : length names * 32 / 32 ≡ length names = omega arith in
    ap (λ k. read_names k (name_fields behind names)) n
    ∙ ap (read_names (length names)) (sym (append-nil (name_fields behind names)))
    ∙ read_names-name_fields behind names [] r h

-- The second list is the first one less this name, in its order.
pub data IsWithout (own : Str) : List Str → List Str → Type 0 where
  no_names : IsWithout own [] []
  leaves_out :
      (name : Str) (l rest : List Str)
      → name ≡ own
      → IsWithout own l rest
      → IsWithout own (name ∷ l) rest
  lists :
      (name : Str) (l rest : List Str)
      → name ≢ own
      → IsWithout own l rest
      → IsWithout own (name ∷ l) (name ∷ rest)

without-IsWithout : (own : Str) (l : List Str) → IsWithout own l (without own l)
unfolding without
without-IsWithout own [] = no_names
without-IsWithout own (name ∷ l) =
    let rest = without-IsWithout own l in
    elim (str_dec name own) [
      | yes e ↦
          subst (IsWithout own (name ∷ l)) (sym (if_pos (str_dec name own) e _ _))
            (leaves_out name l (without own l) e rest)
      | no n ↦
          subst (IsWithout own (name ∷ l)) (sym (if_neg (str_dec name own) n _ _))
            (lists name l (without own l) n rest)
    ]

module _ {W : Type 0} (exec : Engine W) (disk : Disk W) (root_path : Str) (behind : Str → Str)
    (memory : Str → Str) where
  online_reply :
      (names : List Str) (agreed : Bool) (a : App)
      → IsReadable behind
      → AllNames names
      → handle_res memory agreed (names_reply behind online_user_respond names) a
        ≡ some (record (get_index memory a) { online_users = without a.login_name names })
  unfolding handle_res mk_pdu online_user_res
  online_reply names agreed a r h = rw (reply_names behind names r h, ◌>>=◌) refl

  friend_reply :
      (names : List Str) (agreed : Bool) (a : App)
      → IsReadable behind
      → AllNames names
      → handle_res memory agreed (names_reply behind flush_friend_respond names) a
        ≡ some (record (get_index memory a) { friends = names })
  unfolding handle_res mk_pdu flush_friend_res
  friend_reply names agreed a r h = rw (reply_names behind names r h, ◌>>=◌) refl

  -- For names from the database of fewer than 32 bytes each, without a zero byte, and readable
  -- memory behind them on the server: the page of the users that are online lists the database's
  -- names, in their order, but the user's own name.
  pub online_user-handle_res :
      (names : List Str) (depth : ℕ) (s : State W) (agreed : Bool) (a : App)
      → IsReadable behind
      → (handle_online_user exec s.world).1 ≡ names
      → AllNames names
      → (r : Pdu) × (handle_pdu exec disk root_path behind depth s
            (mk_pdu (number online_user_request) 0)
          ≡ some (record s { world = (handle_online_user exec s.world).0 }, some r))
        × (l : List Str) × IsWithout a.login_name names l
        × (handle_res memory agreed r a ≡ some (record (get_index memory a) { online_users = l }))
  unfolding handle_pdu online_user mk_pdu
  online_user-handle_res names depth s agreed a r e h = (
    names_reply behind online_user_respond names,
    ap
        (λ l. some (
          record s { world = (handle_online_user exec s.world).0 },
          some (names_reply behind online_user_respond l),
        ))
        e,
    without a.login_name names,
    without-IsWithout a.login_name names,
    online_reply names agreed a r h,
  )

  flush_friend-names :
      (b : App)
      → IsReadable memory
      → IsName b.login_name
      → name_at 0 (flush_friend_of memory b) ≡ some b.login_name
  unfolding flush_friend_of mk_pdu
  flush_friend-names b r n = name_at-first memory b.login_name _ (flush_friend_of memory b) r n (
      put_at-zero (field memory b.login_name) (zeros 64)
        (omega (arith, length-field memory b.login_name r, length-zeros 64)))

  flush_friend_of-handle_pdu :
      (depth : ℕ) (s : State W) (b : App)
      → handle_pdu exec disk root_path behind depth s (flush_friend_of memory b)
        ≡ flush_friend exec disk root_path behind s (flush_friend_of memory b)
  unfolding handle_pdu flush_friend_of mk_pdu
  flush_friend_of-handle_pdu depth s b = refl

  -- The page of friends lists those that the database gives for the user's name.
  pub flush_friend-handle_res :
      (names : List Str) (depth : ℕ) (s : State W) (agreed : Bool) (a : App)
      → IsReadable behind
      → IsReadable memory
      → IsName a.login_name
      → (handle_online_friend exec s.world a.login_name).1 ≡ names
      → AllNames names
      → (r : Pdu) × (handle_pdu exec disk root_path behind depth s (flush_friend_of memory a)
          ≡ some (record s { world = (handle_online_friend exec s.world a.login_name).0 }, some r))
        × (handle_res memory agreed r a ≡ some (record (get_index memory a) { friends = names }))
  unfolding flush_friend
  flush_friend-handle_res names depth s agreed a r m n e h = (
    names_reply behind flush_friend_respond names,
    flush_friend_of-handle_pdu depth s a
        ∙ rw (flush_friend-names a m n, ◌>>=◌)
            (ap
              (λ l. some (
                record s { world = (handle_online_friend exec s.world a.login_name).0 },
                some (names_reply behind flush_friend_respond l),
              ))
              e),
    friend_reply names agreed a r h,
  )
