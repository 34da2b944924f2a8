-- ===== src/Desktop/Offer.antt =====
-- A file that is shared, from the sender's request to the copy in the directory of a friend who
-- accepts: Client/sharefile.cpp, Client/reshandler.cpp and Server/msghandler.cpp.
use mathlib.Core.List.{append-nil}
use youdge.Base.{
  ℕ, ◌+◌, ◌-◌, ◌*◌, ◌^◌, ◌<◌, ◌≡◌, refl, sym, ap, ◌∙◌, true, List, [], ◌∷◌, ◌++◌, some, Str, length,
  take, drop, leb, length-append, arith, ◌>>=◌,
}
use youdge.Pdu.{mk_pdu, zeros, u32, encode}
use youdge.Pdu.Wire.{length-zeros, take-append, drop-append}
use youdge.Users.{Engine}
use youdge.Handlers.{State, Sock, Disk, name_fields, overwrite, respond, bool_byte, join}
use youdge.Handlers.Types.{number, share_file_respond, share_file_agree_respond}
use youdge.Handlers.Files.{handle_pdu, share_file, share_file_agree}
use youdge.Desktop.{App, field, send_msg, get_index}
use youdge.Desktop.Fields.{IsText, IsName, IsReadable, length-field, cstr-append, overwrite_lem}
use youdge.Desktop.Browser.{int_field}
use youdge.Desktop.Sharing.{share_pdu}
use youdge.Desktop.Moving.{IsStack, u32-int_field}
use youdge.Desktop.Names.{AllNames}
use youdge.Desktop.Shared.{share_pdu_lem, resend_all-name_fields, length-name_fields}
use youdge.Desktop.Delivered.{EachGets, resend_each, resend_each-EachGets}
use youdge.Desktop.Trees.{IsPlain}
use youdge.Desktop.Replies.{handle_res}
use youdge.Desktop.Accept.{
  take_whole, cstr-front_field, offer, accept, offer-IsFrame, after_slash-join, resend-accept,
}

module _ {W : Type 0} (exec : Engine W) (disk : Disk W) (root_path : Str) (behind : Str → Str)
    (memory : Str → Str) (stack : ℕ → Str) where
  share_pdu-handle_pdu :
      (cur path : Str) (names : List Str) (depth : ℕ) (s : State W)
      → IsReadable memory
      → IsStack stack
      → length names * 32 + length path < 2 ^ 31
      → handle_pdu exec disk root_path behind depth s (share_pdu memory stack cur names path)
        ≡ share_file exec disk root_path behind s (share_pdu memory stack cur names path)
  unfolding handle_pdu mk_pdu
  share_pdu-handle_pdu cur path names depth s r st h =
      rw (share_pdu_lem memory stack cur path names r st h) refl

  offered :
      (cur path : Str) (names : List Str) (s : State W)
      → IsReadable memory
      → IsStack stack
      → AllNames names
      → length names * 32 + length path < 2 ^ 31
      → share_file exec disk root_path behind s (share_pdu memory stack cur names path)
        ≡ some (
          record s { sockets = resend_each names (offer memory cur path) s.sockets },
          some (mk_pdu (number share_file_respond) 0),
        )
  unfolding share_file mk_pdu
  offered cur path names s r st ns h =
      let n : ℕ = length names in
      let nf : Str = name_fields memory names in
      let f = field memory cur in
      let g = int_field memory stack n in
      let long = length-field memory cur r in
      let fields = length-name_fields memory names r in
      let body : Str = path ++ (0 ∷ []) in
      let size = length-append path (0 ∷ []) in
      let count : u32 (drop 32 (f ++ g)) ≡ n =
        ap u32 (drop-append 32 f g long)
        ∙ ap u32 (sym (append-nil g))
        ∙ u32-int_field memory stack n [] (omega arith) in
      let left : n * 32 + length path + 1 - n * 32 ≡ length path + 1 = omega arith in
      let fits : leb (n * 32) (n * 32 + length path + 1) ≡ true = ground arith in
      let whole : leb (n * 32 + length path + 1) (length (nf ++ body)) ≡ true =
        ground (arith, length-append nf body, fields, size) in
      let rest : take (length path + 1) (drop (n * 32) (nf ++ body)) ≡ body =
        ap (take (length path + 1)) (drop-append (n * 32) nf body fields)
        ∙ take_whole body (length path + 1) (omega (arith, size)) in
      let params : overwrite (take 32 (f ++ g)) (zeros 64) ≡ f ++ zeros 32 =
        ap (λ x. overwrite x (zeros 64)) (take-append 32 f g long)
        ∙ overwrite_lem f (zeros 64) (omega (arith, long, length-zeros 64))
        ∙ ap (λ k. f ++ drop k (zeros 64)) long in
      rw (share_pdu_lem memory stack cur path names r st h) (
        rw (count, left, fits, whole, rest, params)
          (rw
            (resend_all-name_fields memory names body (offer memory cur path) s.sockets r ns, ◌>>=◌)
            refl))

  accept-handle_pdu :
      (login path : Str) (depth : ℕ) (s : State W)
      → handle_pdu exec disk root_path behind depth s (accept memory login path)
        ≡ share_file_agree exec disk root_path behind depth s (accept memory login path)
  unfolding handle_pdu mk_pdu
  accept-handle_pdu login path depth s = refl

  copied :
      (login dir name : Str) (depth : ℕ) (s : State W)
      → IsName login
      → IsText (join dir name)
      → IsPlain name
      → disk.is_file s.world (join dir name) ≡ true
      → let copy = disk.copy s.world (join dir name) (join (join root_path login) name) in
        share_file_agree exec disk root_path behind depth s (accept memory login (join dir name))
        ≡ some (
          record s { world = copy.0 },
          some (respond share_file_agree_respond (bool_byte copy.1)),
        )
  unfolding share_file_agree
  copied login dir name depth s n t p file =
      rw (cstr-append (join dir name) [] t, cstr-front_field memory login n, file, ◌>>=◌)
        (rw (after_slash-join dir name (join dir name) p) refl)

  -- A shared file, whose path is a directory, a slash, and a name without a slash. The server
  -- writes the offer, with the sender's name and the path, to the sockets of each chosen friend and
  -- to no other ones; the client of a friend who agrees answers with the path and the friend's
  -- name; and the server then copies the file to that name in the directory of that friend. The
  -- names of users have fewer than 32 bytes and no zero byte, the path has no zero byte, path and
  -- names together have fewer than 2 ^ 30 bytes, the memory behind them is readable, and at the
  -- answer the path is a file on the server.
  pub share_file-copy :
      (cur dir name : Str) (names : List Str) (depth : ℕ) (s s' : State W) (b : App)
      → IsReadable memory
      → IsStack stack
      → IsName cur
      → IsName b.login_name
      → AllNames names
      → IsText (join dir name)
      → IsPlain name
      → length names * 32 + length (join dir name) < 2 ^ 30
      → disk.is_file s'.world (join dir name) ≡ true
      → let path = join dir name in
        let copy = disk.copy s'.world path (join (join root_path b.login_name) name) in
        ((sockets' : List Sock) × (handle_pdu exec disk root_path behind depth s
              (share_pdu memory stack cur names path)
            ≡ some (record s { sockets = sockets' }, some (mk_pdu (number share_file_respond) 0)))
          × EachGets (encode (offer memory cur path)) names s.sockets sockets')
        × (handle_res memory true (offer memory cur path) b
            ≡ some (send_msg (accept memory b.login_name path) (get_index memory b)))
        × (handle_pdu exec disk root_path behind depth s' (accept memory b.login_name path)
            ≡ some (
              record s' { world = copy.0 },
              some (respond share_file_agree_respond (bool_byte copy.1)),
            ))
  share_file-copy cur dir name names depth s s' b r st c l ns t p h file =
      let path : Str = join dir name in
      let whole = offer-IsFrame memory cur path r (omega (arith, h)) in
      (
        (
          resend_each names (offer memory cur path) s.sockets,
          share_pdu-handle_pdu cur path names depth s r st (omega (arith, h))
              ∙ offered cur path names s r st ns (omega (arith, h)),
          resend_each-EachGets names (offer memory cur path) whole s.sockets,
        ),
        resend-accept memory cur path b r c t (omega (arith, h)),
        accept-handle_pdu b.login_name path depth s'
            ∙ copied b.login_name dir name depth s' l t p file,
      )
