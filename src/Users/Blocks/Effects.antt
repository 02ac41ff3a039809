-- ===== src/Users/Blocks/Effects.antt =====
-- Blocking and unblocking, and what a block does to direct chats.
use mathlib.Core.Path.{subst}
use secure_messenger.Prelude.{
  ◌==◌, is_some, find, any, delete_where, Text, ℕ, ◌≡◌, refl, ap, ◌∙◌, Bool, true, false, ◌&&◌,
  ◌||◌, Option, none, some, List, [], ◌∷◌, ◌++◌, arith,
}
use secure_messenger.Model.{Db}
use secure_messenger.Model.Accounts.{User, UserBlock}
use secure_messenger.Http.{status, Result, ok, err, handle}
use secure_messenger.Http.Ends.{
  Ends-gets, Ends-or_raise, Ends-raise_if, Ends-modify, Ends-commit_last, handle_by, Ends-found,
  Ends-passed,
}
use secure_messenger.Queries.{find_user, find_active_user, is_blocked}
use secure_messenger.Users.Blocks.{
  block_key, get_block, insert_block, delete_block, block_user, unblock_user,
}
use secure_messenger.Serializers.{ChatResponse}
use secure_messenger.Chats.Direct.{create_direct_chat}

-- The outcome of a block: refused and nothing changed, or the row is there and was not before.
abbrev pub BlockLeaves : ℕ → ℕ → ℕ → Db → Result (Unit {0}) → Db → Type 0
BlockLeaves blocker blocked now db (ok u) after =
    ((blocked == blocker) ≡ false)
    × (get_block blocker blocked db ≡ none)
    × (after ≡ insert_block blocker blocked now db)
BlockLeaves blocker blocked now db (err e) after = after ≡ db

block_user-Leaves :
    (login : Text) (current other : User) (now : ℕ) (db : Db)
    → find_active_user login db ≡ some other
    → let (r, after) = handle (block_user login current now) db in
      BlockLeaves current.id other.id now db r after
unfolding block_user
block_user-Leaves login current other now db known =
    handle_by (BlockLeaves current.id other.id now db) _ db (
      Ends-gets _ _ (
        Ends-found _ _ _ other known (
          Ends-raise_if _ _ _ (λ _. refl)
            λ apart. Ends-gets _ _ (
              Ends-raise_if _ _ _ (λ _. refl)
                λ free. Ends-modify _ _ (Ends-commit_last (apart, none_of_free _ free, refl))))))
  where
    none_of_free : (o : Option UserBlock) → is_some o ≡ false → o ≡ none
    none_of_free none h = refl
    none_of_free (some b) h = absurd (ground (arith, h))

delete-inserted :
    (p : UserBlock → Bool) (b : UserBlock) (bs : List UserBlock)
    → p b ≡ true
    → find p bs ≡ none
    → delete_where p (bs ++ b ∷ []) ≡ bs
delete-inserted p b [] h e = ground (arith, h)
delete-inserted p b (x ∷ bs) h e = ground (arith, h, delete-inserted p b bs h)

delete-insert_block :
    (blocker blocked now : ℕ) (db : Db)
    → get_block blocker blocked db ≡ none
    → delete_block blocker blocked (insert_block blocker blocked now db) ≡ db
unfolding delete_block insert_block get_block
delete-insert_block blocker blocked now db free =
    ap (λ bs. record db { user_blocks = bs })
      (delete-inserted (block_key blocker blocked) _ db.user_blocks (ground arith) free)

find-insert_block :
    (blocker blocked now : ℕ) (db : Db)
    → is_some (get_block blocker blocked (insert_block blocker blocked now db)) ≡ true
unfolding insert_block get_block
find-insert_block blocker blocked now db = there db.user_blocks
  where
    there :
        (bs : List UserBlock)
        → is_some (
            find
              (block_key blocker blocked)
              (bs ++ record { blocker_id = blocker; blocked_id = blocked; created_at = now } ∷ []))
          ≡ true
    there [] = ground arith
    there (b ∷ bs) = ground (arith, there bs)

unblock_user-deletes :
    (login : Text) (current other : User) (db : Db)
    → find_user login db ≡ some other
    → is_some (get_block current.id other.id db) ≡ true
    → ◌≡◌ {A = Result (Unit {0}) × Db}
        (handle (unblock_user login current) db)
        (ok tt, delete_block current.id other.id db)
unfolding unblock_user
unblock_user-deletes login current other db known there =
    handle_by
      (λ r t. ◌≡◌ {A = Result (Unit {0}) × Db} (r, t) (ok tt, delete_block current.id other.id db))
      _ db
      (Ends-gets _ _ (
        Ends-found _ _ _ other known (
          Ends-gets _ _ (
            Ends-or_raise _ _ _
              (λ (absent : get_block current.id other.id db ≡ none).
                absurd (ground (arith, absent, there)))
              λ b _. Ends-modify _ _ (Ends-commit_last refl)))))

block_user-blocks :
    (login : Text) (current other : User) (now : ℕ) (db : Db)
    → find_active_user login db ≡ some other
    → (handle (block_user login current now) db).0 ≡ ok tt
    → BlockLeaves current.id other.id now db (ok tt) (handle (block_user login current now) db).1
block_user-blocks login current other now db known answered =
    subst
      (λ r. BlockLeaves current.id other.id now db r (handle (block_user login current now) db).1)
      answered (block_user-Leaves login current other now db known)

find_user-insert_block :
    (login : Text) (a b now : ℕ) (db : Db)
    → find_user login (insert_block a b now db) ≡ find_user login db
unfolding find_user insert_block
find_user-insert_block login a b now db = refl

find_active_user-insert_block :
    (login : Text) (a b now : ℕ) (db : Db)
    → find_active_user login (insert_block a b now db) ≡ find_active_user login db
unfolding find_active_user insert_block
find_active_user-insert_block login a b now db = refl

-- To unblock the user that was blocked just before gives back the tables there were.
pub unblock_user-block_user :
    (login : Text) (current other : User) (now : ℕ) (db : Db)
    → find_active_user login db ≡ some other
    → find_user login db ≡ some other
    → (handle (block_user login current now) db).0 ≡ ok tt
    → ◌≡◌ {A = Result (Unit {0}) × Db}
        (handle (unblock_user login current) (handle (block_user login current now) db).1)
        (ok tt, db)
unblock_user-block_user login current other now db active known answered =
    let (apart, free, e) = block_user-blocks login current other now db active answered in
    rw e (
      unblock_user-deletes login current other _ (find_user-insert_block login _ _ now db ∙ known)
        (find-insert_block current.id other.id now db)
      ∙ ap (λ d. (ok tt, d)) (delete-insert_block current.id other.id now db free))

is_blocked-insert_block :
    (a b now : ℕ) (db : Db)
    → (is_blocked a b (insert_block a b now db) ≡ true)
      × (is_blocked b a (insert_block a b now db) ≡ true)
unfolding is_blocked insert_block
is_blocked-insert_block a b now db = (one_way db.user_blocks, other_way db.user_blocks)
  where
    one_way :
        (bs : List UserBlock)
        → any
            (λ x.
              (x.blocker_id == a && x.blocked_id == b) || (x.blocker_id == b && x.blocked_id == a))
            (bs ++ record { blocker_id = a; blocked_id = b; created_at = now } ∷ [])
          ≡ true
    one_way [] = ground arith
    one_way (x ∷ bs) = ground (arith, one_way bs)

    other_way :
        (bs : List UserBlock)
        → any
            (λ x.
              (x.blocker_id == b && x.blocked_id == a) || (x.blocker_id == a && x.blocked_id == b))
            (bs ++ record { blocker_id = a; blocked_id = b; created_at = now } ∷ [])
          ≡ true
    other_way [] = ground arith
    other_way (x ∷ bs) = ground (arith, other_way bs)

-- A request for a direct chat between two users with a block.
refused_direct :
    (others : Db → Db) (login : Text) (current other : User) (now : ℕ) (db : Db)
    → find_active_user login db ≡ some other
    → (other.id == current.id) ≡ false
    → is_blocked current.id other.id db ≡ true
    → ◌≡◌ {A = Result ChatResponse × Db}
        (handle (create_direct_chat others login current now) db)
        (err (status 403), db)
unfolding create_direct_chat
refused_direct others login current other now db known apart blocked =
    handle_by (λ r t. ◌≡◌ {A = Result ChatResponse × Db} (r, t) (err (status 403), db)) _ db
      (Ends-gets _ _ (
        Ends-found _ _ _ other known (
          Ends-passed _ _ _ apart (
            Ends-gets _ _ (
              Ends-raise_if _ _ _ (λ _. refl)
                λ (free : is_blocked current.id other.id db ≡ false).
                  absurd (ground (arith, blocked, free)))))))

-- Once POST /users/{login}/block has answered, neither of the two users can open a direct chat with
-- the other: both requests are refused with 403 and change nothing.
pub block_user-stops_direct :
    (others : Db → Db) (current other : User) (now later : ℕ) (db : Db)
    → find_active_user other.login db ≡ some other
    → find_active_user current.login db ≡ some current
    → (handle (block_user other.login current now) db).0 ≡ ok tt
    → let after = (handle (block_user other.login current now) db).1 in
      (handle (create_direct_chat others other.login current later) after
        ≡ (err (status 403), after))
      × (handle (create_direct_chat others current.login other later) after
          ≡ (err (status 403), after))
block_user-stops_direct others current other now later db known_other known_current answered =
    let (apart, free, e) =
      block_user-blocks other.login current other now db known_other answered in
    let (one_way, other_way) = is_blocked-insert_block current.id other.id now db in
    rw e (
      refused_direct others other.login current other later _
          (find_active_user-insert_block other.login _ _ now db ∙ known_other) apart one_way,
      refused_direct others current.login other current later _
          (find_active_user-insert_block current.login _ _ now db ∙ known_current)
          (ground (arith, apart)) other_way,
    )
