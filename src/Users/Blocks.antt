-- ===== src/Users/Blocks.antt =====
-- app/routers/users.py `block_user` and `unblock_user`.
pub mod Effects
use secure_messenger.Prelude.{
  ◌==◌, is_some, find, delete_where, Text, ℕ, Bool, ◌&&◌, Option, [], ◌∷◌, ◌++◌,
}
use secure_messenger.Model.{Db}
use secure_messenger.Model.Accounts.{User, UserBlock}
use secure_messenger.Http.{Action, gets, or_raise, raise_if, modify, commit, ◌>>=◌, ◌>>◌}
use secure_messenger.Queries.{find_user, find_active_user}

-- The primary key (blocker_id, blocked_id).
abbrev pub block_key : ℕ → ℕ → UserBlock → Bool
block_key blocker blocked b = b.blocker_id == blocker && b.blocked_id == blocked

-- session.get(UserBlock, (blocker, blocked))
unfoldable pub get_block : ℕ → ℕ → Db → Option UserBlock
get_block blocker blocked db = find (block_key blocker blocked) db.user_blocks

unfoldable pub insert_block : ℕ → ℕ → ℕ → Db → Db
insert_block blocker blocked now db = record db {
  user_blocks =
      db.user_blocks
      ++ record { blocker_id = blocker; blocked_id = blocked; created_at = now } ∷ [];
}

unfoldable pub delete_block : ℕ → ℕ → Db → Db
delete_block blocker blocked db = record db {
  user_blocks = delete_where (block_key blocker blocked) db.user_blocks;
}

unfoldable pub block_user : Text → User → ℕ → Action Unit
unfolding get_block insert_block
block_user login current now = do
  found ← gets (find_active_user login)
  other ← or_raise found 404
  raise_if (other.id == current.id) 400
  existing ← gets (get_block current.id other.id)
  raise_if (is_some existing) 409
  modify (insert_block current.id other.id now)
  commit

unfoldable pub unblock_user : Text → User → Action Unit
unfolding get_block delete_block
unblock_user login current = do
  found ← gets (find_user login)
  other ← or_raise found 404
  existing ← gets (get_block current.id other.id)
  block ← or_raise existing 409
  modify (delete_block current.id other.id)
  commit
