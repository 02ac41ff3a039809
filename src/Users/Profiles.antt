-- ===== src/Users/Profiles.antt =====
-- app/routers/users.py `update_profile`.
pub mod Outcomes
use secure_messenger.Prelude.{
  leb, ◌==◌, if◌then◌else◌, is_some, length, find, update_where, Text, text_eq, strip, ℕ, ◌+◌, Bool,
  ◌&&◌, not, Option, none, some, List, [], ◌∷◌,
}
use secure_messenger.Model.{Db}
use secure_messenger.Model.Accounts.{User}
use secure_messenger.Http.{
  crash, Result, ok, err, Action, raise, gets, branch, raise_if, modify, commit, rollback,
  interleave, ◌>>=◌, ◌>>◌, handle,
}
use secure_messenger.Uploads.{Files, save_image}

-- A field of the request body: in `model_fields_set` or not, and possibly null.
pub data FieldUpdate : Type 0 where
  unset : FieldUpdate
  set_to : Option Text → FieldUpdate

pub record ProfileUpdateRequest : Type 0 where
  pub username : FieldUpdate
  pub display_name : FieldUpdate
  pub bio : FieldUpdate

-- `(value.strip() if value else None) or None`
unfoldable pub cleaned : Option Text → Option Text
cleaned none = none
cleaned (some t) = let s = strip t in if leb (length s) 0 then none else some s

-- `str.lower()` on the ASCII texts that the schema admits as usernames
unfoldable pub lower : Text → Text
lower [] = []
lower (c ∷ cs) = (if leb 65 c && leb c 90 then c + 32 else c) ∷ lower cs

abbrev pub update_user : ℕ → (User → User) → Db → Db
update_user id f db = record db { users = update_where (λ u. u.id == id) f db.users }

unfoldable pub set_display_name : ℕ → FieldUpdate → Db → Db
unfolding cleaned
set_display_name id unset db = db
set_display_name id (set_to value) db =
    update_user id (λ u. record u { display_name = cleaned value }) db

unfoldable pub set_bio : ℕ → FieldUpdate → Db → Db
unfolding cleaned
set_bio id unset db = db
set_bio id (set_to value) db = update_user id (λ u. record u { bio = cleaned value }) db

unfoldable pub set_username : ℕ → Text → Db → Db
set_username id name db = update_user id (λ u. record u { username = name }) db

abbrev pub is_named : Text → User → Bool
is_named name u = text_eq u.username name

-- select(User.id).where(User.username == username, User.id != current_user.id)
unfoldable pub find_named : Text → ℕ → Db → Option User
find_named name id db = find (λ u. is_named name u && not (u.id == id)) db.users

-- The new username and the commit, which the unique index on usernames can make fail. Other sessions
-- may commit before it.
unfoldable pub rename : (Db → Db) → ℕ → Text → Action Unit
unfolding find_named set_username
rename others id name = do
  owner ← gets (find_named name id)
  raise_if (is_some owner) 409
  interleave others
  taken ← gets (find_named name id)
  branch (is_some taken) rollback (modify (set_username id name) >> commit)
  raise_if (is_some taken) 409

-- The branches of `update_profile` on the username; `None.strip()` raises an AttributeError.
unfoldable pub finish_profile : (Db → Db) → ℕ → FieldUpdate → Action Unit
unfolding rename lower
finish_profile others id unset = interleave others >> commit
finish_profile others id (set_to none) = raise crash
finish_profile others id (set_to (some t)) = rename others id (lower (strip t))

unfoldable pub update_profile : (Db → Db) → ProfileUpdateRequest → User → Action Unit
unfolding set_display_name set_bio finish_profile
update_profile others request current = do
  modify (set_display_name current.id request.display_name)
  modify (set_bio current.id request.bio)
  finish_profile others current.id request.username

unfoldable pub set_avatar_url : ℕ → Text → Db → Db
set_avatar_url id url db = update_user id (λ u. record u { avatar_url = some url }) db

-- `upload_profile_avatar` after `save_image`, which raises or gives the address of the new file.
unfoldable pub set_saved_avatar : Result Text → User → Action Unit
unfolding set_avatar_url
set_saved_avatar (err e) current = raise e
set_saved_avatar (ok url) current = modify (set_avatar_url current.id url) >> commit

unfoldable pub upload_profile_avatar :
    Text → List ℕ → Text → User → Db → Files → Result (Unit {0}) × Db × Files
unfolding set_saved_avatar save_image handle
upload_profile_avatar content_type content fresh current db files =
    let (saved, after_files) = save_image content_type content fresh files in
    let (r, after) = handle (set_saved_avatar saved current) db in (r, after, after_files)
