-- ===== src/Media/Attachments.antt =====
-- app/routers/media.py: uploading and downloading attachments, on the rows. The object storage, which
-- holds the bytes, succeeds.
pub mod Quota
pub mod Access
use secure_messenger.Prelude.{
  ltb, leb, ◌==◌, if◌then◌else◌, is_some, length, find, any, Text, codes, ℕ, ◌+◌, Bool, true, false,
  ◌&&◌, ◌||◌, not, Option, none, some, List, [], ◌∷◌, ◌++◌,
}
use secure_messenger.Model.{Db}
use secure_messenger.Model.Accounts.{User}
use secure_messenger.Model.Media.{attachment, is_attachment, MediaObject, is_public}
use secure_messenger.Http.{Action, pure, gets, or_raise, raise_if, modify, commit, ◌>>=◌, ◌>>◌}
use secure_messenger.Queries.{get_member}

-- 50 * 1024 * 1024
abbrev pub max_attachment_bytes : ℕ
max_attachment_bytes = 52428800

-- 500 * 1024 * 1024
abbrev pub max_attachment_storage_bytes_per_user : ℕ
max_attachment_storage_bytes_per_user = 524288000

-- `_read_limited` reads up to `limit + 1` bytes: nothing, or more than the limit, is refused.
unfoldable pub read_limited : List ℕ → ℕ → Action (List ℕ)
read_limited upload limit = do
  raise_if (leb (length upload) 0) 422
  raise_if (ltb limit (length upload)) 413
  pure upload

abbrev pub is_attachment_of : ℕ → MediaObject → Bool
is_attachment_of user_id o = o.owner_user_id == user_id && is_attachment o.purpose

-- select(func.coalesce(func.sum(MediaObject.size_bytes), 0)).where(...)
abbrev pub sum_sizes : (MediaObject → Bool) → List MediaObject → ℕ
sum_sizes p [] = 0
sum_sizes p (o ∷ os) = (if p o then o.size_bytes else 0) + sum_sizes p os

unfoldable pub used_bytes : ℕ → Db → ℕ
used_bytes user_id db = sum_sizes (is_attachment_of user_id) db.media_objects

-- What an upload gets from the storage and from uuid4.
pub record StoredObject : Type 0 where
  pub media_id : ℕ
  pub object_key : Text
  pub backend_name : Text

unfoldable pub new_attachment : StoredObject → ℕ → ℕ → List ℕ → ℕ → ℕ → MediaObject
new_attachment stored user_id chat_id content digest now = record {
  id = stored.media_id;
  owner_user_id = user_id;
  chat_id = some chat_id;
  purpose = attachment;
  object_key = stored.object_key;
  storage_backend = stored.backend_name;
  content_type = codes "application/octet-stream";
  size_bytes = length content;
  sha256 = digest;
  is_encrypted = true;
  width = none;
  height = none;
  created_at = now;
}

unfoldable pub insert_media : MediaObject → Db → Db
insert_media o db = record db { media_objects = db.media_objects ++ o ∷ [] }

-- The handler up to the storage: the content, if it may be stored. `forbidden` says whether the
-- form has a field that belongs inside the ciphertext.
unfoldable pub check_attachment : Bool → List ℕ → ℕ → User → Action (List ℕ)
unfolding read_limited used_bytes
check_attachment forbidden ciphertext chat_id current = do
  raise_if forbidden 422
  membership ← gets (get_member chat_id current.id)
  m ← or_raise membership 404
  content ← read_limited ciphertext max_attachment_bytes
  used ← gets (used_bytes current.id)
  raise_if (ltb max_attachment_storage_bytes_per_user (used + length content)) 413
  raise_if (ltb (length content) 12) 422
  pure content

-- The handler after the storage, where the commit succeeds.
unfoldable pub add_media : MediaObject → Action MediaObject
unfolding insert_media
add_media media = do modify (insert_media media); commit; pure media

unfoldable pub upload_encrypted_attachment :
    (List ℕ → ℕ) → StoredObject → Bool → List ℕ → ℕ → User → ℕ → Action MediaObject
unfolding check_attachment new_attachment add_media
upload_encrypted_attachment sha256 stored forbidden ciphertext chat_id current now = do
  content ← check_attachment forbidden ciphertext chat_id current
  add_media (new_attachment stored current.id chat_id content (sha256 content) now)

-- A sticker with this image in a pack that is public or that the user subscribed to.
unfoldable pub is_shown_sticker : ℕ → ℕ → Db → Bool
is_shown_sticker media_id user_id db =
    any
      (λ s.
        s.media_object_id == media_id
        && any
            (λ p.
              p.id == s.pack_id
              && (is_public p.visibility
                  || any (λ x. x.pack_id == p.id && x.user_id == user_id) db.subscriptions))
            db.sticker_packs)
      db.stickers

abbrev pub is_member_of : Option ℕ → ℕ → Db → Bool
is_member_of none user_id db = false
is_member_of (some chat_id) user_id db = is_some (get_member chat_id user_id db)

-- `allowed` in `download_media`
unfoldable pub may_download : MediaObject → ℕ → Db → Bool
unfolding is_shown_sticker
may_download o user_id db =
    o.owner_user_id == user_id
    || (if is_attachment o.purpose
        then is_member_of o.chat_id user_id db
        else is_shown_sticker o.id user_id db)

-- The object whose content is sent.
unfoldable pub download_media : ℕ → User → Action MediaObject
unfolding may_download
download_media media_id current = do
  found ← gets (λ db. find (λ o. o.id == media_id) db.media_objects)
  media ← or_raise found 404
  allowed ← gets (may_download media current.id)
  raise_if (not allowed) 404
  pure media
