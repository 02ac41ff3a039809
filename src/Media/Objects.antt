-- ===== src/Media/Objects.antt =====
-- app/routers/media.py: the attachments with their bytes in the object storage, which app.main gives
-- to the handlers as app.state.object_storage.
pub mod Uploads
pub mod Downloads
use secure_messenger.Prelude.{
  if◌then◌else◌, Text, codes, decimal, ℕ, ◌/◌, Bool, true, false, Option, none, some, List, ◌++◌,
}
use secure_messenger.Model.{Db}
use secure_messenger.Model.Accounts.{User}
use secure_messenger.Model.Media.{MediaObject, private}
use secure_messenger.Http.{status, crash, Result, ok, err, handle}
use secure_messenger.Services.ObjectStorage.{
  Fetched, found, missing, failed, ObjectStorage, Written, done, raised,
}
use secure_messenger.Media.Attachments.{
  StoredObject, new_attachment, check_attachment, add_media, download_media,
}

-- f"attachments/{user_id}/{media_id}.bin", where `media` is the text of the uuid.
unfoldable pub attachment_key : ℕ → Text → Text
attachment_key user_id media =
    codes "attachments/" ++ decimal user_id ++ codes "/" ++ media ++ codes ".bin"

-- The answer of a download: the content with the headers that depend on the row.
pub record MediaAnswer : Type 0 where
  pub content : List ℕ
  pub media_type : Text
  pub cache_control : Text

unfoldable pub answer_of : MediaObject → List ℕ → MediaAnswer
answer_of media content = record {
  content = content;
  media_type = if media.is_encrypted then codes "application/octet-stream" else media.content_type;
  cache_control =
      if media.is_encrypted then codes "private, no-store" else codes "private, max-age=3600";
}

-- A missing object is answered with 404.
unfoldable pub content_or_raise : MediaObject → Fetched → Result MediaAnswer
unfolding answer_of
content_or_raise media (found content) = ok (answer_of media content)
content_or_raise media missing = err (status 404)
content_or_raise media failed = err crash

module _ {S : Type 0} (storage : ObjectStorage S) where
  -- After a failed commit the object is deleted and the exception raised again, or the one that
  -- `delete` raises: the argument is what it comes to.
  unfoldable pub after_delete : Db → Written S → Result MediaObject × Db × S
  after_delete db (done t) = (err crash, db, t)
  after_delete db (raised t) = (err crash, db, t)

  -- The commit, which raises where `commit_fails`.
  unfoldable pub commit_media : Bool → MediaObject → Db → S → Result MediaObject × Db × S
  unfolding after_delete handle add_media
  commit_media true media db s = after_delete db (storage.delete media.object_key s)
  commit_media false media db s = let (r, after) = handle (add_media media) db in (r, after, s)

  -- From `storage.put` on: the argument is what it comes to.
  unfoldable pub after_put : Bool → MediaObject → Db → Written S → Result MediaObject × Db × S
  unfolding commit_media
  after_put commit_fails media db (raised t) = (err crash, db, t)
  after_put commit_fails media db (done t) = commit_media commit_fails media db t

  -- From the checks on; `new` makes the row for the content.
  unfoldable pub after_check :
      Bool → (List ℕ → MediaObject) → Db → S → Result (List ℕ) → Result MediaObject × Db × S
  unfolding after_put
  after_check commit_fails new db s (err e) = (err e, db, s)
  after_check commit_fails new db s (ok content) =
      let media = new content in
      after_put commit_fails media db
        (storage.put media.object_key content (codes "application/octet-stream") s)

  unfoldable pub stored_object : (ℕ → Text) → ℕ → ℕ → StoredObject
  unfolding attachment_key
  stored_object uuid_text media_id user_id = record {
    media_id = media_id;
    object_key = attachment_key user_id (uuid_text media_id);
    backend_name = storage.backend_name;
  }

  -- POST /media/attachments; `media_id` is what uuid4 gives and `uuid_text` its text.
  unfoldable pub upload_attachment :
      (List ℕ → ℕ)
      → (ℕ → Text)
      → ℕ
      → Bool
      → Bool
      → List ℕ
      → ℕ
      → User
      → ℕ
      → Db
      → S
      → Result MediaObject × Db × S
  unfolding handle check_attachment new_attachment stored_object after_check
  upload_attachment sha256 uuid_text media_id commit_fails forbidden ciphertext chat_id current now
        db s =
      let (checked, after) = handle (check_attachment forbidden ciphertext chat_id current) db in
      let stored = stored_object uuid_text media_id current.id in
      after_check commit_fails
        (λ content. new_attachment stored current.id chat_id content (sha256 content) now) after s
        checked

  -- The answer with the content of a row that may be downloaded.
  unfoldable pub after_download : S → Result MediaObject → Result MediaAnswer
  unfolding content_or_raise
  after_download s (err e) = err e
  after_download s (ok media) = content_or_raise media (storage.get media.object_key s)

  -- GET /media/{media_id}/content
  unfoldable pub download_content : ℕ → User → Db → S → Result MediaAnswer
  unfolding handle download_media after_download
  download_content media_id current db s =
      after_download s (handle (download_media media_id current) db).0
