-- ===== src/Media/Objects/Uploads.antt =====
-- What an upload leaves in the tables and in the storage, on every path, and that it can be
-- downloaded again.
use mathlib.Core.Path.{subst}
use secure_messenger.Http.Ends.{handle_by, Ends-weaken}
use secure_messenger.Model.Accounts.{User}
use secure_messenger.Prelude.{
  if◌then◌else◌, length, Text, codes, ℕ, ◌≡◌, refl, ap, ◌∙◌, Bool, true, false, some, List,
}
use secure_messenger.Model.{Db}
use secure_messenger.Model.Media.{attachment, MediaObject}
use secure_messenger.Http.{Error, crash, Result, ok, err, handle}
use secure_messenger.Services.ObjectStorage.{
  Fetched, found, missing, ObjectStorage, StorageLaws, Written, done, raised,
}
use secure_messenger.Media.Attachments.{StoredObject, new_attachment, insert_media, add_media}
use secure_messenger.Media.Attachments.Quota.{
  IsUploadable, CheckLeaves, check_attachment-CheckLeaves,
}
use secure_messenger.Media.Objects.{
  attachment_key, after_delete, commit_media, after_put, after_check, stored_object,
  upload_attachment,
}

module _ {S : Type 0} (storage : ObjectStorage S) where
  -- What is read under every key after an object was stored, or deleted again.
  abbrev pub HasStored : Text → Fetched → S → S → Type 0
  HasStored key content s t =
      (other : Text)
      → storage.get other t
        ≡ (if storage.same_object key other then content else storage.get other s)

  -- Nothing changed but the object of a key, which may be there whole, in part or not at all.
  abbrev pub OthersStay : Text → S → S → Type 0
  OthersStay key s t =
      (other : Text)
      → storage.same_object key other ≡ false
      → storage.get other t ≡ storage.get other s

  -- The ends of an upload: refused with nothing changed; with a write that raised; with the object
  -- deleted again after a failed commit; with a deletion that raised too; or stored.
  pub data Uploaded (key : Text) (ciphertext : List ℕ) (c user : ℕ) (db : Db) (s : S)
      : Result MediaObject → Db → S → Type 0 where
    refused : (e : Error) → Uploaded key ciphertext c user db s (err e) db s
    partial :
        (t : S)
        → storage.put key ciphertext (codes "application/octet-stream") s ≡ raised t
        → OthersStay key s t
        → Uploaded key ciphertext c user db s (err crash) db t
    undone :
        (t : S) → HasStored key missing s t → Uploaded key ciphertext c user db s (err crash) db t
    orphaned :
        (u t : S)
        → HasStored key (found ciphertext) s u
        → storage.delete key u ≡ raised t
        → OthersStay key s t
        → Uploaded key ciphertext c user db s (err crash) db t
    stored :
        (media : MediaObject) (t : S)
        → media.object_key ≡ key
        → media.owner_user_id ≡ user
        → media.chat_id ≡ some c
        → media.purpose ≡ attachment
        → media.is_encrypted ≡ true
        → media.size_bytes ≡ length ciphertext
        → IsUploadable ciphertext ciphertext c user db
        → HasStored key (found ciphertext) s t
        → Uploaded key ciphertext c user db s (ok media) (insert_media media db) t

twice : (b : Bool) (x y z : Fetched) → (if b then x else if b then y else z) ≡ (if b then x else z)
twice true x y z = refl
twice false x y z = refl

without_working :
    (ciphertext : List ℕ) (c user : ℕ) (db : Db) (r : Result (List ℕ)) (working after : Db)
    → CheckLeaves ciphertext c user db r working after
    → CheckLeaves ciphertext c user db r db after
without_working ciphertext c user db (ok content) working after (v, _, kept) = (v, refl, kept)
without_working ciphertext c user db (err e) working after h = h

module _ {S : Type 0} (storage : ObjectStorage S) (laws : StorageLaws storage) where
  after_delete-Uploaded :
      (key : Text) (ciphertext : List ℕ) (c user : ℕ) (db : Db) (s t : S) (o : Written S)
      → storage.delete key t ≡ o
      → HasStored storage key (found ciphertext) s t
      → let (r, after, u) = after_delete storage db o in
        Uploaded storage key ciphertext c user db s r after u
  unfolding after_delete
  after_delete-Uploaded key ciphertext c user db s t (raised u) e h =
      orphaned t u h e
        λ other apart. laws.get-delete_raised key other t u e apart ∙ h other ∙ rw apart refl
  after_delete-Uploaded key ciphertext c user db s t (done u) e h = undone u λ other.
      laws.get-delete key other t u e
      ∙ ap (λ x. if storage.same_object key other then missing else x) (h other)
      ∙ twice (storage.same_object key other) missing (found ciphertext) (storage.get other s)

  module _ (sha256 : List ℕ → ℕ) (object : StoredObject) (ciphertext : List ℕ) (c user now : ℕ)
      (db : Db) (s : S) where
    -- The row of the upload.
    abbrev row : MediaObject
    row = new_attachment object user c ciphertext (sha256 ciphertext) now

    commit_media-Uploaded :
        (commit_fails : Bool) (t : S)
        → IsUploadable ciphertext ciphertext c user db
        → HasStored storage object.object_key (found ciphertext) s t
        → let (r, after, u) = commit_media storage commit_fails row db t in
          Uploaded storage object.object_key ciphertext c user db s r after u
    unfolding commit_media new_attachment add_media handle
    commit_media-Uploaded true t v h =
        after_delete-Uploaded object.object_key ciphertext c user db s t _ refl h
    commit_media-Uploaded false t v h = stored row t refl refl refl refl refl refl v h

    after_put-Uploaded :
        (commit_fails : Bool) (o : Written S)
        → IsUploadable ciphertext ciphertext c user db
        → storage.put object.object_key ciphertext (codes "application/octet-stream") s ≡ o
        → let (r, after, u) = after_put storage commit_fails row db o in
          Uploaded storage object.object_key ciphertext c user db s r after u
    unfolding after_put
    after_put-Uploaded commit_fails (raised t) v e =
        partial t e
          λ other apart. laws.get-put_raised object.object_key other ciphertext _ s t e apart
    after_put-Uploaded commit_fails (done t) v e =
        commit_media-Uploaded commit_fails t v
          (λ other. laws.get-put object.object_key other ciphertext _ s t e)

    after_check-Uploaded :
        (commit_fails : Bool) (checked : Result (List ℕ)) (after : Db)
        → CheckLeaves ciphertext c user db checked db after
        → let (r, final, u) =
            after_check storage commit_fails
              (λ content. new_attachment object user c content (sha256 content) now)
              after
              s
              checked in
          Uploaded storage object.object_key ciphertext c user db s r final u
    unfolding after_check new_attachment
    after_check-Uploaded commit_fails (err e) after h = rw h (refused e)
    after_check-Uploaded commit_fails (ok content) after (v, _, kept) = rw kept (
        rw v.same (
          after_put-Uploaded commit_fails _
            (subst (λ x. IsUploadable ciphertext x c user db) v.same v) refl))

  -- POST /media/attachments either changes nothing; or fails, the tables as they were, in one of
  -- three ways: the write raises and may leave a part of the object; the object is deleted again
  -- after a failed commit; or that deletion raises too. Or it stores the ciphertext under the key of
  -- the row that it adds. No other object changes.
  pub upload_attachment-Uploaded :
      (sha256 : List ℕ → ℕ) (uuid_text : ℕ → Text) (media_id : ℕ) (commit_fails forbidden : Bool)
      (ciphertext : List ℕ) (c : ℕ) (current : User) (now : ℕ) (db : Db) (s : S)
      → let (r, after, t) =
          upload_attachment storage sha256 uuid_text media_id commit_fails forbidden ciphertext c
            current now db s in
        Uploaded storage
          (attachment_key current.id (uuid_text media_id))
          ciphertext
          c
          current.id
          db
          s
          r
          after
          t
  unfolding upload_attachment stored_object
  upload_attachment-Uploaded sha256 uuid_text media_id commit_fails forbidden ciphertext c current
        now db s =
      after_check-Uploaded sha256 (stored_object storage uuid_text media_id current.id) ciphertext c
        current.id now db s commit_fails _ _
        (handle_by (λ r after. CheckLeaves ciphertext c current.id db r db after) _ db
          (Ends-weaken (check_attachment-CheckLeaves forbidden ciphertext c current db)
            λ r t h. without_working ciphertext c current.id db r t.working t.committed h))
