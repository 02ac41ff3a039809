-- ===== src/Media/Objects/Downloads.antt =====
-- What was uploaded can be downloaded.
use mathlib.Core.Path.{subst}
use secure_messenger.Prelude.{
  ◌==◌, is_some, find, find-append, Text, ℕ, ◌≡◌, refl, sym, ◌∙◌, Bool, true, ◌||◌, none, some,
  List, [], ◌∷◌, arith, codes,
}
use secure_messenger.Model.{Db}
use secure_messenger.Model.Accounts.{User}
use secure_messenger.Model.Media.{attachment, MediaObject}
use secure_messenger.Http.{Result, ok, handle}
use secure_messenger.Http.Ends.{Ends-gets, Ends-pure_last, handle_by, Ends-found, Ends-passed}
use secure_messenger.Queries.{get_member}
use secure_messenger.Media.Attachments.{insert_media, may_download, download_media}
use secure_messenger.Media.Objects.{
  content_or_raise, upload_attachment, after_download, download_content, MediaAnswer, answer_of,
}
use secure_messenger.Services.ObjectStorage.{found, ObjectStorage, StorageLaws}
use secure_messenger.Media.Objects.Uploads.{
  HasStored, upload_attachment-Uploaded, Uploaded, refused, undone, orphaned, stored, partial,
}

abbrev pub has_id : ℕ → MediaObject → Bool
has_id id o = o.id == id

find-inserted :
    (media : MediaObject) (db : Db)
    → find (has_id media.id) db.media_objects ≡ none
    → find (has_id media.id) (insert_media media db).media_objects ≡ some media
unfolding insert_media
find-inserted media db new =
    find-append (has_id media.id) db.media_objects (media ∷ []) new ∙ ground arith

may_download_own :
    (media : MediaObject) (c reader : ℕ) (db : Db)
    → media.purpose ≡ attachment
    → media.chat_id ≡ some c
    → (media.owner_user_id == reader || is_some (get_member c reader db)) ≡ true
    → may_download media reader (insert_media media db) ≡ true
unfolding may_download insert_media get_member
may_download_own media c reader db kind in_c h = ground (arith, kind, in_c, h)

download_media-allowed :
    (media : MediaObject) (reader : User) (db : Db)
    → find (has_id media.id) db.media_objects ≡ some media
    → may_download media reader.id db ≡ true
    → (handle (download_media media.id reader) db).0 ≡ ok media
unfolding download_media
download_media-allowed media reader db there allowed =
    handle_by (λ r t. r ≡ ok media) _ db
      (Ends-gets _ _ (
        Ends-found _ _ _ media there
          (Ends-gets _ _ (Ends-passed _ _ _ (ground (arith, allowed)) (Ends-pure_last _ refl)))))

-- The answer with an encrypted attachment, which no cache may keep.
abbrev pub ciphertext_answer : List ℕ → MediaAnswer
ciphertext_answer content = record {
  content = content;
  media_type = codes "application/octet-stream";
  cache_control = codes "private, no-store";
}

ok_inj : {A : Type 0} {a b : A} → ok a ≡ ok b → a ≡ b
ok_inj p = cc p

module _ {S : Type 0} (storage : ObjectStorage S) (laws : StorageLaws storage) where
  download-stored :
      (media : MediaObject) (ciphertext : List ℕ) (c : ℕ) (reader : User) (db : Db) (s t : S)
      → media.purpose ≡ attachment
      → media.is_encrypted ≡ true
      → media.chat_id ≡ some c
      → HasStored storage media.object_key (found ciphertext) s t
      → find (has_id media.id) db.media_objects ≡ none
      → (media.owner_user_id == reader.id || is_some (get_member c reader.id db)) ≡ true
      → download_content storage media.id reader (insert_media media db) t
        ≡ ok (ciphertext_answer ciphertext)
  unfolding download_content after_download content_or_raise answer_of
  download-stored media ciphertext c reader db s t kind encrypted in_c h new allowed =
      rw
        (download_media-allowed media reader (insert_media media db) (find-inserted media db new)
          (may_download_own media c reader.id db kind in_c allowed))
        (rw (h media.object_key) (rw (laws.same_object-refl media.object_key) (rw encrypted refl)))

  after_Uploaded :
      {key : Text} {ciphertext : List ℕ} {c user : ℕ} {db : Db} {s : S} {r : Result MediaObject}
      {after : Db} {t : S} (media : MediaObject) (reader : User)
      → Uploaded storage key ciphertext c user db s r after t
      → r ≡ ok media
      → find (has_id media.id) db.media_objects ≡ none
      → (user == reader.id || is_some (get_member c reader.id db)) ≡ true
      → download_content storage media.id reader after t ≡ ok (ciphertext_answer ciphertext)
  after_Uploaded media reader (refused e) q new allowed = absurd (cc q)
  after_Uploaded media reader (undone t h) q new allowed = absurd (cc q)
  after_Uploaded media reader (orphaned u t h e k) q new allowed = absurd (cc q)
  after_Uploaded media reader (partial t e h) q new allowed = absurd (cc q)
  after_Uploaded {ciphertext = ciphertext} {c = c} {db = db} {s = s} media reader
        (stored m t key owner in_c kind encrypted size v h) q new allowed =
      subst
        (λ (x : MediaObject).
          find (has_id x.id) db.media_objects ≡ none
          → download_content storage x.id reader (insert_media m db) t
            ≡ ok (ciphertext_answer ciphertext))
        (ok_inj q)
        (λ fresh.
          download-stored m ciphertext c reader db s t kind encrypted in_c
            (subst (λ k. HasStored storage k (found ciphertext) s t) (sym key) h) fresh
            (subst (λ u. (u == reader.id || is_some (get_member c reader.id db)) ≡ true) (sym owner)
              allowed))
        new

  -- An attachment that was uploaded, under an id that no other object has, can be downloaded, byte
  -- for byte and not to be cached, by its owner and by everyone who was in the chat at that time.
  pub download-upload :
      (sha256 : List ℕ → ℕ) (uuid_text : ℕ → Text) (media_id : ℕ) (commit_fails forbidden : Bool)
      (ciphertext : List ℕ) (c : ℕ) (current reader : User) (now : ℕ) (db : Db) (s : S)
      (media : MediaObject)
      → let (r, after, t) =
          upload_attachment storage sha256 uuid_text media_id commit_fails forbidden ciphertext c
            current now db s in
        r ≡ ok media
        → find (has_id media.id) db.media_objects ≡ none
        → (current.id == reader.id || is_some (get_member c reader.id db)) ≡ true
        → download_content storage media.id reader after t ≡ ok (ciphertext_answer ciphertext)
  download-upload sha256 uuid_text media_id commit_fails forbidden ciphertext c current reader now
        db s media q new allowed =
      after_Uploaded media reader
        (upload_attachment-Uploaded storage laws sha256 uuid_text media_id commit_fails forbidden
          ciphertext c current now db s)
        q new allowed
