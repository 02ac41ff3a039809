-- ===== src/Media/Attachments/Quota.antt =====
-- The storage that the attachments of one user may take.
use secure_messenger.Prelude.{
  ltb, if◌then◌else◌, is_some, length, ℕ, ◌+◌, ◌≤◌, ◌≡◌, refl, Bool, true, false, some, List, [],
  ◌∷◌, ◌++◌, arith,
}
use secure_messenger.Model.{Db}
use secure_messenger.Model.Accounts.{User}
use secure_messenger.Model.Media.{MediaObject}
use secure_messenger.Http.{Result, ok, err, Session, handle}
use secure_messenger.Http.Ends.{
  Ends, Ends-gets, Ends-or_raise, After, Ends-bind, Ends-raise_if, Ends-modify, Ends-commit,
  Ends-pure_last, handle_by, Ends-weaken,
}
use secure_messenger.Media.Attachments.{
  max_attachment_storage_bytes_per_user, read_limited, is_attachment_of, sum_sizes, used_bytes,
  StoredObject, new_attachment, insert_media, check_attachment, add_media,
  upload_encrypted_attachment,
}
use secure_messenger.Queries.{get_member}
use secure_messenger.Model.Chats.{ChatMember}

sum-append :
    (p : MediaObject → Bool) (os : List MediaObject) (o : MediaObject)
    → sum_sizes p (os ++ o ∷ []) ≡ sum_sizes p os + (if p o then o.size_bytes else 0)
sum-append p [] o = omega arith
sum-append p (x ∷ os) o = omega (arith, sum-append p os o)

-- Each user's attachments take at most 500 MiB.
abbrev pub IsWithinQuota : Db → Type 0
IsWithinQuota db = (u : ℕ) → used_bytes u db ≤ max_attachment_storage_bytes_per_user

insert-IsWithinQuota :
    (stored : StoredObject) (user c : ℕ) (content : List ℕ) (digest now : ℕ) (db : Db)
    → ltb max_attachment_storage_bytes_per_user (used_bytes user db + length content) ≡ false
    → IsWithinQuota db
    → IsWithinQuota (insert_media (new_attachment stored user c content digest now) db)
unfolding insert_media used_bytes new_attachment
insert-IsWithinQuota stored user c content digest now db room v = λ u. ground (
  arith,
  v u,
  room,
  sum-append (is_attachment_of u) db.media_objects
      (new_attachment stored user c content digest now),
)

-- What the checks let through.
pub record IsUploadable (ciphertext content : List ℕ) (c user : ℕ) (db : Db) : Type 0 where
  pub same : content ≡ ciphertext
  pub room : ltb max_attachment_storage_bytes_per_user (used_bytes user db + length content) ≡ false
  pub membership : is_some (get_member c user db) ≡ true

abbrev pub CheckLeaves : List ℕ → ℕ → ℕ → Db → Result (List ℕ) → Db → Db → Type 0
CheckLeaves ciphertext c user db (ok content) working after =
    IsUploadable ciphertext content c user db × (working ≡ db) × (after ≡ db)
CheckLeaves ciphertext c user db (err e) working after = after ≡ db

pub check_attachment-CheckLeaves :
    (forbidden : Bool) (ciphertext : List ℕ) (c : ℕ) (current : User) (db : Db)
    → Ends
        (check_attachment forbidden ciphertext c current)
        (record { committed = db; working = db })
        (λ r t. CheckLeaves ciphertext c current.id db r t.working t.committed)
unfolding check_attachment read_limited
check_attachment-CheckLeaves forbidden ciphertext c current db =
    Ends-raise_if _ _ _ (λ _. refl)
      λ _. Ends-gets _ _ (
        Ends-or_raise _ _ _ (λ _. refl)
          λ (m : ChatMember) (found : get_member c current.id db ≡ some m). Ends-bind _ _ (
            Ends-raise_if _ _ _ (λ _. refl)
              λ _.
                Ends-raise_if _ _ _ (λ _. refl)
                  λ _. Ends-pure_last _ (
                    Ends-gets _ _ (
                      Ends-raise_if _ _ _ (λ _. refl)
                        λ room.
                          Ends-raise_if _ _ _ (λ _. refl)
                            λ _. Ends-pure_last _ (
                              record { same = refl; room = room; membership = rw found refl },
                              refl,
                              refl,
                            )))))

abbrev pub UploadLeaves : Db → Result MediaObject → Db → Type 0
UploadLeaves db (ok o) after =
    (IsWithinQuota db → IsWithinQuota after) × (after ≡ insert_media o db)
UploadLeaves db (err e) after = after ≡ db

upload-Ends :
    (sha256 : List ℕ → ℕ) (stored : StoredObject) (ciphertext : List ℕ) (c : ℕ) (current : User)
    (now : ℕ) (db : Db) (r : Result (List ℕ)) (t : Session)
    → CheckLeaves ciphertext c current.id db r t.working t.committed
    → After
        (λ content. add_media (new_attachment stored current.id c content (sha256 content) now))
        (λ r t. UploadLeaves db r t.committed)
        r
        t
unfolding add_media
upload-Ends sha256 stored ciphertext c current now db (err e) t h = h
upload-Ends sha256 stored ciphertext c current now db (ok content) t (v, working, _) =
    Ends-modify _ _ (
      Ends-commit _ (
        Ends-pure_last _ (
          rw working (
            insert-IsWithinQuota stored current.id c content (sha256 content) now db v.room,
            refl,
          ))))

-- POST /media/attachments either is refused and changes nothing, or adds the row it answers with,
-- and then each user's attachments take at most 500 MiB if they did so before.
pub upload_encrypted_attachment-Leaves :
    (sha256 : List ℕ → ℕ) (stored : StoredObject) (forbidden : Bool) (ciphertext : List ℕ) (c : ℕ)
    (current : User) (now : ℕ) (db : Db)
    → let (r, after) =
        handle (upload_encrypted_attachment sha256 stored forbidden ciphertext c current now) db in
      UploadLeaves db r after
unfolding upload_encrypted_attachment
upload_encrypted_attachment-Leaves sha256 stored forbidden ciphertext c current now db =
    handle_by (UploadLeaves db) _ db (
      Ends-bind _ _ (
        Ends-weaken (check_attachment-CheckLeaves forbidden ciphertext c current db)
          (upload-Ends sha256 stored ciphertext c current now db)))
