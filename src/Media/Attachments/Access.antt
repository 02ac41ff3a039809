-- ===== src/Media/Attachments/Access.antt =====
-- Who can download an attachment after leaving its chat.
use mathlib.Core.Path.{subst}
use secure_messenger.Prelude.{
  ◌==◌, find, find-delete_where_self, ℕ, ◌≡◌, refl, true, false, not, none, some, arith,
}
use secure_messenger.Model.{Db}
use secure_messenger.Model.Accounts.{User}
use secure_messenger.Model.Media.{is_attachment, MediaObject}
use secure_messenger.Http.{status, Result, ok, err, handle}
use secure_messenger.Http.Ends.{
  Ends-gets, Ends-or_raise, Ends-raise_if, Ends-modify, Ends-commit_last, handle_by, Ends-found,
}
use secure_messenger.Queries.{member_key, get_member}
use secure_messenger.Chats.Groups.{delete_member, leave_group}
use secure_messenger.Media.Attachments.{may_download, download_media}

abbrev LeaveLeaves : ℕ → ℕ → Db → Result (Unit {0}) → Db → Type 0
LeaveLeaves c u db (ok done) after = after ≡ delete_member c u db
LeaveLeaves c u db (err e) after = after ≡ db

leave_group-Leaves :
    (c : ℕ) (current : User) (db : Db)
    → let (r, after) = handle (leave_group c current) db in LeaveLeaves c current.id db r after
unfolding leave_group
leave_group-Leaves c current db = handle_by (LeaveLeaves c current.id db) _ db (
    Ends-gets _ _ (
      Ends-or_raise _ _ _ (λ _. refl)
        λ chat _. Ends-gets _ _ (
          Ends-or_raise _ _ _ (λ _. refl)
            λ m _. Ends-raise_if _ _ _ (λ _. refl) λ _. Ends-modify _ _ (Ends-commit_last refl))))

no_member : (c u : ℕ) (db : Db) → get_member c u (delete_member c u db) ≡ none
unfolding get_member delete_member
no_member c u db = find-delete_where_self (member_key c u) db.chat_members

-- A refused download.
refused :
    (id : ℕ) (current : User) (o : MediaObject) (db : Db)
    → find (λ x. x.id == id) db.media_objects ≡ some o
    → may_download o current.id db ≡ false
    → ◌≡◌ {A = Result MediaObject × Db}
        (handle (download_media id current) db)
        (err (status 404), db)
unfolding download_media
refused id current o db found denied =
    handle_by (λ r t. ◌≡◌ {A = Result MediaObject × Db} (r, t) (err (status 404), db)) _ db
      (Ends-gets _ _ (
        Ends-found _ _ _ o found (
          Ends-gets _ _ (
            Ends-raise_if _ _ _ (λ _. refl)
              λ (free : not (may_download o current.id db) ≡ false).
                absurd (ground (arith, denied, free))))))

denied_without_member :
    (c u : ℕ) (o : MediaObject) (db : Db)
    → is_attachment o.purpose ≡ true
    → o.chat_id ≡ some c
    → (o.owner_user_id == u) ≡ false
    → get_member c u db ≡ none
    → may_download o u db ≡ false
unfolding may_download
denied_without_member c u o db kind in_c other gone = ground (arith, kind, in_c, other, gone)

-- Once a user has left a group, they cannot download the attachments that others sent there: the
-- request is refused with 404.
pub download_media-leave_group :
    (c id : ℕ) (current : User) (o : MediaObject) (db : Db)
    → find (λ x. x.id == id) db.media_objects ≡ some o
    → is_attachment o.purpose ≡ true
    → o.chat_id ≡ some c
    → (o.owner_user_id == current.id) ≡ false
    → (handle (leave_group c current) db).0 ≡ ok tt
    → ◌≡◌ {A = Result MediaObject × Db}
        (handle (download_media id current) (handle (leave_group c current) db).1)
        (err (status 404), (handle (leave_group c current) db).1)
download_media-leave_group c id current o db found kind in_c other left =
    let e =
      subst (λ r. LeaveLeaves c current.id db r (handle (leave_group c current) db).1) left
        (leave_group-Leaves c current db) in
    rw e (
      refused id current o (delete_member c current.id db) (unfold delete_member in found)
        (denied_without_member c current.id o _ kind in_c other (no_member c current.id db)))
