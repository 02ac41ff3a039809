-- ===== src/Media/Tests.antt =====
-- Small runs of the media requests, and the theorems at concrete inputs.
use secure_messenger.Prelude.{
  length, count-le-length, Text, codes, decimal, ℕ, ◌≡◌, refl, true, false, none, some, List, [],
  ◌∷◌, text_eq, starts_with, take, split_on,
}
use secure_messenger.Model.{Db}
use secure_messenger.Model.Media.{MediaObject, public, StickerPack}
use secure_messenger.Model.Samples.{alice, bob, small}
use secure_messenger.Http.{status, Result, ok, err, handle}
use secure_messenger.Queries.{get_member, get_group}
use secure_messenger.Chats.Groups.{leave_group}
use secure_messenger.Media.Attachments.{
  StoredObject, new_attachment, insert_media, upload_encrypted_attachment, download_media,
}
use secure_messenger.Media.Attachments.Quota.{UploadLeaves, upload_encrypted_attachment-Leaves}
use secure_messenger.Media.Attachments.Access.{download_media-leave_group}
use secure_messenger.Media.Stickers.{add_sticker}
use secure_messenger.Media.Stickers.Positions.{is_at, IsPlaced, add_sticker-IsPlaced}
use secure_messenger.Services.ObjectStorage.{
  FilePath, Files, ObjectStorage, local_storage, local_delete, object_path, read_bytes, missing,
  local_put, Faults, whole, cut, raised, left_by, path_eq, parents, content_of, write_at,
}
use secure_messenger.Services.ObjectStorage.Local.{
  local_storage-StorageLaws, local_storage_is_confined,
}
use secure_messenger.Media.Objects.{
  attachment_key, stored_object, upload_attachment, download_content,
}
use secure_messenger.Media.Objects.Uploads.{upload_attachment-Uploaded, Uploaded}
use secure_messenger.Media.Objects.Downloads.{download-upload, ciphertext_answer}

abbrev file_70 : StoredObject
file_70 = record { media_id = 70; object_key = codes "k"; backend_name = codes "local" }

abbrev twelve : List ℕ
twelve = 1 ∷ 2 ∷ 3 ∷ 4 ∷ 5 ∷ 6 ∷ 7 ∷ 8 ∷ 9 ∷ 10 ∷ 11 ∷ 12 ∷ []

-- What alice sends to the group.
abbrev alices_file : MediaObject
alices_file = new_attachment file_70 1 0 twelve 12 5

abbrev with_file : Db
with_file = insert_media alices_file small

upload_encrypted_attachment-Leaves_example :
    let (r, after) =
      handle (upload_encrypted_attachment length file_70 false twelve 0 alice 5) small in
    UploadLeaves small r after
upload_encrypted_attachment-Leaves_example =
    upload_encrypted_attachment-Leaves length file_70 false twelve 0 alice 5 small

uploads :
    (handle (upload_encrypted_attachment length file_70 false twelve 0 alice 5) small).0
    ≡ ok alices_file
unfolding handle upload_encrypted_attachment get_member
uploads = refl

download_media-leave_group_example :
    ◌≡◌ {A = Result MediaObject × Db}
      (handle (download_media 70 bob) (handle (leave_group 0 bob) with_file).1)
      (err (status 404), (handle (leave_group 0 bob) with_file).1)
unfolding handle leave_group get_group get_member insert_media new_attachment
download_media-leave_group_example =
    download_media-leave_group 0 70 bob alices_file with_file refl refl refl refl refl

-- Before that, bob can.
downloads : (handle (download_media 70 bob) with_file).0 ≡ ok alices_file
unfolding handle download_media get_member insert_media new_attachment
downloads = refl

abbrev cats : StickerPack
cats = record {
  id = 80;
  owner_user_id = 1;
  title = [];
  slug = [];
  visibility = public;
  created_at = 0;
}

abbrev with_pack : Db
with_pack = record small {
  sticker_packs = cats ∷ [];
  stickers =
      record {
        id = 81;
        pack_id = 80;
        media_object_id = 90;
        emoji = none;
        position = 0;
        created_at = 0;
      }
      ∷ [];
}

with_pack-IsPlaced : IsPlaced with_pack
with_pack-IsPlaced = λ p k. count-le-length (is_at p k) with_pack.stickers

add_sticker-IsPlaced_example :
    IsPlaced
      (handle (add_sticker (λ x. some x) length file_70 82 80 twelve none alice 6) with_pack).1
add_sticker-IsPlaced_example =
    add_sticker-IsPlaced (λ x. some x) length file_70 82 80 twelve none alice 6 with_pack
      with_pack-IsPlaced

abbrev media_root : FilePath
media_root = codes "media" ∷ codes "app" ∷ []

abbrev id_text : ℕ → Text
id_text n = decimal n

-- A disk whose calls succeed.
abbrev disk : Faults
disk = record { write = λ path content files. whole; unlink = λ path files. false }

abbrev local : ObjectStorage Files
local = local_storage disk media_root

-- A disk that is full after three bytes.
abbrev full_disk : Faults
full_disk = record { write = λ path content files. cut 3; unlink = λ path files. false }

-- A write that raises leaves the first bytes of the object behind.
write_leaves_part :
    local_put full_disk media_root (codes "x") twelve [] []
    ≡ raised ((codes "x" ∷ media_root, take 3 twelve) ∷ [])
unfolding local_put object_path text_eq starts_with split_on write_at
write_leaves_part = refl

upload_attachment-Uploaded_example :
    let (r, after, t) =
      upload_attachment local length id_text 70 true false twelve 0 alice 5 small [] in
    Uploaded local (attachment_key 1 (id_text 70)) twelve 0 1 small [] r after t
upload_attachment-Uploaded_example =
    upload_attachment-Uploaded local (local_storage-StorageLaws disk media_root) length id_text 70
      true false twelve 0 alice 5 small []

-- The row of the upload below.
abbrev uploaded : MediaObject
uploaded = new_attachment (stored_object local id_text 70 1) 1 0 twelve 12 5

download-upload_example :
    let (r, after, t) =
      upload_attachment local length id_text 70 false false twelve 0 alice 5 small [] in
    download_content local 70 bob after t ≡ ok (ciphertext_answer twelve)
unfolding upload_attachment stored_object local_storage local_put handle get_member new_attachment
    object_path text_eq starts_with decimal attachment_key
download-upload_example =
    download-upload local (local_storage-StorageLaws disk media_root) length id_text 70 false false
      twelve 0 alice bob 5 small [] uploaded refl refl refl

local_storage_is_confined_example :
    let secret = codes "passwd" ∷ codes "etc" ∷ [] in
    (read_bytes secret (left_by (local_put full_disk media_root (codes "x") twelve [] []))
      ≡ missing)
    × (read_bytes secret (left_by (local_delete full_disk media_root (codes "x") [])) ≡ missing)
unfolding path_eq parents text_eq read_bytes content_of
local_storage_is_confined_example =
    local_storage_is_confined full_disk media_root (codes "passwd" ∷ codes "etc" ∷ []) (codes "x")
      [] twelve [] refl
