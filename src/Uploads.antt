-- ===== src/Uploads.antt =====
-- app/services/uploads.py: avatar addresses and uploaded images.
use secure_messenger.Prelude.{
  ltb, if◌then◌else◌, length, take, drop, Text, codes, text_eq, starts_with, strip, ℕ, ◌*◌, Bool,
  ◌&&◌, ◌||◌, not, Option, none, some, List, [], ◌∷◌, ◌++◌,
}
use secure_messenger.Http.{status, Result, ok, err}

abbrev pub max_image_bytes : ℕ
max_image_bytes = 50 * 1024 * 1024

unfoldable pub validate_avatar_url : Option Text → Result (Option Text)
validate_avatar_url none = ok none
validate_avatar_url (some value) =
    let normalized = strip value in
    if text_eq normalized []
    then ok none
    else if starts_with normalized (codes "/uploads/")
        || starts_with normalized (codes "https://")
        || starts_with normalized (codes "http://")
    then ok (some normalized)
    else err (status 422)

pub data ImageType : Type 0 where
  jpeg png webp : ImageType

-- IMAGE_EXTENSIONS.get(content_type)
image_type : Text → Option ImageType
image_type t =
    if text_eq t (codes "image/jpeg")
    then some jpeg
    else if text_eq t (codes "image/png")
    then some png
    else if text_eq t (codes "image/webp")
    then some webp
    else none

extension : ImageType → Text
extension jpeg = codes ".jpg"
extension png = codes ".png"
extension webp = codes ".webp"

signature : ImageType → List ℕ
signature jpeg = 0xff ∷ 0xd8 ∷ 0xff ∷ []
signature png = 0x89 ∷ 0x50 ∷ 0x4e ∷ 0x47 ∷ 0x0d ∷ 0x0a ∷ 0x1a ∷ 0x0a ∷ []
signature webp = codes "RIFF"

-- The signature of the type, and for WebP the tag at bytes 8 to 11 too.
valid_signature : ImageType → List ℕ → Bool
unfolding signature
valid_signature webp content =
    starts_with content (signature webp) && text_eq (take 4 (drop 8 content)) (codes "WEBP")
valid_signature t content = starts_with content (signature t)

-- The files of the upload directory: names with their contents.
abbrev pub Files : Type 0
Files = List (Text × List ℕ)

-- The name of a new file is a fresh uuid in hexadecimal: `fresh`.
unfoldable pub save_image : Text → List ℕ → Text → Files → Result Text × Files
unfolding image_type extension valid_signature
save_image content_type content fresh files = elim (image_type content_type) [
  | none ↦ (err (status 415), files)
  | some t ↦
      if text_eq content [] || ltb max_image_bytes (length content)
      then (err (status 413), files)
      else if not (valid_signature t content)
      then (err (status 415), files)
      else (ok (codes "/uploads/" ++ fresh ++ extension t), (fresh ++ extension t, content) ∷ files)
]
