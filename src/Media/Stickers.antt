-- ===== src/Media/Stickers.antt =====
-- app/routers/media.py: sticker packs, on the rows. The object storage, which holds the images, and
-- the conversion of images succeed.
pub mod Positions
pub mod Listings
use secure_messenger.Prelude.{
  ◌==◌, if◌then◌else◌, is_none, is_some, length, find, update_where, delete_where, Text, codes,
  text_eq, strip, ℕ, suc, max, Bool, false, ◌&&◌, not, Option, none, some, List, [], ◌∷◌, ◌++◌,
}
use secure_messenger.Model.{Db}
use secure_messenger.Model.Accounts.{User}
use secure_messenger.Model.Media.{
  Purpose, MediaObject, Visibility, is_public, StickerPack, Sticker, StickerPackSubscription,
}
use secure_messenger.Http.{
  crash, ok, err, Action, gets, query, or_raise, raise_if, modify, commit, rollback, ◌>>=◌, ◌>>◌,
  when,
}
use secure_messenger.Media.Attachments.{read_limited, StoredObject, insert_media}

pub record StickerPackCreate : Type 0 where
  pub title : Text
  pub slug : Text
  pub visibility : Visibility

pub record StickerPackUpdate : Type 0 where
  pub title : Option Text
  pub visibility : Option Visibility

-- session.get(StickerPack, pack_id)
unfoldable pub get_pack : ℕ → Db → Option StickerPack
get_pack id db = find (λ p. p.id == id) db.sticker_packs

-- The unique constraint on owner and slug.
unfoldable pub find_slug : ℕ → Text → Db → Option StickerPack
find_slug owner slug db =
    find (λ p. p.owner_user_id == owner && text_eq p.slug slug) db.sticker_packs

unfoldable pub insert_pack : StickerPack → Db → Db
insert_pack p db = record db { sticker_packs = db.sticker_packs ++ p ∷ [] }

unfoldable pub create_sticker_pack : ℕ → StickerPackCreate → User → ℕ → Action StickerPack
unfolding find_slug insert_pack
create_sticker_pack fresh request current now = do
  taken ← gets (find_slug current.id request.slug)
  when (is_some taken) rollback
  raise_if (is_some taken) 409
  modify (
      insert_pack (record {
        id = fresh;
        owner_user_id = current.id;
        title = strip request.title;
        slug = request.slug;
        visibility = request.visibility;
        created_at = now;
      }))
  commit
  created ← gets (get_pack fresh)
  query (λ _. elim created [ none ↦ err crash | some p ↦ ok p ])

-- The pack, if it is the user's.
unfoldable pub own_pack : ℕ → Option StickerPack → Option StickerPack
own_pack user_id none = none
own_pack user_id (some p) = if p.owner_user_id == user_id then some p else none

abbrev pub update_pack : ℕ → (StickerPack → StickerPack) → Db → Db
update_pack id f db = record db {
  sticker_packs = update_where (λ p. p.id == id) f db.sticker_packs;
}

unfoldable pub set_title : ℕ → Option Text → Db → Db
set_title id none db = db
set_title id (some t) db = update_pack id (λ p. record p { title = strip t }) db

unfoldable pub set_pack_visibility : ℕ → Option Visibility → Db → Db
set_pack_visibility id none db = db
set_pack_visibility id (some v) db = update_pack id (λ p. record p { visibility = v }) db

unfoldable pub update_sticker_pack : ℕ → StickerPackUpdate → User → Action Unit
unfolding get_pack own_pack set_title set_pack_visibility
update_sticker_pack pack_id request current = do
  found ← gets (get_pack pack_id)
  pack ← or_raise (own_pack current.id found) 404
  modify (set_title pack_id request.title)
  modify (set_pack_visibility pack_id request.visibility)
  commit

-- One more than the highest position in the pack, 0 where it has no sticker.
unfoldable pub next_position : ℕ → List Sticker → ℕ
next_position pack_id [] = 0
next_position pack_id (s ∷ ss) =
    let rest = next_position pack_id ss in
    if s.pack_id == pack_id then max (suc s.position) rest else rest

unfoldable pub new_image : StoredObject → ℕ → List ℕ → ℕ → ℕ → MediaObject
new_image stored user_id content digest now = record {
  id = stored.media_id;
  owner_user_id = user_id;
  chat_id = none;
  purpose = Purpose.sticker;
  object_key = stored.object_key;
  storage_backend = stored.backend_name;
  content_type = codes "image/webp";
  size_bytes = length content;
  sha256 = digest;
  is_encrypted = false;
  width = some 512;
  height = some 512;
  created_at = now;
}

-- `emoji.strip() if emoji else None`
unfoldable pub emoji_of : Option Text → Option Text
emoji_of none = none
emoji_of (some []) = none
emoji_of (some (c ∷ cs)) = some (strip (c ∷ cs))

unfoldable pub insert_sticker : Sticker → Db → Db
insert_sticker s db = record db { stickers = db.stickers ++ s ∷ [] }

abbrev pub max_sticker_source_bytes : ℕ
max_sticker_source_bytes = 5242880

-- `normalize` is `_normalize_sticker`, which refuses what is no image with 415.
unfoldable pub add_sticker :
    (List ℕ → Option (List ℕ))
    → (List ℕ → ℕ)
    → StoredObject
    → ℕ
    → ℕ
    → List ℕ
    → Option Text
    → User
    → ℕ
    → Action Unit
unfolding get_pack own_pack read_limited new_image insert_media emoji_of insert_sticker
    next_position
add_sticker normalize sha256 stored sticker_id pack_id upload emoji current now = do
  found ← gets (get_pack pack_id)
  pack ← or_raise (own_pack current.id found) 404
  source ← read_limited upload max_sticker_source_bytes
  normalized ← or_raise (normalize source) 415
  position ← gets (λ db. next_position pack_id db.stickers)
  modify (insert_media (new_image stored current.id normalized (sha256 normalized) now))
  modify (
      insert_sticker (record {
        id = sticker_id;
        pack_id = pack_id;
        media_object_id = stored.media_id;
        emoji = emoji_of emoji;
        position = position;
        created_at = now;
      }))
  commit

abbrev pub subscription_key : ℕ → ℕ → StickerPackSubscription → Bool
subscription_key pack_id user_id s = s.pack_id == pack_id && s.user_id == user_id

unfoldable pub get_subscription : ℕ → ℕ → Db → Option StickerPackSubscription
get_subscription pack_id user_id db = find (subscription_key pack_id user_id) db.subscriptions

unfoldable pub insert_subscription : ℕ → ℕ → ℕ → Db → Db
insert_subscription pack_id user_id now db = record db {
  subscriptions =
      db.subscriptions ++ record { pack_id = pack_id; user_id = user_id; created_at = now } ∷ [];
}

unfoldable pub delete_subscription : ℕ → ℕ → Db → Db
delete_subscription pack_id user_id db = record db {
  subscriptions = delete_where (subscription_key pack_id user_id) db.subscriptions;
}

unfoldable pub public_pack : Option StickerPack → Option StickerPack
public_pack none = none
public_pack (some p) = if is_public p.visibility then some p else none

unfoldable pub subscribe_to_pack : ℕ → User → ℕ → Action Unit
unfolding get_pack public_pack get_subscription insert_subscription
subscribe_to_pack pack_id current now = do
  found ← gets (get_pack pack_id)
  pack ← or_raise (public_pack found) 404
  subscription ← gets (get_subscription pack_id current.id)
  when (not (pack.owner_user_id == current.id) && is_none subscription)
      (modify (insert_subscription pack_id current.id now) >> commit)

unfoldable pub unsubscribe_from_pack : ℕ → User → Action Unit
unfolding get_subscription delete_subscription
unsubscribe_from_pack pack_id current = do
  subscription ← gets (get_subscription pack_id current.id)
  when (is_some subscription) (modify (delete_subscription pack_id current.id) >> commit)
