-- ===== src/Model/Media.antt =====
-- app/models.py: stored media, sticker packs, stickers and subscriptions.
use secure_messenger.Prelude.{Text, ℕ, Bool, true, false, Option}

pub data Purpose : Type 0 where
  attachment sticker : Purpose

-- `purpose == "attachment"`
abbrev pub is_attachment : Purpose → Bool
is_attachment attachment = true
is_attachment sticker = false

pub record MediaObject : Type 0 where
  pub id : ℕ
  pub owner_user_id : ℕ
  pub chat_id : Option ℕ
  pub purpose : Purpose
  pub object_key : Text
  pub storage_backend : Text
  pub content_type : Text
  pub size_bytes : ℕ
  pub sha256 : ℕ
  pub is_encrypted : Bool
  pub width : Option ℕ
  pub height : Option ℕ
  pub created_at : ℕ

pub data Visibility : Type 0 where
  public private : Visibility

-- `visibility == "public"`
abbrev pub is_public : Visibility → Bool
is_public public = true
is_public private = false

pub record StickerPack : Type 0 where
  pub id : ℕ
  pub owner_user_id : ℕ
  pub title : Text
  pub slug : Text
  pub visibility : Visibility
  pub created_at : ℕ

pub record Sticker : Type 0 where
  pub id : ℕ
  pub pack_id : ℕ
  pub media_object_id : ℕ
  pub emoji : Option Text
  pub position : ℕ
  pub created_at : ℕ

pub record StickerPackSubscription : Type 0 where
  pub pack_id : ℕ
  pub user_id : ℕ
  pub created_at : ℕ
