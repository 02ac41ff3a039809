-- ===== src/Media/Stickers/Listings.antt =====
-- app/routers/media.py: the requests that read sticker packs. A foreign key keeps the owner of a pack
-- and the image of a sticker; where one is missing all the same, the request ends with an exception.
use secure_messenger.Prelude.{
  ltb, ◌==◌, Bool-cases, find, filter, any, All, insert_by, order_by, Text, ℕ, zero, suc, ◌≡◌, inl,
  inr, Bool, true, ◌||◌, not, Option, none, some, List, [], ◌∷◌, arith,
}
use secure_messenger.Model.{Db}
use secure_messenger.Model.Accounts.{User}
use secure_messenger.Model.Media.{MediaObject, Visibility, is_public, StickerPack, Sticker}
use secure_messenger.Http.{crash, ok, err, Action, gets, query, or_raise, raise_if, ◌>>=◌, ◌>>◌}
use secure_messenger.Queries.{get_user}
use secure_messenger.Media.Stickers.{get_pack, subscription_key}

abbrev pub sticker_size : ℕ
sticker_size = 512

pub record StickerResponse : Type 0 where
  pub id : ℕ
  pub emoji : Option Text
  pub position : ℕ
  pub image_id : ℕ
  pub width : ℕ
  pub height : ℕ

pub record StickerPackResponse : Type 0 where
  pub id : ℕ
  pub title : Text
  pub slug : Text
  pub visibility : Visibility
  pub owner : Text
  pub subscribed : Bool
  pub editable : Bool
  pub stickers : List StickerResponse
  pub created_at : ℕ

-- `value or STICKER_SIZE`
abbrev or_size : Option ℕ → ℕ
or_size none = sticker_size
or_size (some zero) = sticker_size
or_size (some (suc n)) = suc n

-- `_sticker_response`, with the row of the sticker's image; `image_id` is the id in the URL.
unfoldable pub sticker_response : Sticker → MediaObject → StickerResponse
sticker_response s media = record {
  id = s.id;
  emoji = s.emoji;
  position = s.position;
  image_id = s.media_object_id;
  width = or_size media.width;
  height = or_size media.height;
}

unfoldable pub sticker_responses : Db → List Sticker → Option (List StickerResponse)
unfolding sticker_response
sticker_responses db [] = some []
sticker_responses db (s ∷ ss) =
    let rest = sticker_responses db ss in
    elim (find (λ m. m.id == s.media_object_id) db.media_objects) [
      | none ↦ none
      | some media ↦ elim rest [
        | none ↦ none
        | some responses ↦ some (sticker_response s media ∷ responses)
      ]
    ]

-- `pack.stickers`, which the relationship orders by position
unfoldable pub stickers_of : ℕ → Db → List Sticker
unfolding order_by
stickers_of pack_id db =
    order_by (λ a b. ltb a.position b.position) (filter (λ s. s.pack_id == pack_id) db.stickers)

abbrev pub is_subscribed : ℕ → ℕ → Db → Bool
is_subscribed pack_id user_id db = any (subscription_key pack_id user_id) db.subscriptions

-- `_pack_response`
unfoldable pub pack_response : ℕ → Db → StickerPack → Option StickerPackResponse
unfolding sticker_responses stickers_of get_user
pack_response user_id db p = elim (get_user p.owner_user_id db) [
  | none ↦ none
  | some owner ↦ elim (sticker_responses db (stickers_of p.id db)) [
    | none ↦ none
    | some stickers ↦ some (record {
      id = p.id;
      title = p.title;
      slug = p.slug;
      visibility = p.visibility;
      owner = owner.login;
      subscribed = is_subscribed p.id user_id db;
      editable = p.owner_user_id == user_id;
      stickers = stickers;
      created_at = p.created_at;
    })
  ]
]

unfoldable pub pack_responses : ℕ → Db → List StickerPack → Option (List StickerPackResponse)
unfolding pack_response
pack_responses user_id db [] = some []
pack_responses user_id db (p ∷ ps) =
    let rest = pack_responses user_id db ps in
    elim (pack_response user_id db p) [
      | none ↦ none
      | some response ↦ elim rest [ none ↦ none | some responses ↦ some (response ∷ responses) ]
    ]

pub data PackScope : Type 0 where
  library discover owned : PackScope

unfoldable pub is_in_scope : PackScope → ℕ → Db → StickerPack → Bool
is_in_scope discover user_id db p = is_public p.visibility
is_in_scope owned user_id db p = p.owner_user_id == user_id
is_in_scope library user_id db p = p.owner_user_id == user_id || is_subscribed p.id user_id db

unfoldable pub packs_in : PackScope → ℕ → Db → List StickerPack
unfolding is_in_scope order_by
packs_in scope user_id db =
    order_by (λ a b. ltb a.created_at b.created_at)
      (filter (is_in_scope scope user_id db) db.sticker_packs)

unfoldable pub list_sticker_packs : PackScope → User → Action (List StickerPackResponse)
unfolding packs_in pack_responses
list_sticker_packs scope current = query (λ db.
    elim (pack_responses current.id db (packs_in scope current.id db)) [
      | none ↦ err crash
      | some responses ↦ ok responses
    ])

unfoldable pub may_read_pack : ℕ → Db → StickerPack → Bool
may_read_pack user_id db p =
    is_public p.visibility || p.owner_user_id == user_id || is_subscribed p.id user_id db

unfoldable pub get_sticker_pack : ℕ → User → Action StickerPackResponse
unfolding get_pack may_read_pack pack_response
get_sticker_pack pack_id current = do
  found ← gets (get_pack pack_id)
  pack ← or_raise found 404
  readable ← gets (λ db. may_read_pack current.id db pack)
  raise_if (not readable) 404
  query (λ db. elim (pack_response current.id db pack) [
    | none ↦ err crash
    | some response ↦ ok response
  ])

module _ (P : StickerPack → Type 0) (before : StickerPack → StickerPack → Bool) where
  All-insert_by :
      (p : StickerPack) (ps : List StickerPack) → P p → All P ps → All P (insert_by before p ps)
  unfolding insert_by
  All-insert_by p [] h hs = (h, hs)
  All-insert_by p (q ∷ qs) h hs = elim (Bool-cases (before q p)) [
    | inl e ↦ rw e (hs.0, All-insert_by p qs h hs.1)
    | inr e ↦ rw e (h, hs)
  ]

  All-order_by : (ps : List StickerPack) → All P ps → All P (order_by before ps)
  unfolding order_by
  All-order_by [] hs = tt
  All-order_by (p ∷ ps) hs = All-insert_by p (order_by before ps) hs.0 (All-order_by ps hs.1)

in_scope_reads :
    (scope : PackScope) (user_id : ℕ) (db : Db) (p : StickerPack)
    → is_in_scope scope user_id db p ≡ true
    → may_read_pack user_id db p ≡ true
unfolding is_in_scope may_read_pack
in_scope_reads library user_id db p h = ground (arith, h)
in_scope_reads discover user_id db p h = ground (arith, h)
in_scope_reads owned user_id db p h = ground (arith, h)

scope_is_readable :
    (scope : PackScope) (user_id : ℕ) (db : Db) (ps : List StickerPack)
    → All (λ p. may_read_pack user_id db p ≡ true) (filter (is_in_scope scope user_id db) ps)
scope_is_readable scope user_id db [] = tt
scope_is_readable scope user_id db (p ∷ ps) = elim (Bool-cases (is_in_scope scope user_id db p)) [
  | inl e ↦ rw e (in_scope_reads scope user_id db p e, scope_is_readable scope user_id db ps)
  | inr e ↦ rw e (scope_is_readable scope user_id db ps)
]

-- Each pack in a listing, whatever its scope, is one that the user may read by its id.
packs_in-may_read_pack :
    (scope : PackScope) (user_id : ℕ) (db : Db)
    → All (λ p. may_read_pack user_id db p ≡ true) (packs_in scope user_id db)
unfolding packs_in
packs_in-may_read_pack scope user_id db =
    All-order_by (λ p. may_read_pack user_id db p ≡ true) (λ a b. ltb a.created_at b.created_at)
      (filter (is_in_scope scope user_id db) db.sticker_packs)
      (scope_is_readable scope user_id db db.sticker_packs)
