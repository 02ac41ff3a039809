-- ===== src/Media/Stickers/Positions.antt =====
-- The positions of the stickers of a pack.
use secure_messenger.Prelude.{
  ◌==◌, count, count-append, Text, ℕ, ◌≤◌, ◌≡◌, refl, Bool, ◌&&◌, Option, List, [], ◌∷◌, arith,
}
use secure_messenger.Model.{Db}
use secure_messenger.Model.Accounts.{User}
use secure_messenger.Model.Media.{MediaObject, Sticker}
use secure_messenger.Http.{handle}
use secure_messenger.Http.Ends.{
  Ends-gets, Ends-or_raise, Ends-bind, Ends-raise_if, Ends-modify, Ends-commit_last, Ends-pure_last,
  handle_by,
}
use secure_messenger.Media.Attachments.{read_limited, StoredObject, insert_media}
use secure_messenger.Media.Stickers.{
  next_position, new_image, emoji_of, insert_sticker, add_sticker,
}

abbrev pub is_at : ℕ → ℕ → Sticker → Bool
is_at pack position s = s.pack_id == pack && s.position == position

-- No two stickers of a pack have one position.
abbrev pub IsPlaced : Db → Type 0
IsPlaced db = (pack position : ℕ) → count (is_at pack position) db.stickers ≤ 1

above_next :
    (pack k : ℕ) (ss : List Sticker) → next_position pack ss ≤ k → count (is_at pack k) ss ≡ 0
unfolding next_position
above_next pack k [] h = refl
above_next pack k (s ∷ ss) h = ground (arith, h, above_next pack k ss)

insert_sticker-IsPlaced :
    (s : Sticker) (db : Db)
    → s.position ≡ next_position s.pack_id db.stickers
    → IsPlaced db
    → IsPlaced (insert_sticker s db)
unfolding insert_sticker
insert_sticker-IsPlaced s db e v = λ pack k. ground (
  arith,
  v pack k,
  count-append (is_at pack k) db.stickers (s ∷ []),
  above_next s.pack_id s.position db.stickers (ground (arith, e)),
)

placed :
    (o : MediaObject) (s : Sticker) (db : Db)
    → s.position ≡ next_position s.pack_id db.stickers
    → IsPlaced db
    → IsPlaced (insert_sticker s (insert_media o db))
unfolding insert_media
placed o s db e v = insert_sticker-IsPlaced s (insert_media o db) e v

-- POST /sticker-packs/{pack_id}/stickers keeps the positions in each pack distinct, whatever it
-- answers.
pub add_sticker-IsPlaced :
    (normalize : List ℕ → Option (List ℕ)) (sha256 : List ℕ → ℕ) (stored : StoredObject)
    (sticker_id pack_id : ℕ) (upload : List ℕ) (emoji : Option Text) (current : User) (now : ℕ)
    (db : Db)
    → IsPlaced db
    → IsPlaced
        (handle
          (add_sticker normalize sha256 stored sticker_id pack_id upload emoji current now)
          db).1
unfolding add_sticker read_limited
add_sticker-IsPlaced normalize sha256 stored sticker_id pack_id upload emoji current now db v =
    handle_by (λ r t. IsPlaced t) _ db
      (Ends-gets _ _ (
        Ends-or_raise _ _ _ (λ _. v)
          λ pack _. Ends-bind _ _ (
            Ends-raise_if _ _ _ (λ _. v)
              λ _.
                Ends-raise_if _ _ _ (λ _. v)
                  λ _. Ends-pure_last _ (
                    Ends-or_raise _ _ _ (λ _. v)
                      λ image _. Ends-gets _ _ (
                        Ends-modify _ _ (
                          Ends-modify _ _ (
                            Ends-commit_last (
                              placed (new_image stored current.id image (sha256 image) now)
                                (record {
                                  id = sticker_id;
                                  pack_id = pack_id;
                                  media_object_id = stored.media_id;
                                  emoji = emoji_of emoji;
                                  position = next_position pack_id db.stickers;
                                  created_at = now;
                                })
                                db refl v))))))))
