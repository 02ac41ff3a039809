-- ===== src/Users/Tests.antt =====
-- Small runs of the requests on users, and the theorems at concrete inputs.
use secure_messenger.Prelude.{
  ltb, ◌==◌, if◌then◌else◌, Text, codes, text_eq, underscore, ℕ, ◌≡◌, refl, Bool, true, false, ◌||◌,
  some, [], ◌∷◌, arith, strip,
}
use secure_messenger.Model.{Db}
use secure_messenger.Model.Samples.{alice, bob, carol, small}
use secure_messenger.Http.{status, Result, err, handle, ok}
use secure_messenger.Queries.{find_active_user, is_blocked, find_user}
use secure_messenger.Serializers.{ChatResponse}
use secure_messenger.Chats.Direct.{create_direct_chat}
use secure_messenger.Users.Profiles.{unset, set_to, ProfileUpdateRequest, update_profile}
use secure_messenger.Users.Profiles.Outcomes.{Updated, update_profile-Updated}
use secure_messenger.Users.Blocks.{get_block, block_user, unblock_user}
use secure_messenger.Users.Blocks.Effects.{block_user-stops_direct, unblock_user-block_user}
use secure_messenger.Users.Search.{percent, backslash, matching_users, search_users}
use secure_messenger.Users.Search.Pattern.{
  any_suffix, first_matches, LikeLaws, contains_folded, search_users-contains,
}
use secure_messenger.Model.Accounts.{User}

block_user-stops_direct_example :
    let after = (handle (block_user (codes "bob") alice 5) small).1 in
    (◌≡◌ {A = Result ChatResponse × Db}
      (handle (create_direct_chat (λ db. db) (codes "bob") alice 6) after)
      (err (status 403), after))
    × (◌≡◌ {A = Result ChatResponse × Db}
        (handle (create_direct_chat (λ db. db) (codes "alice") bob 6) after)
        (err (status 403), after))
unfolding handle block_user find_active_user get_block text_eq
block_user-stops_direct_example =
    block_user-stops_direct (λ db. db) alice bob 5 6 small refl refl refl

-- alice, under another name.
abbrev renaming : ProfileUpdateRequest
renaming = record {
  username = set_to (some (codes "alice_2"));
  display_name = set_to (some (codes " A "));
  bio = unset;
}

update_profile-Updated_example :
    let (r, after) = handle (update_profile (λ db. db) renaming alice) small in
    Updated (λ db. db) renaming 1 small r after
update_profile-Updated_example = update_profile-Updated (λ db. db) renaming alice small

unblock_user-block_user_example :
    ◌≡◌ {A = Result (Unit {0}) × Db}
      (handle
        (unblock_user (codes "bob") alice)
        (handle (block_user (codes "bob") alice 5) small).1)
      (ok tt, small)
unfolding handle block_user find_active_user find_user get_block text_eq
unblock_user-block_user_example =
    unblock_user-block_user (codes "bob") alice bob 5 small refl refl refl

-- LIKE, where the flag says that the last character was the escape.
abbrev like_from : Bool → Text → Text → Bool
like_from false [] t = text_eq t []
like_from true [] t = false
like_from false (c ∷ p) t =
    if c == percent
    then any_suffix (like_from false p) t
    else if c == backslash
    then like_from true p t
    else if c == underscore
    then first_matches (λ _. 0) 0 (like_from false p) t
    else first_matches (λ d. d) c (like_from false p) t
like_from true (c ∷ p) t = first_matches (λ d. d) c (like_from false p) t

like-LikeLaws : LikeLaws (like_from false) (λ d. d)
like-LikeLaws = record {
  end = λ t. refl;
  wildcard = λ p t. refl;
  escaped = λ c p t. refl;
  literal = λ c p t h. plain c p t h;
}
  where
    plain :
        (c : ℕ) (p t : Text)
        → (c == percent || c == backslash || c == underscore) ≡ false
        → like_from false (c ∷ p) t ≡ first_matches (λ d. d) c (like_from false p) t
    plain c p t h = rw (first_not h) (rw (second_not h) (rw (third_not h) refl))
      where
        first_not :
            (c == percent || c == backslash || c == underscore) ≡ false → (c == percent) ≡ false
        first_not h = ground (arith, h)

        second_not :
            (c == percent || c == backslash || c == underscore) ≡ false → (c == backslash) ≡ false
        second_not h = ground (arith, h)

        third_not :
            (c == percent || c == backslash || c == underscore) ≡ false → (c == underscore) ≡ false
        third_not h = ground (arith, h)

abbrev by_id : User → User → Bool
by_id u v = ltb u.id v.id

search_users-contains_example :
    search_users (like_from false) (λ s. s) by_id (codes " @li") carol small
    ≡ matching_users (contains_folded (λ d. d) (codes "li")) by_id 3 small
unfolding search_users is_blocked strip
search_users-contains_example =
    search_users-contains (like_from false) (λ d. d) like-LikeLaws (λ s. s) by_id (codes " @li")
      carol small

-- carol finds alice by a part of the name.
finds_alice : matching_users (contains_folded (λ d. d) (codes "li")) by_id 3 small ≡ alice ∷ []
unfolding matching_users is_blocked
finds_alice = refl
