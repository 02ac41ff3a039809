-- ===== src/Chats/Effects/Actor.antt =====
-- The guard `_group_and_actor` of app/routers/chats.py writes nothing.
use secure_messenger.Prelude.{ℕ, ◌≡◌, false, some}
use secure_messenger.Model.Chats.{Chat, ChatMember}
use secure_messenger.Http.{Error, status, Result, err, Session, Action, ◌>>=◌}
use secure_messenger.Http.Ends.{
  Ends, Ends-gets, Ends-or_raise, Ends-bind, Ends-raise_if, Ends-pure_last, Ends-found, Ends-passed,
}
use secure_messenger.Queries.{get_member, get_group}
use secure_messenger.Chats.Groups.{is_plain_member, group_and_actor}

pub actor_ends :
    {B : Type 0} {s : Session} {Q : Result B → Session → Type 0} (k : Chat × ChatMember → Action B)
    (c u : ℕ)
    → ((e : Error) → Q (err e) s)
    → ((g : Chat) (a : ChatMember)
        → get_group c s.working ≡ some g
        → get_member c u s.working ≡ some a
        → is_plain_member a.role ≡ false
        → Ends (k (g, a)) s Q)
    → Ends (group_and_actor c u >>= k) s Q
unfolding group_and_actor
actor_ends k c u failed went = Ends-bind _ _ (
    Ends-gets _ _ (
      Ends-or_raise _ _ _ (λ _. failed (status 404))
        λ g found. Ends-gets _ _ (
          Ends-or_raise _ _ _ (λ _. failed (status 404))
            λ a there.
              Ends-raise_if _ _ _ (λ _. failed (status 403))
                λ allowed. Ends-pure_last _ (went g a found there allowed))))

-- The same where the group and the acting member are known.
pub actor_known :
    {B : Type 0} {s : Session} {Q : Result B → Session → Type 0} (k : Chat × ChatMember → Action B)
    (c u : ℕ) (g : Chat) (a : ChatMember)
    → get_group c s.working ≡ some g
    → get_member c u s.working ≡ some a
    → is_plain_member a.role ≡ false
    → Ends (k (g, a)) s Q
    → Ends (group_and_actor c u >>= k) s Q
unfolding group_and_actor
actor_known k c u g a found there allowed h = Ends-bind _ _ (
    Ends-gets _ _ (
      Ends-found _ _ _ g found (
        Ends-gets _ _ (Ends-found _ _ _ a there (Ends-passed _ _ _ allowed (Ends-pure_last _ h))))))
