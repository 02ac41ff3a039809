-- ===== src/Chats/Expiry.antt =====
-- An invitation that has expired while it was pending: POST /chats/groups/{chat_id}/invitations and
-- its acceptance.
use secure_messenger.Prelude.{
  leb, find_passes, ℕ, ◌≡◌, refl, true, false, Option, none, some, arith,
}
use secure_messenger.Model.{Db}
use secure_messenger.Model.Accounts.{User}
use secure_messenger.Model.Chats.{Chat, ChatMember, ChatInvitation}
use secure_messenger.Http.{status, Result, err, handle}
use secure_messenger.Http.Ends.{
  Ends, Ends-gets, Ends-raise_if, Ends-query_last, handle_by, Ends-found, Ends-passed,
}
use secure_messenger.Queries.{find_active_user, get_member, get_group}
use secure_messenger.Serializers.{ChatResponse}
use secure_messenger.Chats.Groups.{is_plain_member}
use secure_messenger.Chats.Invitations.{
  pending_for, find_pending, get_invitation, invite_or_reuse, invite_group_member,
  accept_group_invitation,
}
use secure_messenger.Chats.Effects.Actor.{actor_known}

module _ (c : ℕ) (g : Chat) (a : ChatMember) (current invitee : User) (i : ChatInvitation) (now : ℕ)
    (db : Db) (is_group : get_group c db ≡ some g) (acts : get_member c current.id db ≡ some a)
    (allowed : is_plain_member a.role ≡ false)
    (known : find_active_user invitee.login db ≡ some invitee)
    (outside : get_member c invitee.id db ≡ none) (waiting : find_pending c invitee.id db ≡ some i)
    (stored : get_invitation i.id db ≡ some i) (late : leb i.expires_at now ≡ true) where
  is_pending_for : pending_for c invitee.id i ≡ true
  is_pending_for =
      unfold find_pending in find_passes (pending_for c invitee.id) db.chat_invitations i waiting

  invites_nothing :
      (fresh : ℕ) → (handle (invite_group_member fresh c invitee.login current now) db).1 ≡ db
  unfolding invite_group_member invite_or_reuse
  invites_nothing fresh =
      handle_by (λ r t. t ≡ db) _ db
        (actor_known _ c current.id g a is_group acts allowed (
          Ends-gets _ _ (
            Ends-found _ _ _ invitee known (
              Ends-gets _ _ (
                Ends-passed _ _ _ (ground (arith, outside))
                  (Ends-gets _ _ (reused fresh _ waiting)))))))
    where
      reused :
          (fresh : ℕ) (o : Option ChatInvitation)
          → o ≡ some i
          → Ends
              (invite_or_reuse fresh c current.id invitee.id now o)
              (record { committed = db; working = db })
              (λ r t. t.committed ≡ db)
      reused fresh none e = absurd (ground (arith, e))
      reused fresh (some old) e = Ends-query_last _ refl

  refuses_acceptance :
      ◌≡◌ {A = Result ChatResponse × Db}
        (handle (accept_group_invitation i.id invitee now) db)
        (err (status 410), db)
  unfolding accept_group_invitation
  refuses_acceptance =
      handle_by (λ r t. ◌≡◌ {A = Result ChatResponse × Db} (r, t) (err (status 410), db)) _ db
        (Ends-gets _ _ (
          Ends-found _ _ _ i stored (
            Ends-passed _ _ _ (ground (arith, is_pending_for)) (
              Ends-passed _ _ _ (ground (arith, is_pending_for)) (
                Ends-raise_if _ _ _ (λ _. refl)
                  λ (early : leb i.expires_at now ≡ false).
                    absurd (ground (arith, late, early)))))))

  -- Where the pending invitation of an active user, who is no member of the group, has expired, a new
  -- invitation of the user by the owner or an admin changes nothing, and to accept the old one is
  -- refused with 410 and changes nothing.
  pub expired_invitation_stays :
      (fresh : ℕ)
      → ((handle (invite_group_member fresh c invitee.login current now) db).1 ≡ db)
        × ◌≡◌ {A = Result ChatResponse × Db}
            (handle (accept_group_invitation i.id invitee now) db)
            (err (status 410), db)
  expired_invitation_stays fresh = (invites_nothing fresh, refuses_acceptance)
