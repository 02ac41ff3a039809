-- ===== src/Chats/Tests.antt =====
-- Small runs of the chat requests, and the theorems at concrete inputs.
use secure_messenger.Prelude.{codes, text_eq, ◌≡◌, refl, [], ◌∷◌, arith}
use secure_messenger.Model.Chats.{owner, admin, InvitationStatus, ChatInvitation}
use secure_messenger.Http.{status, Result, err, handle}
use secure_messenger.Queries.{find_user, find_active_user, get_user, get_member, get_group}
use secure_messenger.Chats.Groups.{as_member, add_group_member, transfer_group_ownership}
use secure_messenger.Chats.Owners.{owners}
use secure_messenger.Chats.Valid.{IsValid}
use secure_messenger.Chats.Requests.{Call, transfer, Request, serve, demotes_owner}
use secure_messenger.Chats.Ownership.{serve-IsValid}
use secure_messenger.Chats.Demotion.{demotion_leaves_no_owner}
use secure_messenger.Model.Samples.{alice, carol, team, alice_owns, bob_joined, small}
use secure_messenger.Chats.Expiry.{expired_invitation_stays}
use secure_messenger.Chats.Invitations.{
  invitation_lifetime, find_pending, get_invitation, invite_group_member, accept_group_invitation,
}
use secure_messenger.Serializers.{ChatResponse}
use secure_messenger.Model.{Db}

small-IsValid : IsValid small
small-IsValid = record {
  keyed = (refl, (refl, tt));
  members_old = (omega arith, (omega arith, tt));
  chats_old = (omega arith, tt);
  invitations_old = tt;
  one_owner = (refl, tt);
  users_keyed = (refl, (refl, (refl, tt)));
  direct_keys = λ k. omega arith;
}

abbrev by_alice : Call → Request
by_alice call = record { current = alice; now = 5; fresh = 77; call = call }

-- The owner hands the group over to bob.
handed_over :
    (serve (by_alice (transfer 0 (codes "bob"))) small).chat_members
    ≡ record alice_owns { role = admin } ∷ record bob_joined { role = owner } ∷ []
unfolding serve handle transfer_group_ownership get_group get_member find_user text_eq
handed_over = refl

serve-IsValid_example : IsValid (serve (by_alice (transfer 0 (codes "bob"))) small)
unfolding get_user demotes_owner
serve-IsValid_example =
    serve-IsValid (by_alice (transfer 0 (codes "bob"))) small small-IsValid refl refl

demotion_leaves_no_owner_example :
    owners 0 (handle (add_group_member 0 (codes "alice") as_member alice 5) small).1.chat_members
    ≡ 0
unfolding get_group find_active_user get_member text_eq
demotion_leaves_no_owner_example =
    demotion_leaves_no_owner 0 team alice alice_owns as_member 5 small refl refl refl refl
      small-IsValid

-- carol was invited at 0 and has not answered.
abbrev carols_invitation : ChatInvitation
carols_invitation = record {
  id = 60;
  chat_id = 0;
  inviter_user_id = 1;
  invitee_user_id = 3;
  status = InvitationStatus.pending;
  created_at = 0;
  expires_at = invitation_lifetime;
}

abbrev invited : Db
invited = record small { chat_invitations = carols_invitation ∷ [] }

expired_invitation_stays_example :
    ((handle (invite_group_member 61 0 (codes "carol") alice 604800000001) invited).1 ≡ invited)
    × ◌≡◌ {A = Result ChatResponse × Db}
        (handle (accept_group_invitation 60 carol 604800000001) invited)
        (err (status 410), invited)
unfolding get_group get_member find_active_user find_pending get_invitation text_eq
expired_invitation_stays_example =
    expired_invitation_stays 0 team alice_owns alice carol carols_invitation 604800000001 invited
      refl refl refl refl refl refl refl refl 61
