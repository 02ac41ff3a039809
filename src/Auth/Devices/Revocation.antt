-- ===== src/Auth/Devices/Revocation.antt =====
-- What `revoke_device` leaves of a device.
use secure_messenger.Prelude.{
  any, delete_where, ℕ, ◌≡◌, refl, ap, false, List, [], ◌∷◌, arith, Bool, map, filter,
}
use secure_messenger.Model.{Db}
use secure_messenger.Model.Accounts.{Device, SecurityEvent}
use secure_messenger.Http.{Result, ok, err, handle}
use secure_messenger.Http.Ends.{Ends-gets, Ends-modify, Ends-commit, Ends-pure_last, handle_by}
use secure_messenger.Services.SessionStore.Revocation.{IsConsistent, revoke_device-Without}
use secure_messenger.Services.SessionStore.Index.{IsWithout}
use secure_messenger.Services.Realtime.{
  Connection, is_on_device, close_device, has_token, disconnect_all, disconnect, broadcast,
  is_recipient,
}
use secure_messenger.Services.Realtime.Dict.{IsDict}
use secure_messenger.Services.Realtime.Delivery.{close_device-delete}
use secure_messenger.E2ee.Identity.{contact_events, add_events}
use secure_messenger.Auth.Devices.{
  Server, notify_contacts, revoke_stores, revoke_device, after_notify,
}
use secure_messenger.Auth.Devices.Rows.{HasRevokedRows, HasDeviceKey, RowsLeave, revoke_rows-Leave}
use secure_messenger.Queries.{contact_ids}
use secure_messenger.Services.SessionStore.{SessionStore}

-- The device has no valid row, refresh session, access token or socket.
abbrev pub IsShutOut : ℕ → Server → Type 0
IsShutOut d s =
    HasRevokedRows d s.db
    × IsWithout d s.session_store.tokens
    × (any (is_on_device d) s.connections ≡ false)

abbrev pub RevocationLeaves : ℕ → Server → Result (List ℕ) → Server → Type 0
RevocationLeaves d s (ok contacts) after = IsShutOut d after
RevocationLeaves d s (err e) after = after ≡ s

abbrev NotifyLeaves : ℕ → Result (List ℕ) → Db → Type 0
NotifyLeaves d (ok contacts) after = HasRevokedRows d after
NotifyLeaves d (err e) after = ⊥

add_events-rows :
    (d : ℕ) (es : List SecurityEvent) (db : Db)
    → HasRevokedRows d db
    → HasRevokedRows d (add_events es db)
unfolding add_events
add_events-rows d es db h = h

notify_contacts-Leaves :
    (fresh : ℕ → ℕ) (current device : Device) (d now : ℕ) (db : Db)
    → HasRevokedRows d db
    → let (r, after) = handle (notify_contacts fresh current device now) db in
      NotifyLeaves d r after
unfolding notify_contacts
notify_contacts-Leaves fresh current device d now db h = handle_by (NotifyLeaves d) _ db (
    Ends-gets _ _ (
      Ends-modify _ _ (
        Ends-commit _ (
          Ends-pure_last _ (
            add_events-rows d
              (contact_events fresh current.user_id device.id device.identity_fingerprint now
                (contact_ids current.user_id db))
              db h)))))

gone_sockets :
    (d : ℕ) (cs : List Connection) → any (is_on_device d) (delete_where (is_on_device d) cs) ≡ false
gone_sockets d [] = refl
gone_sockets d (c ∷ cs) = ground (arith, gone_sockets d cs)

close_device-gone :
    (d : ℕ) (cs : List Connection) → IsDict cs → any (is_on_device d) (close_device d cs).1 ≡ false
close_device-gone d cs v = rw (close_device-delete d cs v) (gone_sockets d cs)

any-delete :
    (p q : Connection → Bool) (cs : List Connection)
    → any p cs ≡ false
    → any p (delete_where q cs) ≡ false
any-delete p q [] h = refl
any-delete p q (c ∷ cs) h = ground (arith, h, any-delete p q cs)

any-disconnect_all :
    (p : Connection → Bool) (ts : List ℕ) (cs : List Connection)
    → any p cs ≡ false
    → any p (disconnect_all ts cs) ≡ false
unfolding disconnect_all disconnect
any-disconnect_all p [] cs h = h
any-disconnect_all p (t ∷ ts) cs h =
    any-disconnect_all p ts (delete_where (has_token t) cs) (any-delete p (has_token t) cs h)

-- A broadcast connects nobody.
any-broadcast :
    (p : Connection → Bool) (fails : ℕ → Bool) (users : List ℕ) (cs : List Connection)
    → any p cs ≡ false
    → any p (broadcast fails users cs).1 ≡ false
unfolding broadcast
any-broadcast p fails users cs h =
    any-disconnect_all p
      (map (λ c. c.token) (filter (λ c. fails c.websocket) (filter (is_recipient users) cs))) cs h

notified :
    (d : ℕ) (s : Server) (store : SessionStore) (fails : ℕ → Bool) (cs : List Connection)
    (r : Result (List ℕ)) (db : Db)
    → NotifyLeaves d r db
    → IsWithout d store.tokens
    → any (is_on_device d) cs ≡ false
    → RevocationLeaves d s r
        (record { db = db; session_store = store; connections = after_notify fails r cs })
unfolding after_notify
notified d s store fails cs (ok contacts) db h out gone =
    (h, out, any-broadcast (is_on_device d) fails contacts cs gone)
notified d s store fails cs (err e) db h out gone = absurd h

module _ (fails fails_later : ℕ → Bool) (fresh : ℕ → ℕ) (d : ℕ) (current : Device) (now : ℕ)
    (s : Server) where
  stores_leave :
      (r : Result Device) (db : Db)
      → IsConsistent s.session_store
      → IsDict s.connections
      → RowsLeave d s.db r db
      → let (x, after) =
          revoke_stores fails fails_later fresh current d now r (record s { db = db }) in
        RevocationLeaves d s x after
  unfolding revoke_stores
  stores_leave (err e) db v w h = ap (λ x. record s { db = x }) h
  stores_leave (ok device) db v w h =
      notified d s _ fails_later _ _ _ (notify_contacts-Leaves fresh current device d now db h)
        (revoke_device-Without d s.session_store v)
        (any-broadcast (is_on_device d) fails _ _ (close_device-gone d s.connections w))

-- DELETE /auth/devices/{device_id} answers an error and changes nothing, or leaves the device shut
-- out: each row with its id and each of its refresh sessions is revoked, no access token of the
-- session store is for it, and no socket is connected for it. Device ids are unique in the table,
-- the session store is consistent and the connections are a dictionary; whichever sockets fail in
-- the two broadcasts.
pub revoke_device-RevocationLeaves :
    (fails fails_later : ℕ → Bool) (fresh : ℕ → ℕ) (d : ℕ) (current : Device) (now : ℕ) (s : Server)
    → HasDeviceKey s.db
    → IsConsistent s.session_store
    → IsDict s.connections
    → let (r, after) = revoke_device fails fails_later fresh d current now s in
      RevocationLeaves d s r after
unfolding revoke_device
revoke_device-RevocationLeaves fails fails_later fresh d current now s key v w =
    stores_leave fails fails_later fresh d current now s _ _ v w
      (revoke_rows-Leave d current now s.db key)
