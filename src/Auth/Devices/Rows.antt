-- ===== src/Auth/Devices/Rows.antt =====
-- What `revoke_device` leaves in the tables.
use secure_messenger.Prelude.{
  ◌==◌, is_none, is_some, find, all, count, update_where, ℕ, ◌≤◌, ◌≡◌, refl, true, false, ◌&&◌,
  ◌||◌, not, Option, none, some, List, [], ◌∷◌, arith,
}
use secure_messenger.Model.{Db}
use secure_messenger.Model.Accounts.{DeviceStatus, Device, RefreshSession}
use secure_messenger.Http.{Result, ok, err, handle}
use secure_messenger.Http.Ends.{
  Ends-gets, Ends-or_raise, Ends-bind, Ends-modify, Ends-commit, Ends-commit_last, Ends-pure_last,
  Ends-branch, handle_by,
}
use secure_messenger.Queries.{get_device}
use secure_messenger.Auth.Devices.{set_revoked, revoke_refresh_sessions, own_device, revoke_rows}

-- Each row of the device, and each of its refresh sessions, is revoked.
abbrev pub HasRevokedRows : ℕ → Db → Type 0
HasRevokedRows d db =
    (all (λ x. not (x.id == d) || is_some x.revoked_at) db.devices ≡ true)
    × (all (λ r. not (r.device_id == d) || is_some r.revoked_at) db.refresh_sessions ≡ true)

all_revoked_devices :
    (d now : ℕ) (ds : List Device)
    → all
        (λ x. not (x.id == d) || is_some x.revoked_at)
        (update_where
          (λ x. x.id == d)
          (λ x. record x { revoked_at = some now; status = DeviceStatus.revoked })
          ds)
      ≡ true
all_revoked_devices d now [] = refl
all_revoked_devices d now (x ∷ ds) = ground (arith, all_revoked_devices d now ds)

all_revoked_sessions :
    (d now : ℕ) (rs : List RefreshSession)
    → all
        (λ r. not (r.device_id == d) || is_some r.revoked_at)
        (update_where
          (λ r. r.device_id == d && is_none r.revoked_at)
          (λ r. record r { revoked_at = some now })
          rs)
      ≡ true
all_revoked_sessions d now [] = refl
all_revoked_sessions d now (r ∷ rs) = ground (arith, all_revoked_sessions d now rs)

-- Device ids are a primary key.
abbrev pub HasDeviceKey : Db → Type 0
HasDeviceKey db = (id : ℕ) → count (λ x. x.id == id) db.devices ≤ 1

none_with_id :
    (d : ℕ) (ds : List Device)
    → count (λ x. x.id == d) ds ≡ 0
    → all (λ x. not (x.id == d) || is_some x.revoked_at) ds ≡ true
none_with_id d [] h = refl
none_with_id d (x ∷ ds) h = ground (arith, h, none_with_id d ds)

found_revoked :
    (d : ℕ) (x : Device) (ds : List Device)
    → count (λ y. y.id == d) ds ≤ 1
    → find (λ y. y.id == d) ds ≡ some x
    → is_none x.revoked_at ≡ false
    → all (λ y. not (y.id == d) || is_some y.revoked_at) ds ≡ true
found_revoked d x [] u e h = refl
found_revoked d x (y ∷ ds) u e h = ground (arith, h, none_with_id d ds, found_revoked d x ds)

own_device_is_found :
    (current : Device) (o : Option Device) (x : Device) → own_device current o ≡ some x → o ≡ some x
unfolding own_device
own_device_is_found current none x e = e
own_device_is_found current (some y) x e = ground (arith, e)

rows_after :
    (d now : ℕ) (db : Db)
    → all (λ x. not (x.id == d) || is_some x.revoked_at) db.devices ≡ true
    → HasRevokedRows d (revoke_refresh_sessions d now db)
unfolding revoke_refresh_sessions
rows_after d now db h = (h, all_revoked_sessions d now db.refresh_sessions)

devices_after :
    (d now : ℕ) (db : Db)
    → all (λ x. not (x.id == d) || is_some x.revoked_at) (set_revoked d now db).devices ≡ true
unfolding set_revoked
devices_after d now db = all_revoked_devices d now db.devices

abbrev pub RowsLeave : ℕ → Db → Result Device → Db → Type 0
RowsLeave d db (ok x) after = HasRevokedRows d after
RowsLeave d db (err e) after = after ≡ db

pub revoke_rows-Leave :
    (d : ℕ) (current : Device) (now : ℕ) (db : Db)
    → HasDeviceKey db
    → let (r, after) = handle (revoke_rows d current now) db in RowsLeave d db r after
unfolding revoke_rows
revoke_rows-Leave d current now db key = handle_by (RowsLeave d db) _ db (
    Ends-gets _ _ (
      Ends-or_raise _ _ _ (λ _. refl)
        λ (x : Device) own. Ends-bind _ _ (
          Ends-branch _ _ _
            (λ open_one. Ends-modify _ _ (
              Ends-commit_last (
                Ends-modify _ _ (
                  Ends-commit _ (
                    Ends-pure_last _
                      (rows_after d now (set_revoked d now db) (devices_after d now db)))))))
            λ closed. Ends-pure_last _ (
              Ends-modify _ _
                (Ends-commit _ (Ends-pure_last _ (rows_after d now db (already x own closed))))))))
  where
    already :
        (x : Device)
        → own_device current (get_device d db) ≡ some x
        → is_none x.revoked_at ≡ false
        → all (λ y. not (y.id == d) || is_some y.revoked_at) db.devices ≡ true
    already x own closed =
        found_revoked d x db.devices (key d)
          (unfold get_device in own_device_is_found current (get_device d db) x own) closed
