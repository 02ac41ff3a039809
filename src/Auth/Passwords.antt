-- ===== src/Auth/Passwords.antt =====
-- app/auth.py: checks of credentials. Argon2 and the legacy hash are parameters.
use secure_messenger.Prelude.{
  ltb, leb, if◌then◌else◌, length, Text, codes, text_eq, starts_with, strip, ℕ, Bool, true, false,
  Option, none, some, List, [], ◌∷◌,
}

abbrev pub min_password_len : ℕ
min_password_len = 8

-- AuthError(...)
pub data AuthError : Type 0 where
  empty_login short_password : AuthError

pub data Checked : Type 0 where
  valid : Text → Checked
  invalid : AuthError → Checked

unfoldable pub validate_credentials : Text → Text → Checked
validate_credentials login password =
    let normalized_login = strip login in
    if leb (length normalized_login) 0
    then invalid empty_login
    else if ltb (length password) min_password_len
    then invalid short_password
    else valid normalized_login

-- What the code uses of argon2 and of app/crypto.py.
pub record Hasher : Type 0 where
  -- ARGON2.verify, false where it raises
  pub verify : Text → Text → Bool
  pub check_needs_rehash : Text → Bool
  pub hash : Text → Text
  pub legacy_hash_password : Text → List ℕ → Text

-- The result of `verify_password`: a replacement hash comes only with a valid password.
pub record Verification : Type 0 where
  pub is_valid : Bool
  pub replacement_hash : Option Text

abbrev pub rejected : Verification
rejected = record { is_valid = false; replacement_hash = none }

module _ (h : Hasher) where
  unfoldable pub verify_legacy : Text → Text → List ℕ → Verification
  verify_legacy password stored_hash [] = rejected
  verify_legacy password stored_hash (s ∷ salt) =
      if text_eq (h.legacy_hash_password password (s ∷ salt)) stored_hash
      then record { is_valid = true; replacement_hash = some (h.hash password) }
      else rejected

  unfoldable pub verify_argon2 : Text → Text → Verification
  verify_argon2 password encoded_hash =
      if h.verify encoded_hash password
      then record {
        is_valid = true;
        replacement_hash =
            if h.check_needs_rehash encoded_hash then some (h.hash password) else none;
      }
      else rejected

  unfoldable pub verify_password : Text → Text → List ℕ → Verification
  unfolding verify_legacy verify_argon2
  verify_password password stored_hash stored_salt =
      if starts_with (codes "$argon2id$") stored_hash
      then verify_argon2 password stored_hash
      else verify_legacy password stored_hash stored_salt
