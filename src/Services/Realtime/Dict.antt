-- ===== src/Services/Realtime/Dict.antt =====
-- The dictionary of connections keeps distinct keys.
use secure_messenger.Prelude.{
  Bool-cases, any, update_where, delete_where, ℕ, ◌≡◌, refl, ◌∙◌, inl, inr, Bool, true, false, ◌||◌,
  List, [], ◌∷◌, ◌++◌, arith,
}
use secure_messenger.Services.Realtime.{Connection, has_token, connect}

-- The keys of a dictionary are distinct.
abbrev pub IsDict : List Connection → Type 0
IsDict [] = Unit
IsDict (c ∷ cs) = (any (has_token c.token) cs ≡ false) × IsDict cs

any-update :
    (token : ℕ) (c : Connection) (cs : List Connection)
    → any (has_token token) (update_where (has_token c.token) (λ _. c) cs)
      ≡ any (has_token token) cs
any-update token c [] = refl
any-update token c (x ∷ cs) = ground (arith, any-update token c cs)

update-IsDict :
    (c : Connection) (cs : List Connection)
    → IsDict cs
    → IsDict (update_where (has_token c.token) (λ _. c) cs)
update-IsDict c [] v = tt
update-IsDict c (x ∷ cs) v = (ground (arith, v.0, any-update x.token c cs), update-IsDict c cs v.1)

any-append :
    (p : Connection → Bool) (cs ds : List Connection) → any p (cs ++ ds) ≡ any p cs || any p ds
any-append p [] ds = refl
any-append p (c ∷ cs) ds = ground (arith, any-append p cs ds)

append-IsDict :
    (c : Connection) (cs : List Connection)
    → any (has_token c.token) cs ≡ false
    → IsDict cs
    → IsDict (cs ++ c ∷ [])
append-IsDict c [] h v = (refl, tt)
append-IsDict c (x ∷ cs) h v = (
  ground (arith, h, v.0, any-append (has_token x.token) cs (c ∷ [])),
  append-IsDict c cs (ground (arith, h)) v.1,
)

pub connect-IsDict : (c : Connection) (cs : List Connection) → IsDict cs → IsDict (connect c cs)
unfolding connect
connect-IsDict c cs v = elim (Bool-cases (any (has_token c.token) cs)) [
  | inl there ↦ rw there (update-IsDict c cs v)
  | inr absent ↦ rw absent (append-IsDict c cs absent v)
]

any-delete_le :
    (p q : Connection → Bool) (cs : List Connection)
    → any p cs ≡ false
    → any p (delete_where q cs) ≡ false
any-delete_le p q [] h = refl
any-delete_le p q (c ∷ cs) h = ground (arith, h, any-delete_le p q cs)

pub delete-IsDict :
    (q : Connection → Bool) (cs : List Connection) → IsDict cs → IsDict (delete_where q cs)
delete-IsDict q [] v = tt
delete-IsDict q (c ∷ cs) v = elim (Bool-cases (q c)) [
  | inl gone ↦ rw gone (delete-IsDict q cs v.1)
  | inr kept ↦ rw kept (any-delete_le (has_token c.token) q cs v.0, delete-IsDict q cs v.1)
]

pub connect-has :
    (c : Connection) (cs : List Connection) → any (has_token c.token) (connect c cs) ≡ true
unfolding connect
connect-has c cs = elim (Bool-cases (any (has_token c.token) cs)) [
  | inl there ↦ rw there (any-update c.token c cs ∙ there)
  | inr absent ↦ rw absent (ground (arith, any-append (has_token c.token) cs (c ∷ [])))
]
