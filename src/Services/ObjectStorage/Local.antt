-- ===== src/Services/ObjectStorage/Local.antt =====
-- LocalObjectStorage stays below its root and keeps the laws of a storage.
use mathlib.Core.Path.{subst}
use secure_messenger.Prelude.{
  if◌then◌else◌, Bool-cases, find, any, delete_where, Text, eq_of_text_eq, text_eq_refl,
  text_eq_sym, ℕ, ◌≡◌, refl, ap, ◌∙◌, inl, inr, Bool, true, false, Option, none, some, List, [],
  ◌∷◌, arith,
}
use secure_messenger.Services.ObjectStorage.{
  found, missing, done, raised, left_by, StorageLaws, FilePath, resolve_key, path_eq, parents,
  object_path, Files, is_at, write_bytes, content_of, read_bytes, unlink, WriteEnd, whole,
  not_opened, cut, Faults, write_until, write_at, read_at, unlink_at, same_path, local_put,
  local_get, local_delete, local_storage,
}

path_eq_refl : (p : FilePath) → path_eq p p ≡ true
unfolding path_eq
path_eq_refl [] = refl
path_eq_refl (n ∷ p) = ground (arith, text_eq_refl n, path_eq_refl p)

eq_of_path_eq : (p q : FilePath) → path_eq p q ≡ true → p ≡ q
unfolding path_eq
eq_of_path_eq [] [] h = refl
eq_of_path_eq [] (n ∷ q) h = absurd (ground arith)
eq_of_path_eq (m ∷ p) [] h = absurd (ground arith)
eq_of_path_eq (m ∷ p) (n ∷ q) h = ground (arith, h, eq_of_text_eq m n, eq_of_path_eq p q)

find-unlink :
    (p q : FilePath) (files : Files)
    → find (is_at q) (delete_where (is_at p) files)
      ≡ (if path_eq p q then none else find (is_at q) files)
find-unlink p q [] = ground arith
find-unlink p q (f ∷ files) =
    ground (arith, find-unlink p q files, eq_of_path_eq p f.0, eq_of_path_eq q f.0, path_eq_refl p)

content_of-if :
    (b : Bool) (o p : Option (FilePath × List ℕ))
    → content_of (if b then o else p) ≡ (if b then content_of o else content_of p)
content_of-if true o p = refl
content_of-if false o p = refl

read-unlink :
    (p q : FilePath) (files : Files)
    → read_bytes q (unlink p files) ≡ (if path_eq p q then missing else read_bytes q files)
unfolding read_bytes unlink content_of
read-unlink p q files =
    ap content_of (find-unlink p q files) ∙ content_of-if (path_eq p q) none (find (is_at q) files)

path_eq-sym : (p q : FilePath) → path_eq p q ≡ path_eq q p
unfolding path_eq
path_eq-sym [] [] = refl
path_eq-sym [] (n ∷ q) = refl
path_eq-sym (m ∷ p) [] = refl
path_eq-sym (m ∷ p) (n ∷ q) = ground (arith, text_eq_sym m n, path_eq-sym p q)

find-write :
    (p q : FilePath) (content : List ℕ) (files : Files)
    → find (is_at q) (write_bytes p content files)
      ≡ (if path_eq p q then some (p, content) else find (is_at q) files)
unfolding write_bytes
find-write p q content files = ground (arith, path_eq-sym p q, find-unlink p q files)

read-write :
    (p q : FilePath) (content : List ℕ) (files : Files)
    → read_bytes q (write_bytes p content files)
      ≡ (if path_eq p q then found content else read_bytes q files)
unfolding read_bytes content_of
read-write p q content files =
    ap content_of (find-write p q content files)
    ∙ content_of-if (path_eq p q) (some (p, content)) (find (is_at q) files)

same_path_refl : (o : Option FilePath) → same_path o o ≡ true
unfolding same_path
same_path_refl none = refl
same_path_refl (some p) = path_eq_refl p

done_inj : {S : Type 0} {s t : S} → done s ≡ done t → s ≡ t
done_inj p = cc p

raised_inj : {S : Type 0} {s t : S} → raised s ≡ raised t → s ≡ t
raised_inj p = cc p

read-write_until :
    (end : WriteEnd) (p q : FilePath) (content : List ℕ) (s t : Files)
    → write_until end p content s ≡ done t
    → read_bytes q t ≡ (if path_eq p q then found content else read_bytes q s)
unfolding write_until
read-write_until whole p q content s t h = rw⁻¹ (done_inj h) (read-write p q content s)
read-write_until not_opened p q content s t h = absurd (cc h)
read-write_until (cut n) p q content s t h = absurd (cc h)

-- However a write ends, it is a write to its own path.
read-write_elsewhere :
    (end : WriteEnd) (p q : FilePath) (content : List ℕ) (s : Files)
    → path_eq p q ≡ false
    → read_bytes q (left_by (write_until end p content s)) ≡ read_bytes q s
unfolding write_until
read-write_elsewhere whole p q content s h = read-write p q content s ∙ rw h refl
read-write_elsewhere not_opened p q content s h = refl
read-write_elsewhere (cut n) p q content s h = read-write p q _ s ∙ rw h refl

read-unlink_elsewhere :
    (b : Bool) (p q : FilePath) (s : Files)
    → path_eq p q ≡ false
    → read_bytes q (left_by (if b then raised s else done (unlink p s))) ≡ read_bytes q s
read-unlink_elsewhere true p q s h = refl
read-unlink_elsewhere false p q s h = read-unlink p q s ∙ rw h refl

module _ (faults : Faults) where
  read-write_at :
      (o p : Option FilePath) (content : List ℕ) (s t : Files)
      → write_at faults o content s ≡ done t
      → read_at p t ≡ (if same_path o p then found content else read_at p s)
  unfolding write_at read_at same_path
  read-write_at none p content s t h = absurd (cc h)
  read-write_at (some o) none content s t h = refl
  read-write_at (some o) (some p) content s t h = read-write_until _ o p content s t h

  read-unlink_at :
      (o p : Option FilePath) (s t : Files)
      → unlink_at faults o s ≡ done t
      → read_at p t ≡ (if same_path o p then missing else read_at p s)
  unfolding unlink_at read_at same_path
  read-unlink_at none p s t h = absurd (cc h)
  read-unlink_at (some o) none s t h = refl
  read-unlink_at (some o) (some p) s t h = deleted (faults.unlink o s) h
    where
      deleted :
          (b : Bool)
          → (if b then raised s else done (unlink o s)) ≡ done t
          → read_bytes p t ≡ (if path_eq o p then missing else read_bytes p s)
      deleted true e = absurd (cc e)
      deleted false e = rw⁻¹ (done_inj e) (read-unlink o p s)

  write_at-elsewhere :
      (o p : Option FilePath) (content : List ℕ) (s : Files)
      → same_path o p ≡ false
      → read_at p (left_by (write_at faults o content s)) ≡ read_at p s
  unfolding write_at read_at same_path
  write_at-elsewhere none p content s h = refl
  write_at-elsewhere (some o) none content s h = refl
  write_at-elsewhere (some o) (some p) content s h = read-write_elsewhere _ o p content s h

  unlink_at-elsewhere :
      (o p : Option FilePath) (s : Files)
      → same_path o p ≡ false
      → read_at p (left_by (unlink_at faults o s)) ≡ read_at p s
  unfolding unlink_at read_at same_path
  unlink_at-elsewhere none p s h = refl
  unlink_at-elsewhere (some o) none s h = refl
  unlink_at-elsewhere (some o) (some p) s h = read-unlink_elsewhere _ o p s h

  -- LocalObjectStorage keeps the laws, below any root and with any faults.
  pub local_storage-StorageLaws : (root : FilePath) → StorageLaws (local_storage faults root)
  unfolding local_storage local_put local_get local_delete
  local_storage-StorageLaws root = record {
    same_object-refl = λ key. same_path_refl (object_path root key);
    get-put = λ key other content content_type s t h.
        read-write_at (object_path root key) (object_path root other) content s t h;
    get-delete =
        λ key other s t h. read-unlink_at (object_path root key) (object_path root other) s t h;
    get-put_raised = λ key other content content_type s t h apart.
        subst
          (λ w. read_at (object_path root other) (left_by w) ≡ read_at (object_path root other) s) h
          (write_at-elsewhere (object_path root key) (object_path root other) content s apart);
    get-delete_raised = λ key other s t h apart.
        subst
          (λ w. read_at (object_path root other) (left_by w) ≡ read_at (object_path root other) s) h
          (unlink_at-elsewhere (object_path root key) (object_path root other) s apart);
  }

-- `_path` gives only paths that have the root among their parents.
object_path-checked :
    (root p : FilePath) (key : Text)
    → object_path root key ≡ some p
    → any (path_eq root) (parents p) ≡ true
unfolding object_path
object_path-checked root p key h = checked (resolve_key root key) h
  where
    checked :
        (c : FilePath)
        → (if any (path_eq root) (parents c) then some c else none) ≡ some p
        → any (path_eq root) (parents p) ≡ true
    checked c e = elim (Bool-cases (any (path_eq root) (parents c))) [
      | inl below ↦
          subst (λ x. any (path_eq root) (parents x) ≡ true) (ground (arith, e, below)) below
      | inr outside ↦ absurd (ground (arith, e, outside))
    ]

apart :
    (root p q : FilePath)
    → any (path_eq root) (parents p) ≡ true
    → any (path_eq root) (parents q) ≡ false
    → path_eq p q ≡ false
apart root p q below outside = elim (Bool-cases (path_eq p q)) [
  | inl same ↦ absurd (cc (below, outside, eq_of_path_eq p q same))
  | inr differs ↦ differs
]

-- The same for the two methods after `_path`.
changed_at :
    (faults : Faults) (root q : FilePath) (o : Option FilePath) (content : List ℕ) (s : Files)
    → any (path_eq root) (parents q) ≡ false
    → ((p : FilePath) → o ≡ some p → any (path_eq root) (parents p) ≡ true)
    → (read_bytes q (left_by (write_at faults o content s)) ≡ read_bytes q s)
      × (read_bytes q (left_by (unlink_at faults o s)) ≡ read_bytes q s)
unfolding write_at unlink_at
changed_at faults root q none content s outside below = (refl, refl)
changed_at faults root q (some p) content s outside below =
    let differs = apart root p q (below p refl) outside in
    (read-write_elsewhere _ p q content s differs, read-unlink_elsewhere _ p q s differs)

-- Writing or deleting an object, whatever its key and whether the call returns or raises, leaves
-- every file as it is that does not lie below the root.
pub local_storage_is_confined :
    (faults : Faults) (root q : FilePath) (key content_type : Text) (content : List ℕ) (s : Files)
    → any (path_eq root) (parents q) ≡ false
    → (read_bytes q (left_by (local_put faults root key content content_type s)) ≡ read_bytes q s)
      × (read_bytes q (left_by (local_delete faults root key s)) ≡ read_bytes q s)
unfolding local_put local_delete
local_storage_is_confined faults root q key content_type content s outside =
    changed_at faults root q (object_path root key) content s outside
      (λ p. object_path-checked root p key)
