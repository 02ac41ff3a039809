-- ===== src/Services/ObjectStorage.antt =====
-- app/services/object_storage.py: the interface ObjectStorage and LocalObjectStorage, on a file
-- system without symbolic links whose writes and deletions may raise an OSError: which of them do is
-- a parameter. S3ObjectStorage only passes its arguments to boto3.
pub mod Local
use secure_messenger.Prelude.{
  if◌then◌else◌, drop, find, any, delete_where, Text, codes, text_eq, starts_with, split_on, ℕ, ◌/◌,
  ◌≡◌, Bool, true, false, ◌&&◌, ◌||◌, Option, none, some, List, [], ◌∷◌, take,
}

-- What `get` comes to: the content, FileNotFoundError, or another exception.
pub data Fetched : Type 0 where
  found : List ℕ → Fetched
  missing : Fetched
  failed : Fetched

-- What `put` and `delete` come to: they return or raise an exception, and leave a storage behind.
pub data Written (S : Type 0) : Type 0 where
  done : S → Written S
  raised : S → Written S

abbrev pub left_by : {S : Type 0} → Written S → S
left_by (done s) = s
left_by (raised s) = s

-- The calls that the clients of a storage make.
pub record ObjectStorage (S : Type 0) : Type 0 where
  pub backend_name : Text
  pub put : Text → List ℕ → Text → S → Written S
  pub get : Text → S → Fetched
  pub delete : Text → S → Written S
  -- Whether two keys name one object.
  pub same_object : Text → Text → Bool

pub record StorageLaws {S : Type 0} (storage : ObjectStorage S) : Type 0 where
  pub same_object-refl : (key : Text) → storage.same_object key key ≡ true
  pub get-put :
      (key other : Text) (content : List ℕ) (content_type : Text) (s t : S)
      → storage.put key content content_type s ≡ done t
      → storage.get other t
        ≡ (if storage.same_object key other then found content else storage.get other s)
  pub get-delete :
      (key other : Text) (s t : S)
      → storage.delete key s ≡ done t
      → storage.get other t
        ≡ (if storage.same_object key other then missing else storage.get other s)
  -- A call that raises may have been carried out in part, but on its own object only.
  pub get-put_raised :
      (key other : Text) (content : List ℕ) (content_type : Text) (s t : S)
      → storage.put key content content_type s ≡ raised t
      → storage.same_object key other ≡ false
      → storage.get other t ≡ storage.get other s
  pub get-delete_raised :
      (key other : Text) (s t : S)
      → storage.delete key s ≡ raised t
      → storage.same_object key other ≡ false
      → storage.get other t ≡ storage.get other s

-- A path from the root of the file system: its names, the last one first.
abbrev pub FilePath : Type 0
FilePath = List Text

-- The code of `/`.
abbrev slash : ℕ
slash = 47

-- The empty name and `.` stay, `..` goes up, and stays at the root.
unfoldable pub enter : FilePath → Text → FilePath
enter up name =
    if text_eq name [] || text_eq name (codes ".")
    then up
    else if text_eq name (codes "..")
    then drop 1 up
    else name ∷ up

unfoldable pub enter_all : FilePath → List Text → FilePath
unfolding enter
enter_all up [] = up
enter_all up (name ∷ names) = enter_all (enter up name) names

-- (root / object_key).resolve(): an absolute key replaces the root.
unfoldable pub resolve_key : FilePath → Text → FilePath
unfolding enter_all split_on
resolve_key root key =
    enter_all (if starts_with key (codes "/") then [] else root) (split_on slash key)

unfoldable pub path_eq : FilePath → FilePath → Bool
path_eq [] [] = true
path_eq [] (n ∷ q) = false
path_eq (m ∷ p) [] = false
path_eq (m ∷ p) (n ∷ q) = text_eq m n && path_eq p q

-- `candidate.parents`
unfoldable pub parents : FilePath → List FilePath
parents [] = []
parents (name ∷ up) = up ∷ parents up

-- `_path`: nothing for a ValueError.
unfoldable pub object_path : FilePath → Text → Option FilePath
unfolding resolve_key path_eq parents
object_path root key =
    let candidate = resolve_key root key in
    if any (path_eq root) (parents candidate) then some candidate else none

-- The files with their contents.
abbrev pub Files : Type 0
Files = List (FilePath × List ℕ)

abbrev pub is_at : FilePath → FilePath × List ℕ → Bool
is_at path file = path_eq path file.0

-- `path.write_bytes(content)`, after the directories above were made.
unfoldable pub write_bytes : FilePath → List ℕ → Files → Files
write_bytes path content files = (path, content) ∷ delete_where (is_at path) files

-- `read_bytes`, by the file that is found.
unfoldable pub content_of : Option (FilePath × List ℕ) → Fetched
content_of none = missing
content_of (some file) = found file.1

unfoldable pub read_bytes : FilePath → Files → Fetched
unfolding content_of
read_bytes path files = content_of (find (is_at path) files)

-- `path.unlink()`; a file that is not there is no error.
unfoldable pub unlink : FilePath → Files → Files
unlink path files = delete_where (is_at path) files

-- How a write ends: whole, with an OSError before the file is opened, or with one after so many
-- bytes.
pub data WriteEnd : Type 0 where
  whole : WriteEnd
  not_opened : WriteEnd
  cut : ℕ → WriteEnd

-- Which calls of the file system raise an OSError.
pub record Faults : Type 0 where
  pub write : FilePath → List ℕ → Files → WriteEnd
  pub unlink : FilePath → Files → Bool

-- `path.write_bytes(content)` with its end.
unfoldable pub write_until : WriteEnd → FilePath → List ℕ → Files → Written Files
unfolding write_bytes
write_until whole path content files = done (write_bytes path content files)
write_until not_opened path content files = raised files
write_until (cut n) path content files = raised (write_bytes path (take n content) files)

-- The three methods after `_path`.
unfoldable pub write_at : Faults → Option FilePath → List ℕ → Files → Written Files
unfolding write_until
write_at faults none content files = raised files
write_at faults (some path) content files =
    write_until (faults.write path content files) path content files

unfoldable pub read_at : Option FilePath → Files → Fetched
unfolding read_bytes
read_at none files = failed
read_at (some path) files = read_bytes path files

unfoldable pub unlink_at : Faults → Option FilePath → Files → Written Files
unfolding unlink
unlink_at faults none files = raised files
unlink_at faults (some path) files =
    if faults.unlink path files then raised files else done (unlink path files)

-- Whether two keys have one path.
unfoldable pub same_path : Option FilePath → Option FilePath → Bool
same_path none none = true
same_path none (some q) = false
same_path (some p) none = false
same_path (some p) (some q) = path_eq p q

module _ (faults : Faults) (root : FilePath) where
  unfoldable pub local_put : Text → List ℕ → Text → Files → Written Files
  unfolding object_path write_at
  local_put key content content_type files = write_at faults (object_path root key) content files

  unfoldable pub local_get : Text → Files → Fetched
  unfolding object_path read_at
  local_get key files = read_at (object_path root key) files

  unfoldable pub local_delete : Text → Files → Written Files
  unfolding object_path unlink_at
  local_delete key files = unlink_at faults (object_path root key) files

  -- LocalObjectStorage as a storage.
  unfoldable pub local_storage : ObjectStorage Files
  unfolding local_put local_get local_delete same_path
  local_storage = record {
    backend_name = codes "local";
    put = λ key content content_type files. local_put key content content_type files;
    get = λ key files. local_get key files;
    delete = λ key files. local_delete key files;
    same_object = λ key other. same_path (object_path root key) (object_path root other);
  }
