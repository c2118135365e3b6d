-- ===== src/Storage/Filesystem.antt =====
-- Filesystem of header/Storage/Filesystem.hpp and src/Storage/Filesystem.cpp: the list of mounted
-- file systems, the choice of one by the prefix of a path, and the dispatch of each operation to it.
-- A string is its characters without the final '\0'. `S` is all the state that the implementations
-- of the operations change: devices, buffers, caches.
pub mod Lookup
pub mod Dispatch
mod Tests
use crack_os.Base.{ℕ, zero, suc, ◌-◌, ◌^◌, Bool, true, false, Option, none, some, List, [], ◌∷◌}
use crack_os.Base.{length, ltb, ◌==◌, if◌then◌else◌, Run, ok, fault, ◌>>=◌}

pub data FileType : Type 0 where
  file directory other no_file error : FileType

-- The pure virtual functions of an object, and its private fields. An int64_t is its bit pattern.
pub record Filesystem (S : Type 0) : Type 0 where
  pub handling_prefix : List ℕ
  pub prefix_length : ℕ
  pub impl_read : List ℕ → ℕ → ℕ → ℕ → S → Run (ℕ × S)
  pub impl_write : List ℕ → ℕ → ℕ → ℕ → S → Run (ℕ × S)
  pub impl_get_size : List ℕ → S → Run (ℕ × S)
  pub impl_exists : List ℕ → S → Run (Bool × S)
  pub impl_create_file : List ℕ → S → Run (ℕ × S)
  pub impl_delete_file : List ℕ → S → Run (ℕ × S)
  pub impl_create_directory : List ℕ → S → Run (ℕ × S)
  pub impl_delete_directory : List ℕ → S → Run (ℕ × S)
  pub impl_get_file_list : List ℕ → ℕ → ℕ → S → Run (ℕ × S)
  pub impl_get_type : List ℕ → S → Run (FileType × S)
  pub impl_rename : List ℕ → List ℕ → S → Run (ℕ × S)
  pub impl_get_file_time : List ℕ → S → Run (ℕ × S)
  pub impl_set_file_time : List ℕ → ℕ → S → Run (ℕ × S)
  pub impl_get_file_permissions : List ℕ → S → Run (ℕ × S)
  pub impl_set_file_permissions : List ℕ → ℕ → S → Run (ℕ × S)
  pub impl_get_file_owner : List ℕ → S → Run (ℕ × S)
  pub impl_set_file_owner : List ℕ → ℕ → S → Run (ℕ × S)

-- The loop of handles, which reads both strings from the same position on.
pub handles_loop : List ℕ → List ℕ → Bool
handles_loop [] prefix = false
handles_loop (c ∷ cs) [] = true
handles_loop (c ∷ cs) (d ∷ ds) = let more = handles_loop cs ds in if c == d then more else false

-- `n + filepath`; a pointer behind the final '\0' is not followed.
pub skip : ℕ → List ℕ → Run (List ℕ)
skip zero path = ok path
skip (suc n) [] = fault
skip (suc n) (c ∷ cs) = skip n cs

abbrev pub minus_one : ℕ
minus_one = 2 ^ 64 - 1

module _ {S : Type 0} where
  -- Filesystem::handles
  pub handles : Filesystem S → List ℕ → Bool
  handles f filepath =
      if length filepath == 0
      then false
      else if ltb (length filepath) f.prefix_length
      then false
      else handles_loop filepath f.handling_prefix

  -- Filesystem::setHandlingPrefix
  pub set_handling_prefix : Filesystem S → List ℕ → Filesystem S
  set_handling_prefix f filepath = record f {
    handling_prefix = filepath;
    prefix_length = length filepath;
  }

  -- Filesystem::addPartition, for what createFilesystem returns: the list of the nodes from
  -- firstFilesystemNode on. A new node goes behind the first one.
  pub add_partition : List (Filesystem S) → Option (Filesystem S) → List ℕ → List (Filesystem S)
  add_partition nodes none prefix = nodes
  add_partition [] (some f) prefix = set_handling_prefix f prefix ∷ []
  add_partition (first ∷ nodes) (some f) prefix = first ∷ set_handling_prefix f prefix ∷ nodes

  -- The loop of getFilesystem.
  pub find_node : List (Filesystem S) → List ℕ → Option (Filesystem S)
  find_node [] filepath = none
  find_node (f ∷ nodes) filepath =
      let more = find_node nodes filepath in if handles f filepath then some f else more

  -- getFilesystem
  pub get_filesystem : List (Filesystem S) → List ℕ → Option (Filesystem S)
  get_filesystem nodes filepath = if length filepath == 0 then none else find_node nodes filepath

  -- Filesystem::read
  pub read : List (Filesystem S) → List ℕ → ℕ → ℕ → ℕ → S → Run (ℕ × S)
  read nodes filepath offset size buffer s = elim (get_filesystem nodes filepath) [
    | none ↦ ok (minus_one, s)
    | some f ↦ do path ← skip f.prefix_length filepath; f.impl_read path offset size buffer s
  ]

  -- Filesystem::write
  pub write : List (Filesystem S) → List ℕ → ℕ → ℕ → ℕ → S → Run (ℕ × S)
  write nodes filepath offset size buffer s = elim (get_filesystem nodes filepath) [
    | none ↦ ok (minus_one, s)
    | some f ↦ do path ← skip f.prefix_length filepath; f.impl_write path offset size buffer s
  ]

  -- Filesystem::getSize
  pub get_size : List (Filesystem S) → List ℕ → S → Run (ℕ × S)
  get_size nodes filepath s = elim (get_filesystem nodes filepath) [
    | none ↦ ok (minus_one, s)
    | some f ↦ do path ← skip f.prefix_length filepath; f.impl_get_size path s
  ]

  -- Filesystem::exists
  pub exists : List (Filesystem S) → List ℕ → S → Run (Bool × S)
  exists nodes filepath s = elim (get_filesystem nodes filepath) [
    | none ↦ ok (false, s)
    | some f ↦ do path ← skip f.prefix_length filepath; f.impl_exists path s
  ]

  -- Filesystem::createFile
  pub create_file : List (Filesystem S) → List ℕ → S → Run (ℕ × S)
  create_file nodes filepath s = elim (get_filesystem nodes filepath) [
    | none ↦ ok (minus_one, s)
    | some f ↦ do path ← skip f.prefix_length filepath; f.impl_create_file path s
  ]

  -- Filesystem::deleteFile
  pub delete_file : List (Filesystem S) → List ℕ → S → Run (ℕ × S)
  delete_file nodes filepath s = elim (get_filesystem nodes filepath) [
    | none ↦ ok (minus_one, s)
    | some f ↦ do path ← skip f.prefix_length filepath; f.impl_delete_file path s
  ]

  -- Filesystem::createDirectory
  pub create_directory : List (Filesystem S) → List ℕ → S → Run (ℕ × S)
  create_directory nodes filepath s = elim (get_filesystem nodes filepath) [
    | none ↦ ok (minus_one, s)
    | some f ↦ do path ← skip f.prefix_length filepath; f.impl_create_directory path s
  ]

  -- Filesystem::deleteDirectory
  pub delete_directory : List (Filesystem S) → List ℕ → S → Run (ℕ × S)
  delete_directory nodes filepath s = elim (get_filesystem nodes filepath) [
    | none ↦ ok (minus_one, s)
    | some f ↦ do path ← skip f.prefix_length filepath; f.impl_delete_directory path s
  ]

  -- Filesystem::getFileList
  pub get_file_list : List (Filesystem S) → List ℕ → ℕ → ℕ → S → Run (ℕ × S)
  get_file_list nodes filepath buffer buffer_size s = elim (get_filesystem nodes filepath) [
    | none ↦ ok (minus_one, s)
    | some f ↦ do
      path ← skip f.prefix_length filepath
      f.impl_get_file_list path buffer buffer_size s
  ]

  -- Filesystem::getType
  pub get_type : List (Filesystem S) → List ℕ → S → Run (FileType × S)
  get_type nodes filepath s = elim (get_filesystem nodes filepath) [
    | none ↦ ok (error, s)
    | some f ↦ do path ← skip f.prefix_length filepath; f.impl_get_type path s
  ]

  -- Filesystem::rename, which cuts both paths at the length of the old path's prefix.
  pub rename : List (Filesystem S) → List ℕ → List ℕ → S → Run (ℕ × S)
  rename nodes old_path new_path s = elim (get_filesystem nodes old_path) [
    | none ↦ ok (minus_one, s)
    | some f ↦ do
      old_p ← skip f.prefix_length old_path
      new_p ← skip f.prefix_length new_path
      f.impl_rename old_p new_p s
  ]

  -- Filesystem::getFileTime
  pub get_file_time : List (Filesystem S) → List ℕ → S → Run (ℕ × S)
  get_file_time nodes filepath s = elim (get_filesystem nodes filepath) [
    | none ↦ ok (minus_one, s)
    | some f ↦ do path ← skip f.prefix_length filepath; f.impl_get_file_time path s
  ]

  -- Filesystem::setFileTime
  pub set_file_time : List (Filesystem S) → List ℕ → ℕ → S → Run (ℕ × S)
  set_file_time nodes filepath time s = elim (get_filesystem nodes filepath) [
    | none ↦ ok (minus_one, s)
    | some f ↦ do path ← skip f.prefix_length filepath; f.impl_set_file_time path time s
  ]

  -- Filesystem::getFilePermissions
  pub get_file_permissions : List (Filesystem S) → List ℕ → S → Run (ℕ × S)
  get_file_permissions nodes filepath s = elim (get_filesystem nodes filepath) [
    | none ↦ ok (minus_one, s)
    | some f ↦ do path ← skip f.prefix_length filepath; f.impl_get_file_permissions path s
  ]

  -- Filesystem::setFilePermissions
  pub set_file_permissions : List (Filesystem S) → List ℕ → ℕ → S → Run (ℕ × S)
  set_file_permissions nodes filepath permissions s = elim (get_filesystem nodes filepath) [
    | none ↦ ok (minus_one, s)
    | some f ↦ do
      path ← skip f.prefix_length filepath
      f.impl_set_file_permissions path permissions s
  ]

  -- Filesystem::getFileOwner
  pub get_file_owner : List (Filesystem S) → List ℕ → S → Run (ℕ × S)
  get_file_owner nodes filepath s = elim (get_filesystem nodes filepath) [
    | none ↦ ok (minus_one, s)
    | some f ↦ do path ← skip f.prefix_length filepath; f.impl_get_file_owner path s
  ]

  -- Filesystem::setFileOwner
  pub set_file_owner : List (Filesystem S) → List ℕ → ℕ → S → Run (ℕ × S)
  set_file_owner nodes filepath owner s = elim (get_filesystem nodes filepath) [
    | none ↦ ok (minus_one, s)
    | some f ↦ do path ← skip f.prefix_length filepath; f.impl_set_file_owner path owner s
  ]
