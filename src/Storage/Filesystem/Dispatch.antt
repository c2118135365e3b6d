-- ===== src/Storage/Filesystem/Dispatch.antt =====
-- The dispatch of the operations in src/Storage/Filesystem.cpp.
use crack_os.Base.{
  ℕ, zero, suc, ◌<◌, ◌≡◌, ◌≢◌, refl, arith, ap, ap₂, sym, ◌∙◌, false, Option, none, some, List, [],
  ◌∷◌, ◌++◌,
}
use crack_os.Base.{length, ok, fault, ◌>>=◌}
use crack_os.Storage.Filesystem.{
  Filesystem, error, minus_one, skip, get_filesystem, rename, read, write, get_size, exists,
  create_file, delete_file, create_directory, delete_directory, get_file_list, get_type,
  get_file_time, set_file_time, get_file_permissions, set_file_permissions, get_file_owner,
  set_file_owner,
}
use crack_os.Storage.Filesystem.Lookup.{Mounted, IsMounted, Chosen, Refused, get_filesystem-Chosen}

skip_lem : (prefix rest : List ℕ) → skip (length prefix) (prefix ++ rest) ≡ ok rest
unfolding skip
skip_lem [] rest = refl
skip_lem (c ∷ cs) rest = skip_lem cs rest

skip_fault : (n : ℕ) (path : List ℕ) → length path < n → skip n path ≡ fault
unfolding skip
skip_fault zero path h = absurd (omega arith)
skip_fault (suc n) [] h = refl
skip_fault (suc n) (c ∷ cs) h = skip_fault n cs (omega arith)

module _ {S : Type 0} (nodes : List (Filesystem S)) (path : List ℕ) where
  -- Every operation on the path is that of `f` on `rest`.
  pub record Forwards (f : Filesystem S) (rest : List ℕ) : Type 0 where
    pub read_to :
        (offset : ℕ) (size : ℕ) (buffer : ℕ) (s : S)
        → read nodes path offset size buffer s ≡ f.impl_read rest offset size buffer s
    pub write_to :
        (offset : ℕ) (size : ℕ) (buffer : ℕ) (s : S)
        → write nodes path offset size buffer s ≡ f.impl_write rest offset size buffer s
    pub get_size_to : (s : S) → get_size nodes path s ≡ f.impl_get_size rest s
    pub exists_to : (s : S) → exists nodes path s ≡ f.impl_exists rest s
    pub create_file_to : (s : S) → create_file nodes path s ≡ f.impl_create_file rest s
    pub delete_file_to : (s : S) → delete_file nodes path s ≡ f.impl_delete_file rest s
    pub create_directory_to :
        (s : S) → create_directory nodes path s ≡ f.impl_create_directory rest s
    pub delete_directory_to :
        (s : S) → delete_directory nodes path s ≡ f.impl_delete_directory rest s
    pub get_file_list_to :
        (buffer : ℕ) (buffer_size : ℕ) (s : S)
        → get_file_list nodes path buffer buffer_size s
          ≡ f.impl_get_file_list rest buffer buffer_size s
    pub get_type_to : (s : S) → get_type nodes path s ≡ f.impl_get_type rest s
    pub get_file_time_to : (s : S) → get_file_time nodes path s ≡ f.impl_get_file_time rest s
    pub set_file_time_to :
        (time : ℕ) (s : S) → set_file_time nodes path time s ≡ f.impl_set_file_time rest time s
    pub get_file_permissions_to :
        (s : S) → get_file_permissions nodes path s ≡ f.impl_get_file_permissions rest s
    pub set_file_permissions_to :
        (permissions : ℕ) (s : S)
        → set_file_permissions nodes path permissions s
          ≡ f.impl_set_file_permissions rest permissions s
    pub get_file_owner_to : (s : S) → get_file_owner nodes path s ≡ f.impl_get_file_owner rest s
    pub set_file_owner_to :
        (owner : ℕ) (s : S) → set_file_owner nodes path owner s ≡ f.impl_set_file_owner rest owner s

  -- Every operation on the path fails and changes nothing.
  pub record Refuses : Type 0 where
    pub read_no :
        (offset : ℕ) (size : ℕ) (buffer : ℕ) (s : S)
        → read nodes path offset size buffer s ≡ ok (minus_one, s)
    pub write_no :
        (offset : ℕ) (size : ℕ) (buffer : ℕ) (s : S)
        → write nodes path offset size buffer s ≡ ok (minus_one, s)
    pub get_size_no : (s : S) → get_size nodes path s ≡ ok (minus_one, s)
    pub exists_no : (s : S) → exists nodes path s ≡ ok (false, s)
    pub create_file_no : (s : S) → create_file nodes path s ≡ ok (minus_one, s)
    pub delete_file_no : (s : S) → delete_file nodes path s ≡ ok (minus_one, s)
    pub create_directory_no : (s : S) → create_directory nodes path s ≡ ok (minus_one, s)
    pub delete_directory_no : (s : S) → delete_directory nodes path s ≡ ok (minus_one, s)
    pub get_file_list_no :
        (buffer : ℕ) (buffer_size : ℕ) (s : S)
        → get_file_list nodes path buffer buffer_size s ≡ ok (minus_one, s)
    pub get_type_no : (s : S) → get_type nodes path s ≡ ok (error, s)
    pub get_file_time_no : (s : S) → get_file_time nodes path s ≡ ok (minus_one, s)
    pub set_file_time_no : (time : ℕ) (s : S) → set_file_time nodes path time s ≡ ok (minus_one, s)
    pub get_file_permissions_no : (s : S) → get_file_permissions nodes path s ≡ ok (minus_one, s)
    pub set_file_permissions_no :
        (permissions : ℕ) (s : S)
        → set_file_permissions nodes path permissions s ≡ ok (minus_one, s)
    pub get_file_owner_no : (s : S) → get_file_owner nodes path s ≡ ok (minus_one, s)
    pub set_file_owner_no :
        (owner : ℕ) (s : S) → set_file_owner nodes path owner s ≡ ok (minus_one, s)

  forwards :
      (f : Filesystem S) (rest : List ℕ)
      → get_filesystem nodes path ≡ some f
      → skip f.prefix_length path ≡ ok rest
      → Forwards f rest
  unfolding read write get_size exists create_file delete_file create_directory delete_directory
      get_file_list get_type get_file_time set_file_time get_file_permissions set_file_permissions
      get_file_owner set_file_owner
  forwards f rest e k = record {
    read_to = λ offset size buffer s. ground arith;
    write_to = λ offset size buffer s. ground arith;
    get_size_to = λ s. ground arith;
    exists_to = λ s. ground arith;
    create_file_to = λ s. ground arith;
    delete_file_to = λ s. ground arith;
    create_directory_to = λ s. ground arith;
    delete_directory_to = λ s. ground arith;
    get_file_list_to = λ buffer buffer_size s. ground arith;
    get_type_to = λ s. ground arith;
    get_file_time_to = λ s. ground arith;
    set_file_time_to = λ time s. ground arith;
    get_file_permissions_to = λ s. ground arith;
    set_file_permissions_to = λ permissions s. ground arith;
    get_file_owner_to = λ s. ground arith;
    set_file_owner_to = λ owner s. ground arith;
  }

  refuses : get_filesystem nodes path ≡ none → Refuses
  unfolding read write get_size exists create_file delete_file create_directory delete_directory
      get_file_list get_type get_file_time set_file_time get_file_permissions set_file_permissions
      get_file_owner set_file_owner
  refuses e = record {
    read_no = λ offset size buffer s. ground arith;
    write_no = λ offset size buffer s. ground arith;
    get_size_no = λ s. ground arith;
    exists_no = λ s. ground arith;
    create_file_no = λ s. ground arith;
    delete_file_no = λ s. ground arith;
    create_directory_no = λ s. ground arith;
    delete_directory_no = λ s. ground arith;
    get_file_list_no = λ buffer buffer_size s. ground arith;
    get_type_no = λ s. ground arith;
    get_file_time_no = λ s. ground arith;
    set_file_time_no = λ time s. ground arith;
    get_file_permissions_no = λ s. ground arith;
    set_file_permissions_no = λ permissions s. ground arith;
    get_file_owner_no = λ s. ground arith;
    set_file_owner_no = λ owner s. ground arith;
  }

  abbrev pub Served : Option (Filesystem S) → Type 0
  Served none = Refused path nodes × Refuses
  Served (some f) =
      Chosen nodes path (some f)
      × (rest : List ℕ) × (rest ≢ [])
      × (path ≡ f.handling_prefix ++ rest)
      × Forwards f rest

  skip_prefix :
      (f : Filesystem S) (rest : List ℕ)
      → IsMounted f
      → path ≡ f.handling_prefix ++ rest
      → skip f.prefix_length path ≡ ok rest
  skip_prefix f rest m e = ap₂ skip m e ∙ skip_lem f.handling_prefix rest

  served :
      (o : Option (Filesystem S)) → get_filesystem nodes path ≡ o → Chosen nodes path o → Served o
  served none e c = (c, refuses e)
  served (some f) e c =
      let (rest, n, is_path) = c.5 in
      (c, rest, n, is_path, forwards f rest e (skip_prefix f rest c.4 is_path))

  -- The operations with one path are those of the first file system whose prefix begins the path,
  -- on the path without the prefix, which is not empty; when there is no such file system, each of
  -- them returns its error value and changes nothing.
  pub get_filesystem-Served : Mounted nodes → Served (get_filesystem nodes path)
  get_filesystem-Served m =
      served (get_filesystem nodes path) refl (get_filesystem-Chosen nodes path m)

module _ {S : Type 0} (nodes : List (Filesystem S)) (f : Filesystem S) (rest : List ℕ) (s : S)
    (m : IsMounted f) (e : get_filesystem nodes (f.handling_prefix ++ rest) ≡ some f) where
  rename_step :
      (new_path : List ℕ)
      → rename nodes (f.handling_prefix ++ rest) new_path s
        ≡ (skip f.prefix_length new_path >>= λ new_p. f.impl_rename rest new_p s)
  unfolding rename
  rename_step new_path =
      let k = skip_prefix nodes (f.handling_prefix ++ rest) f rest m refl in ground arith

  -- rename chooses the file system by the old path alone, and takes as many characters from the
  -- front of the new path as the old path's prefix has, whatever they are, also when they name
  -- another file system; when the new path has fewer, it follows a pointer behind its end.
  pub rename_lem :
      ((start new_rest : List ℕ)
        → length start ≡ length f.handling_prefix
        → rename nodes (f.handling_prefix ++ rest) (start ++ new_rest) s
          ≡ f.impl_rename rest new_rest s)
      × ((new_path : List ℕ)
          → length new_path < length f.handling_prefix
          → rename nodes (f.handling_prefix ++ rest) new_path s ≡ fault)
  rename_lem = (
    λ start new_rest same.
        rename_step (start ++ new_rest)
        ∙ ap (λ r. r >>= λ new_p. f.impl_rename rest new_p s)
            (ap (λ (n : ℕ). skip n (start ++ new_rest)) (m ∙ sym same) ∙ skip_lem start new_rest),
    λ new_path short.
        rename_step new_path
        ∙ ap (λ r. r >>= λ new_p. f.impl_rename rest new_p s)
            (skip_fault f.prefix_length new_path (omega (arith, m))),
  )
