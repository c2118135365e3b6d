-- ===== src/Storage/Filesystem/Lookup.antt =====
-- The choice of a file system in src/Storage/Filesystem.cpp: handles, getFilesystem, addPartition.
use crack_os.Base.{
  ℕ, ◌<◌, ◌≡◌, ◌≢◌, ◌↔◌, refl, arith, ap, ap₂, sym, subst, ◌∙◌, true, false, Option, none, some,
  List, [], ◌∷◌, ◌++◌,
}
use crack_os.Base.{length, ◌==◌, Bool-cases, inl, inr}
use crack_os.Storage.Filesystem.{
  Filesystem, handles_loop, handles, set_handling_prefix, add_partition, find_node, get_filesystem,
}

-- The path is the prefix and at least one character more.
abbrev pub Extends : List ℕ → List ℕ → Type 0
Extends prefix path = (rest : List ℕ) × (rest ≢ []) × (path ≡ prefix ++ rest)

-- The same by comparing the characters from the front on.
abbrev Within : List ℕ → List ℕ → Type 0
Within [] [] = ⊥
Within [] (c ∷ cs) = Unit
Within (d ∷ ds) [] = ⊥
Within (d ∷ ds) (c ∷ cs) = (c ≡ d) × Within ds cs

cons_ne : (c : ℕ) (cs : List ℕ) → (c ∷ cs) ≢ []
cons_ne c cs e = ground arith

Within-Extends : (prefix path : List ℕ) → Within prefix path → Extends prefix path
Within-Extends [] [] w = absurd w
Within-Extends [] (c ∷ cs) w = (c ∷ cs, cons_ne c cs, refl)
Within-Extends (d ∷ ds) [] w = absurd w
Within-Extends (d ∷ ds) (c ∷ cs) w =
    let (rest, n, e) = Within-Extends ds cs w.1 in (rest, n, ap₂ (λ x y. x ∷ y) w.0 e)

Within-rest : (prefix rest : List ℕ) → rest ≢ [] → Within prefix (prefix ++ rest)
Within-rest [] [] n = n refl
Within-rest [] (c ∷ cs) n = tt
Within-rest (d ∷ ds) rest n = (refl, Within-rest ds rest n)

Extends-Within : (prefix path : List ℕ) → Extends prefix path → Within prefix path
Extends-Within prefix path (rest, n, e) = rw e (Within-rest prefix rest n)

Within-length : (prefix path : List ℕ) → Within prefix path → length prefix < length path
Within-length [] [] w = absurd w
Within-length [] (c ∷ cs) w = omega arith
Within-length (d ∷ ds) [] w = absurd w
Within-length (d ∷ ds) (c ∷ cs) w = omega (arith, Within-length ds cs w.1)

no_less : (prefix : List ℕ) → Within prefix [] → ⊥
no_less [] w = w
no_less (d ∷ ds) w = w

loop_same : (c d : ℕ) (cs ds : List ℕ) → c ≡ d → handles_loop (c ∷ cs) (d ∷ ds) ≡ handles_loop cs ds
unfolding handles_loop
loop_same c d cs ds e = ground arith

loop_differ : (c d : ℕ) (cs ds : List ℕ) → c ≢ d → handles_loop (c ∷ cs) (d ∷ ds) ≡ false
unfolding handles_loop
loop_differ c d cs ds e = ground arith

Within-loop : (prefix path : List ℕ) → Within prefix path → handles_loop path prefix ≡ true
unfolding handles_loop
Within-loop [] [] w = absurd w
Within-loop [] (c ∷ cs) w = refl
Within-loop (d ∷ ds) [] w = absurd w
Within-loop (d ∷ ds) (c ∷ cs) w = loop_same c d cs ds w.0 ∙ Within-loop ds cs w.1

loop-Within : (prefix path : List ℕ) → handles_loop path prefix ≡ true → Within prefix path
unfolding handles_loop
loop-Within [] [] e = ground arith
loop-Within [] (c ∷ cs) e = tt
loop-Within (d ∷ ds) [] e = ground arith
loop-Within (d ∷ ds) (c ∷ cs) e = elim (Bool-cases (c == d)) [
  | inl same ↦ (ground arith, loop-Within ds cs (sym (loop_same c d cs ds (ground arith)) ∙ e))
  | inr differ ↦ absurd (ground (arith, loop_differ c d cs ds (ground arith)))
]

module _ {S : Type 0} where
  -- The length that a file system keeps is that of its prefix.
  abbrev pub IsMounted : Filesystem S → Type 0
  IsMounted f = f.prefix_length ≡ length f.handling_prefix

  abbrev pub Mounted : List (Filesystem S) → Type 0
  Mounted [] = Unit
  Mounted (f ∷ nodes) = IsMounted f × Mounted nodes

  -- A file system handles the paths that its prefix begins and that go on behind it, and no others.
  pub handles-Extends :
      (f : Filesystem S) (path : List ℕ)
      → IsMounted f
      → (handles f path ≡ true) ↔ Extends f.handling_prefix path
  unfolding handles
  handles-Extends f path m = (
    λ e. Within-Extends f.handling_prefix path (loop-Within f.handling_prefix path (ground arith)),
    λ x.
        let w = Extends-Within f.handling_prefix path x in
        ground
          (arith, Within-loop f.handling_prefix path w, Within-length f.handling_prefix path w),
  )

  -- No prefix of these file systems begins the path.
  abbrev pub Refused : List ℕ → List (Filesystem S) → Type 0
  Refused path [] = Unit
  Refused path (f ∷ nodes) = (Extends f.handling_prefix path → ⊥) × Refused path nodes

  -- The first file system whose prefix begins the path, or none if there is none.
  abbrev pub Chosen : List (Filesystem S) → List ℕ → Option (Filesystem S) → Type 0
  Chosen nodes path none = Refused path nodes
  Chosen nodes path (some f) =
      (before : List (Filesystem S)) × (behind : List (Filesystem S)) × (nodes
        ≡ before ++ f ∷ behind)
      × Refused path before
      × IsMounted f
      × Extends f.handling_prefix path

  Refused-empty : (nodes : List (Filesystem S)) → Refused [] nodes
  Refused-empty [] = tt
  Refused-empty (f ∷ nodes) =
      (λ x. no_less f.handling_prefix (Extends-Within f.handling_prefix [] x), Refused-empty nodes)

  find_hit :
      (f : Filesystem S) (nodes : List (Filesystem S)) (path : List ℕ)
      → handles f path ≡ true
      → find_node (f ∷ nodes) path ≡ some f
  unfolding find_node
  find_hit f nodes path e = rw e refl

  find_miss :
      (f : Filesystem S) (nodes : List (Filesystem S)) (path : List ℕ)
      → handles f path ≡ false
      → find_node (f ∷ nodes) path ≡ find_node nodes path
  unfolding find_node
  find_miss f nodes path e = rw e refl

  later :
      (f : Filesystem S) (nodes : List (Filesystem S)) (path : List ℕ) (r : Option (Filesystem S))
      → (Extends f.handling_prefix path → ⊥)
      → Chosen nodes path r
      → Chosen (f ∷ nodes) path r
  later f nodes path none misses c = (misses, c)
  later f nodes path (some g) misses c =
      (f ∷ c.0, c.1, ap (λ x. f ∷ x) c.2, (misses, c.3), c.4, c.5)

  find_node-Chosen :
      (nodes : List (Filesystem S)) (path : List ℕ)
      → Mounted nodes
      → Chosen nodes path (find_node nodes path)
  unfolding find_node
  find_node-Chosen [] path m = tt
  find_node-Chosen (f ∷ nodes) path m = elim (Bool-cases (handles f path)) [
    | inl hit ↦
        rw (find_hit f nodes path hit)
          ([], nodes, refl, tt, m.0, (handles-Extends f path m.0).0 hit)
    | inr miss ↦ rw (find_miss f nodes path miss) (
        later f nodes path (find_node nodes path) (λ x. cc (miss, (handles-Extends f path m.0).1 x))
          (find_node-Chosen nodes path m.1))
  ]

  find_from :
      (nodes : List (Filesystem S)) (c : ℕ) (cs : List ℕ)
      → get_filesystem nodes (c ∷ cs) ≡ find_node nodes (c ∷ cs)
  unfolding get_filesystem
  find_from nodes c cs = ground arith

  -- getFilesystem returns the first file system whose prefix begins the path with something behind
  -- it, and none exactly when there is no such one; the empty path has none.
  pub get_filesystem-Chosen :
      (nodes : List (Filesystem S)) (path : List ℕ)
      → Mounted nodes
      → Chosen nodes path (get_filesystem nodes path)
  unfolding get_filesystem
  get_filesystem-Chosen nodes [] m = Refused-empty nodes
  get_filesystem-Chosen nodes (c ∷ cs) m =
      subst (Chosen nodes (c ∷ cs)) (sym (find_from nodes c cs)) (find_node-Chosen nodes (c ∷ cs) m)

  -- The list after mounting these file systems at these prefixes, one after the other.
  unfoldable pub mount_all :
      List (Filesystem S) → List (Filesystem S × List ℕ) → List (Filesystem S)
  mount_all nodes [] = nodes
  mount_all nodes ((f, prefix) ∷ more) = mount_all (add_partition nodes (some f) prefix) more

  -- The same in the reverse order, in front of `behind`.
  abbrev pub latest_first : List (Filesystem S × List ℕ) → List (Filesystem S) → List (Filesystem S)
  latest_first [] behind = behind
  latest_first ((f, prefix) ∷ more) behind =
      latest_first more (set_handling_prefix f prefix ∷ behind)

  mount_behind :
      (first : Filesystem S) (behind : List (Filesystem S)) (more : List (Filesystem S × List ℕ))
      → mount_all (first ∷ behind) more ≡ first ∷ latest_first more behind
  unfolding mount_all add_partition
  mount_behind first behind [] = refl
  mount_behind first behind ((f, prefix) ∷ more) =
      mount_behind first (set_handling_prefix f prefix ∷ behind) more

  latest_first-Mounted :
      (more : List (Filesystem S × List ℕ)) (behind : List (Filesystem S))
      → Mounted behind
      → Mounted (latest_first more behind)
  unfolding set_handling_prefix
  latest_first-Mounted [] behind m = m
  latest_first-Mounted ((f, prefix) ∷ more) behind m =
      latest_first-Mounted more (set_handling_prefix f prefix ∷ behind) (refl, m)

  -- The file system that was mounted first stays in front of all others; those mounted after it
  -- stand behind it, the latest one first. So a path goes to the first mount if its prefix begins
  -- the path, else to the latest mount whose prefix does, whatever the lengths of the prefixes.
  pub get_filesystem-mount_all :
      (f : Filesystem S) (prefix : List ℕ) (more : List (Filesystem S × List ℕ)) (path : List ℕ)
      → Chosen
          (set_handling_prefix f prefix ∷ latest_first more [])
          path
          (get_filesystem (mount_all [] ((f, prefix) ∷ more)) path)
  unfolding mount_all add_partition
  get_filesystem-mount_all f prefix more path =
      rw (mount_behind (set_handling_prefix f prefix) [] more) (
        get_filesystem-Chosen (set_handling_prefix f prefix ∷ latest_first more []) path
          (unfold set_handling_prefix in refl, latest_first-Mounted more [] tt))
