-- ===== src/Storage/Ext4/Paths/Entries.antt =====
-- A block of a directory in src/Storage/Ext4.cpp as its list of entries, and the entry that
-- lookForFile takes for a path.
use crack_os.Base.{
  ℕ, ◌+◌, ◌-◌, ◌<◌, ◌≤◌, ◌≡◌, refl, arith, ap, ap₂, sym, subst, ◌∙◌, Bool, true, false, ◌&&◌,
  Option, none, some, List, [], ◌∷◌, ◌++◌,
}
use crack_os.Base.{◌==◌, if◌then◌else◌, length, get_or, length-append, get_or-append}
use mathlib.Core.List.{append_assoc}
use native.Mathlib.Decide.{ℕ_discrete}
use crack_os.Language.Bytes.{Bytes}
use crack_os.Storage.Ext4.{half, full, is_prefix, drop_path}

pub record DirEntry : Type 0 where
  pub inode : ℕ
  pub rec_length : ℕ
  pub file_type : ℕ
  pub name : List ℕ

-- The characters of a text are no '\0'.
abbrev pub IsText : List ℕ → Type 0
IsText [] = 0 ≤ 0
IsText (c ∷ cs) = (0 < c) × IsText cs

abbrev pub HoldsName : Bytes → ℕ → List ℕ → Type 0
HoldsName b i [] = 0 ≤ i
HoldsName b i (c ∷ cs) = (b i ≡ c) × HoldsName b (i + 1) cs

-- The block has these entries from `i` on, and ends behind them.
abbrev pub HoldsEntries : Bytes → ℕ → ℕ → List DirEntry → Type 0
HoldsEntries b size i [] = size ≤ i
HoldsEntries b size i (e ∷ es) =
    (i < size)
    × (full b i ≡ e.inode)
    × (half b (i + 4) ≡ e.rec_length)
    × (b (i + 6) ≡ length e.name)
    × (b (i + 7) ≡ e.file_type)
    × HoldsName b (i + 8) e.name
    × IsText e.name
    × HoldsEntries b size (i + e.rec_length) es

-- What is left of a path behind a name that it starts with.
unfoldable pub strip : List ℕ → List ℕ → Option (List ℕ)
strip [] path = some path
strip (c ∷ name) [] = none
strip (c ∷ name) (d ∷ path) = let more = strip name path in if c == d then more else none

-- What an entry is for a path: not on the path, the end of it, or a directory on it with the rest
-- of the path behind the name.
pub data Verdict : Type 0 where
  apart : Verdict
  target : ℕ → Verdict
  inside : ℕ → List ℕ → Verdict

unfoldable pub behind : ℕ → ℕ → Option (List ℕ) → Verdict
behind inode kind none = apart
behind inode kind (some []) = target inode
behind inode kind (some (c ∷ [])) = if c == 47 && kind == 2 then target inode else apart
behind inode kind (some (c ∷ d ∷ rest)) =
    if c == 47 && kind == 2 then inside inode (c ∷ d ∷ rest) else apart

unfoldable pub verdict : DirEntry → List ℕ → Verdict
verdict e path = if e.inode == 0 then apart else behind e.inode e.file_type (strip e.name path)

-- The first entry that is on the path.
unfoldable pub first_verdict : List DirEntry → List ℕ → Verdict
first_verdict [] path = apart
first_verdict (e ∷ es) path = elim (verdict e path) [
  | apart ↦ first_verdict es path
  | target n ↦ target n
  | inside n rest ↦ inside n rest
]

unfoldable pub head_or : List ℕ → ℕ
head_or [] = 0
head_or (c ∷ cs) = c

unfoldable pub is_some : Option (List ℕ) → Bool
is_some none = false
is_some (some x) = true

get_or_head : (pre path : List ℕ) → get_or (pre ++ path) (length pre) 0 ≡ head_or path
unfolding head_or
get_or_head pre [] =
    ap (λ (n : ℕ). get_or (pre ++ []) n 0) {y = length pre + 0} (omega arith)
    ∙ get_or-append pre [] 0 0
get_or_head pre (c ∷ cs) =
    ap (λ (n : ℕ). get_or (pre ++ c ∷ cs) n 0) {y = length pre + 0} (omega arith)
    ∙ get_or-append pre (c ∷ cs) 0 0

pub is_prefix-strip :
    (b : Bytes) (i : ℕ) (pre name path : List ℕ)
    → HoldsName b (i + length pre) name
    → IsText name
    → is_prefix b i (pre ++ path) (length pre) (length name) ≡ is_some (strip name path)
unfolding is_prefix is_some strip head_or
is_prefix-strip b i pre [] path h t = refl
is_prefix-strip b i pre (c ∷ name) [] h t =
    let at = get_or_head pre [] in
    let here = h.0 in
    let e : (b (i + length pre) == get_or (pre ++ []) (length pre) 0) ≡ false = ground arith in
    rw (e, is_prefix) refl
is_prefix-strip b i pre (c ∷ name) (d ∷ path) h t =
    let at = get_or_head pre (d ∷ path) in
    let here = h.0 in
    let longer : length (pre ++ d ∷ []) ≡ length pre + 1 =
      length-append pre (d ∷ []) ∙ omega arith in
    let rest : is_prefix b i (pre ++ d ∷ path) (length pre + 1) (length name)
        ≡ is_some (strip name path) =
      ap₂ (λ (xs : List ℕ) (n : ℕ). is_prefix b i xs n (length name))
        (sym (append_assoc pre (d ∷ []) path)) (sym longer)
      ∙ is_prefix-strip b i (pre ++ d ∷ []) name path
          (subst (λ (n : ℕ). HoldsName b n name) {x = i + length pre + 1} (omega arith) h.1) t.1 in
    elim (ℕ_discrete c d) [
      | yes is ↦
          let e : (b (i + length pre) == get_or (pre ++ d ∷ path) (length pre) 0) ≡ true =
            ground arith in
          let e1 : (c == d) ≡ true = ground arith in rw (e, e1, is_prefix) rest
      | no is_not ↦
          let e : (b (i + length pre) == get_or (pre ++ d ∷ path) (length pre) 0) ≡ false =
            ground arith in
          let e1 : (c == d) ≡ false = ground arith in rw (e, e1, is_prefix) refl
    ]

strip-append : (name path rest : List ℕ) → strip name path ≡ some rest → path ≡ name ++ rest
unfolding strip
strip-append [] path rest e = ground arith
strip-append (c ∷ name) [] rest e = cc
strip-append (c ∷ name) (d ∷ path) rest e = elim (ℕ_discrete c d) [
  | yes is ↦
      let e1 : (c == d) ≡ true = ground arith in
      ap₂ (λ (x : ℕ) (xs : List ℕ). x ∷ xs) (sym is) (strip-append name path rest (rw e1 at e))
  | no is_not ↦ let e1 : (c == d) ≡ false = ground arith in let h = rw e1 at e in cc
]

drop_path-append : (name rest : List ℕ) → drop_path (length name) (name ++ rest) ≡ rest
unfolding drop_path
drop_path-append [] rest = refl
drop_path-append (c ∷ name) rest = drop_path-append name rest

IsText-behind : (name rest : List ℕ) → IsText (name ++ rest) → IsText rest
IsText-behind [] rest t = t
IsText-behind (c ∷ name) rest t = IsText-behind name rest t.1

-- The path from the end of a name on.
pub behind_name :
    (name path rest : List ℕ)
    → strip name path ≡ some rest
    → IsText path
    → (get_or path (length name) 0 ≡ head_or rest)
      × (drop_path (length name) path ≡ rest)
      × (length name ≡ length path - length rest)
      × IsText rest
behind_name name path rest e text =
    let is = strip-append name path rest e in
    let total = ap length is ∙ length-append name rest in
    (
      ap (λ (p : List ℕ). get_or p (length name) 0) is ∙ get_or_head name rest,
      ap (drop_path (length name)) is ∙ drop_path-append name rest,
      omega arith,
      IsText-behind name rest (subst IsText is text),
    )

pub one_further :
    (name path rest : List ℕ) (c : ℕ)
    → strip name path ≡ some (c ∷ rest)
    → get_or path (length name + 1) 0 ≡ head_or rest
one_further name path rest c e =
    let is = strip-append name path (c ∷ rest) e in
    let longer : length name + 1 ≡ length (name ++ c ∷ []) =
      omega arith ∙ sym (length-append name (c ∷ [])) in
    ap₂ (λ (p : List ℕ) (n : ℕ). get_or p n 0) (is ∙ sym (append_assoc name (c ∷ []) rest)) longer
    ∙ get_or_head (name ++ c ∷ []) rest
