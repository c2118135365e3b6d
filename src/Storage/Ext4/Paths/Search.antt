-- ===== src/Storage/Ext4/Paths/Search.antt =====
-- The search of lookForFile in src/Storage/Ext4.cpp through a block of a directory.
use crack_os.Base.{
  ℕ, zero, suc, ◌+◌, ◌-◌, ◌/◌, ◌%◌, ◌^◌, ◌<◌, ◌≡◌, ◌≢◌, inl, inr, refl, arith, ap, ap₂, subst, ◌∙◌,
  Bool, true, false, ◌&&◌, Option, none, some, List, [], ◌∷◌,
}
use crack_os.Base.{ltb, ◌==◌, if◌then◌else◌, length, get_or, Run, ok, ◌>>=◌}
use native.Mathlib.Decide.{ℕ_discrete}
use crack_os.Language.Bytes.{Bytes}
use crack_os.Storage.Ext4.{
  Source, Ext4, Context, filepath, result_of, half, below_one, is_prefix, get_inode,
}
use crack_os.Storage.Ext4.Paths.{
  NumberOf, not_found, number_of, with_found_bit, is_slash, look_at_entry, entry_loop,
  get_inode_number,
}
use crack_os.Base.{Bool-cases}
use crack_os.Storage.Ext4.Paths.Entries.{
  DirEntry, Verdict, apart, target, inside, IsText, HoldsName, HoldsEntries, strip, behind, verdict,
  first_verdict, head_or, is_some, is_prefix-strip, behind_name, one_further,
}

module _ {S : Type 0} (disk : Source S) (fs : Ext4) (get_number : NumberOf S) where
  -- What the search does with a verdict.
  unfoldable pub outcome : ℕ → List ℕ → S → Verdict → Run (Bool × Context × S)
  outcome address path s apart = ok (false, filepath address path, s)
  outcome address path s (target n) = ok (true, result_of (with_found_bit n), s)
  outcome address path s (inside n rest) =
      get_number (address + (length path - length rest)) rest n s >>= λ r.
      ok (true, result_of (with_found_bit r.0), r.1)

  module _ (address : ℕ) (path : List ℕ) (s : S) (again : Run (Bool × Context × S)) where
    -- What a verdict comes to, when the loop goes on with `again`.
    unfoldable pub taken : Verdict → Run (Bool × Context × S)
    taken apart = again
    taken (target n) = outcome address path s (target n)
    taken (inside n rest) = outcome address path s (inside n rest)

    abbrev looked : DirEntry → Run (Bool × Context × S)
    looked e =
        look_at_entry disk fs get_number e.inode (length e.name) e.file_type
          (is_some (strip e.name path)) address path s again

    used_entry :
        (e : DirEntry) (r : Option (List ℕ))
        → e.inode ≢ 0
        → IsText path
        → strip e.name path ≡ r
        → look_at_entry disk fs get_number e.inode
            (length e.name)
            e.file_type
            (is_some r)
            address
            path
            s
            again
          ≡ taken (behind e.inode e.file_type r)
    unfolding look_at_entry taken is_some head_or behind outcome
    used_entry e none used text is =
        let e0 : (e.inode == 0) ≡ false = ground arith in rw (e0, look_at_entry) refl
    used_entry e (some []) used text is =
        let e0 : (e.inode == 0) ≡ false = ground arith in
        let (end, dropped, size, more) = behind_name e.name path [] is text in
        let e1 : (get_or path (length e.name) 0 == 0) ≡ true = ground arith in
        rw (e0, e1, look_at_entry) refl
    used_entry e (some (c ∷ [])) used text is =
        let e0 : (e.inode == 0) ≡ false = ground arith in
        let (end, dropped, size, more) = behind_name e.name path (c ∷ []) is text in
        let e1 : (get_or path (length e.name) 0 == 0) ≡ false = ground arith in
        let next = one_further e.name path [] c is in
        let e2 : (get_or path (length e.name + 1) 0 == 0) ≡ true = ground arith in
        let same : (get_or path (length e.name) 0 == 47 && e.file_type == 2)
            ≡ (c == 47 && e.file_type == 2) =
          ap (λ (n : ℕ). n == 47 && e.file_type == 2) end in
        elim (Bool-cases (c == 47 && e.file_type == 2)) [
          | inl goes ↦ rw (e0, e1, same ∙ goes, e2, goes, look_at_entry) refl
          | inr stops ↦ rw (e0, e1, same ∙ stops, stops, look_at_entry) refl
        ]
    used_entry e (some (c ∷ d ∷ rest)) used text is =
        let e0 : (e.inode == 0) ≡ false = ground arith in
        let (end, dropped, size, more) = behind_name e.name path (c ∷ d ∷ rest) is text in
        let e1 : (get_or path (length e.name) 0 == 0) ≡ false = ground arith in
        let next = one_further e.name path (d ∷ rest) c is in
        let e2 : (get_or path (length e.name + 1) 0 == 0) ≡ false = ground arith in
        let same : (get_or path (length e.name) 0 == 47 && e.file_type == 2)
            ≡ (c == 47 && e.file_type == 2) =
          ap (λ (n : ℕ). n == 47 && e.file_type == 2) end in
        elim (Bool-cases (c == 47 && e.file_type == 2)) [
          | inl goes ↦
              rw (e0, e1, same ∙ goes, e2, goes, look_at_entry)
                (ap₂
                  (λ (n : ℕ) (xs : List ℕ). get_number (address + n) xs e.inode s >>= λ r.
                    ok (true, result_of (with_found_bit r.0), r.1))
                  size dropped)
          | inr stops ↦ rw (e0, e1, same ∙ stops, stops, look_at_entry) refl
        ]

    look_taken :
        (e : DirEntry)
        → IsText path
        → look_at_entry disk fs get_number e.inode
            (length e.name)
            e.file_type
            (is_some (strip e.name path))
            address
            path
            s
            again
          ≡ taken (verdict e path)
    unfolding look_at_entry verdict taken
    look_taken e text = elim (ℕ_discrete e.inode 0) [
      | yes free ↦ let e0 : (e.inode == 0) ≡ true = ground arith in rw (e0, look_at_entry) refl
      | no used ↦
          let e0 : (e.inode == 0) ≡ false = ground arith in
          rw e0 (used_entry e (strip e.name path) used text refl)
    ]

  -- A verdict that is not `apart` ends the loop.
  taken-outcome :
      (address : ℕ) (path : List ℕ) (s : S) (es : List DirEntry) (e : DirEntry)
      → taken address path s (outcome address path s (first_verdict es path)) (verdict e path)
        ≡ outcome address path s (first_verdict (e ∷ es) path)
  unfolding first_verdict taken
  taken-outcome address path s es e = go (verdict e path)
    where
      go :
          (v : Verdict)
          → taken address path s (outcome address path s (first_verdict es path)) v
            ≡ outcome address path s (elim v [
              | apart ↦ first_verdict es path
              | target n ↦ target n
              | inside n rest ↦ inside n rest
            ])
      go apart = refl
      go (target n) = refl
      go (inside n rest) = refl

  -- In a block of a directory, lookForFile takes the first entry in use whose name is the path, or
  -- is followed in the path by a '/' and a directory's; it goes on in that directory with the rest
  -- of the path, unless that is only the '/'. Without such an entry it finds nothing. The entries
  -- are in the block one behind the other, none of their names nor the path has a '\0' inside, and
  -- the fuel is more than the number of entries.
  pub entry_loop-first_verdict :
      (es : List DirEntry) (fuel : ℕ) (b : Bytes) (i address : ℕ) (path : List ℕ) (s : S)
      → length es < fuel
      → IsText path
      → HoldsEntries b fs.block_size i es
      → entry_loop disk fs get_number fuel b i address path s
        ≡ outcome address path s (first_verdict es path)
  unfolding entry_loop first_verdict outcome
  entry_loop-first_verdict es zero b i address path s h text holds = absurd (omega arith)
  entry_loop-first_verdict [] (suc fuel) b i address path s h text holds =
      let e : ltb i fs.block_size ≡ false = ground arith in rw (e, entry_loop) refl
  entry_loop-first_verdict (e ∷ es) (suc fuel) b i address path s h text holds =
      let (here, at_inode, at_rec, at_length, at_type, at_name, name_text, more) = holds in
      let in_block : ltb i fs.block_size ≡ true = ground arith in
      let matches : is_prefix b (i + 8) path 0 (b (i + 6)) ≡ is_some (strip e.name path) =
        ap (is_prefix b (i + 8) path 0) at_length
        ∙ is_prefix-strip b (i + 8) [] e.name path
            (subst (λ (n : ℕ). HoldsName b n e.name) {x = i + 8} (omega arith) at_name) name_text in
      let again : entry_loop disk fs get_number fuel b (i + half b (i + 4)) address path s
          ≡ outcome address path s (first_verdict es path) =
        ap (λ (n : ℕ). entry_loop disk fs get_number fuel b (i + n) address path s) at_rec
        ∙ entry_loop-first_verdict es fuel b (i + e.rec_length) address path s (omega arith) text
            more in
      let rest = outcome address path s (first_verdict es path) in
      rw (in_block, entry_loop)
        (ap
            (λ (n : ℕ).
              look_at_entry disk fs get_number n (b (i + 6)) (b (i + 7))
                (is_prefix b (i + 8) path 0 (b (i + 6))) address path s
                (entry_loop disk fs get_number fuel b (i + half b (i + 4)) address path s))
            at_inode
          ∙ ap₂
              (λ (n k : ℕ).
                look_at_entry disk fs get_number e.inode n k
                  (is_prefix b (i + 8) path 0 (b (i + 6))) address path s
                  (entry_loop disk fs get_number fuel b (i + half b (i + 4)) address path s))
              at_length at_type
          ∙ ap₂
              (λ (m : Bool) (r : Run (Bool × Context × S)).
                look_at_entry disk fs get_number e.inode (length e.name) e.file_type m address path
                  s r)
              matches again
          ∙ look_taken address path s rest e text
          ∙ taken-outcome address path s es e)

  -- When the entry on the path is a directory in which the rest of the path leads to nothing, the
  -- search reports a find, and getINodeNumber takes it for the inode 2 ^ 63 - 1.
  pub entry_loop-inside_not_found :
      (es : List DirEntry) (fuel : ℕ) (b : Bytes) (i address n : ℕ) (path rest : List ℕ) (s t : S)
      → length es < fuel
      → IsText path
      → HoldsEntries b fs.block_size i es
      → first_verdict es path ≡ inside n rest
      → get_number (address + (length path - length rest)) rest n s ≡ ok (not_found, t)
      → (c : Context) × (entry_loop disk fs get_number fuel b i address path s ≡ ok (true, c, t))
        × (number_of c ≡ 2 ^ 63 - 1)
  unfolding outcome number_of
  entry_loop-inside_not_found es fuel b i address n path rest s t h text holds is nothing = (
    result_of (with_found_bit not_found),
    entry_loop-first_verdict es fuel b i address path s h text holds
        ∙ ap (outcome address path s) is
        ∙ ap (λ (r : Run (ℕ × S)). r >>= λ x. ok (true, result_of (with_found_bit x.0), x.1))
            nothing,
    refl,
  )

module _ {S : Type 0} (disk : Source S) (fs : Ext4) (fuel : ℕ) (old : Bytes) (address c d n : ℕ)
    (path : List ℕ) (s : S) where
  -- What getINodeNumber answers where the inode that it starts at is no directory.
  pub get_inode_number-file :
      let (inode, s1) = get_inode disk fs old n s in
      let mode = half inode 0 / 2 ^ 12 % 2 ^ 4 in
      below_one n ≡ false
      → mode ≢ 4
      → get_inode_number disk fs (suc fuel) old address (c ∷ d ∷ path) n s
        ≡ ok (if mode == 8 then n else not_found, s1)
  unfolding get_inode_number is_slash
  get_inode_number-file some_node no_dir =
      let (inode, s1) = get_inode disk fs old n s in
      let e : (half inode 0 / 2 ^ 12 % 2 ^ 4 == 4) ≡ false = ground arith in
      let longer : (n == 2 && is_slash (c ∷ d ∷ path)) ≡ false = elim (Bool-cases (n == 2)) [
        | inl root ↦ rw root refl
        | inr child ↦ rw child refl
      ] in
      simp (some_node, longer, e, get_inode_number)
