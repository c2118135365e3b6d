-- ===== src/Storage/Ext4/Extents.antt =====
-- The walk through the extents of a file in src/Storage/Ext4.cpp, and what implRead does with one.
use crack_os.Base.{
  ℕ, zero, suc, ◌+◌, ◌-◌, ◌*◌, ◌/◌, ◌%◌, ap, ◌∙◌, ◌^◌, ◌<◌, ◌≤◌, ◌≡◌, ◌≢◌, refl, arith, Bool, true,
  false, List, [], ◌∷◌,
}
use crack_os.Base.{leb, ◌==◌, add64, sub64, mul64, length, Run, ok}
use crack_os.Language.Bytes.{Bytes}
use crack_os.Storage.Ext4.{
  Source, Ext4, ExtentLeaf, IoOperation, Callback, half, full, larger, smaller, leaf_loop,
  index_loop, travel_extent_tree, read_extent,
}

-- The 12 bytes of an extent: the first block in the file, the number of blocks, and the first block
-- of the partition, whose upper 16 bits stand before its lower 32.
abbrev pub HoldsLeaf : Bytes → ℕ → ExtentLeaf → Type 0
HoldsLeaf b i leaf =
    (b i ≡ leaf.block_in_file % 256)
    × (b (i + 1) ≡ leaf.block_in_file / 2 ^ 8 % 256)
    × (b (i + 2) ≡ leaf.block_in_file / 2 ^ 16 % 256)
    × (b (i + 3) ≡ leaf.block_in_file / 2 ^ 24)
    × (b (i + 4) ≡ leaf.block_count % 256)
    × (b (i + 5) ≡ leaf.block_count / 2 ^ 8)
    × (b (i + 6) ≡ leaf.start / 2 ^ 32 % 256)
    × (b (i + 7) ≡ leaf.start / 2 ^ 40)
    × (b (i + 8) ≡ leaf.start % 256)
    × (b (i + 9) ≡ leaf.start / 2 ^ 8 % 256)
    × (b (i + 10) ≡ leaf.start / 2 ^ 16 % 256)
    × (b (i + 11) ≡ leaf.start / 2 ^ 24 % 256)

-- The extents one behind the other from `i` on.
abbrev pub HoldsLeaves : Bytes → ℕ → List ExtentLeaf → Type 0
HoldsLeaves b i [] = Unit {0}
HoldsLeaves b i (leaf ∷ leaves) = HoldsLeaf b i leaf × HoldsLeaves b (i + 12) leaves

-- A node at depth 0 with the extents: the magic number, their number, and the depth.
abbrev pub HoldsNode : Bytes → List ExtentLeaf → Type 0
HoldsNode b leaves =
    (b 0 ≡ 0x0A)
    × (b 1 ≡ 0xF3)
    × (b 2 ≡ length leaves % 256)
    × (b 3 ≡ length leaves / 256)
    × (b 6 ≡ 0)
    × (b 7 ≡ 0)
    × HoldsLeaves b 12 leaves

leaf_fields :
    (b : Bytes) (i : ℕ) (leaf : ExtentLeaf)
    → HoldsLeaf b i leaf
    → (full b i ≡ leaf.block_in_file)
      × (half b (i + 4) ≡ leaf.block_count)
      × (full b (i + 8) + half b (i + 6) * 2 ^ 32 ≡ leaf.start)
leaf_fields b i leaf (f0, f1, f2, f3, c0, c1, h0, h1, s0, s1, s2, s3) =
    let at5 : b (i + 4 + 1) ≡ b (i + 5) = ap b (omega arith) in
    let at7 : b (i + 6 + 1) ≡ b (i + 7) = ap b (omega arith) in
    let at9 : b (i + 8 + 1) ≡ b (i + 9) = ap b (omega arith) in
    let at10 : b (i + 8 + 2) ≡ b (i + 10) = ap b (omega arith) in
    let at11 : b (i + 8 + 3) ≡ b (i + 11) = ap b (omega arith) in
    (omega arith, omega arith, omega arith)

abbrev pub repeated : {A : Type 0} → ℕ → (A → A) → A → A
repeated zero f x = x
repeated (suc n) f x = repeated n f (f x)

scaled : {a b : ℕ} (n : ℕ) → a ≡ b → b * n < 2 ^ 64 → mul64 a n ≡ b * n
scaled {a} {b} n same small = ap (λ (x : ℕ). mul64 x n) same ∙ omega arith

ap₃ :
    {A : Type 0} (f : ℕ → ℕ → ℕ → A) {a a' b b' c c' : ℕ}
    → a ≡ a'
    → b ≡ b'
    → c ≡ c'
    → f a b c ≡ f a' b' c'
ap₃ f {a} {a'} {b} {b'} {c} p q r =
    ap (λ (x : ℕ). f x b c) p ∙ ap (λ (y : ℕ). f a' y c) q ∙ ap (f a' b') r

module _ {S C : Type 0} (disk : Source S) (fs : Ext4) (callback : Callback S C) where
  -- A callback for each extent in turn, where `visit` is what the callback makes of one: its place in
  -- the file, its place in the partition and its length, in bytes.
  abbrev pub visited : (ℕ → ℕ → ℕ → C × S → C × S) → List ExtentLeaf → C × S → C × S
  visited visit [] x = x
  visited visit (leaf ∷ leaves) x = visited visit leaves (
      visit (leaf.block_in_file * fs.block_size) (leaf.start * fs.block_size)
        (leaf.block_count * fs.block_size) x)

  -- The places and lengths fit 64 bits.
  abbrev pub Fit : List ExtentLeaf → Type 0
  Fit [] = Unit {0}
  Fit (leaf ∷ leaves) =
      (leaf.block_in_file * fs.block_size < 2 ^ 64)
      × (leaf.start * fs.block_size < 2 ^ 64)
      × (leaf.block_count * fs.block_size < 2 ^ 64)
      × Fit leaves

  -- The callback never asks for an end of the walk.
  abbrev pub Goes : (ℕ → ℕ → ℕ → C × S → C × S) → Type 0
  Goes visit =
      (f p l : ℕ) (c : C) (s : S)
      → callback f p l c s ≡ ok (false, (visit f p l (c, s)).0, (visit f p l (c, s)).1)

  abbrev pub passes : C × S → Run (Bool × C × S)
  passes x = ok (false, x.0, x.1)

  leaf_loop-visited :
      (visit : ℕ → ℕ → ℕ → C × S → C × S)
      → Goes visit
      → (leaves : List ExtentLeaf) (b : Bytes) (i : ℕ) (c : C) (s : S) → HoldsLeaves b i leaves
      → Fit leaves
      → leaf_loop disk fs callback b i (length leaves) c s ≡ passes (visited visit leaves (c, s))
  unfolding leaf_loop
  leaf_loop-visited visit goes [] b i c s held fit = refl
  leaf_loop-visited visit goes (leaf ∷ leaves) b i c s (held, rest)
        (fit_file, fit_start, fit_count, fit) =
      let f = leaf.block_in_file * fs.block_size in
      let p = leaf.start * fs.block_size in
      let l = leaf.block_count * fs.block_size in
      let x = visit f p l (c, s) in
      let (file, count, start) = leaf_fields b i leaf held in
      let called : callback (mul64 (full b i) fs.block_size)
            (mul64 (full b (i + 8) + half b (i + 6) * 2 ^ 32) fs.block_size)
            (mul64 (half b (i + 4)) fs.block_size) c s
          ≡ ok (false, x.0, x.1) =
        ap₃ (λ (u v w : ℕ). callback u v w c s) (scaled fs.block_size file fit_file)
          (scaled fs.block_size start fit_start) (scaled fs.block_size count fit_count)
        ∙ goes f p l c s in
      rw (called, leaf_loop) (leaf_loop-visited visit goes leaves b (i + 12) x.0 x.1 rest fit)

  -- A node of depth 0 is walked through extent by extent, in the order in which they are written in
  -- it, with their places and lengths in bytes, when the callback never asks for an end. These
  -- numbers fit 64 bits, and the number of extents 16.
  pub travel_extent_tree-visited :
      (visit : ℕ → ℕ → ℕ → C × S → C × S)
      → Goes visit
      → (fuel : ℕ) (b : Bytes) (leaves : List ExtentLeaf) (c : C) (s : S) → HoldsNode b leaves
      → Fit leaves
      → travel_extent_tree disk fs callback (suc fuel) b c s ≡ passes (visited visit leaves (c, s))
  unfolding travel_extent_tree
  travel_extent_tree-visited visit goes fuel b leaves c s (m0, m1, n0, n1, d0, d1, held) fit =
      let e : (half b 0 == 0xF30A) ≡ true = ground arith in
      let e1 : (half b 6 == 0) ≡ true = ground arith in
      let n : half b 2 ≡ length leaves = omega arith in
      rw (e, e1, n, travel_extent_tree) (leaf_loop-visited visit goes leaves b 12 c s held fit)

  index_loop-repeated :
      (descend : Bytes → C → S → Run (Bool × C × S)) (b child : Bytes) (walk : C × S → C × S)
      → ((c : C) (s : S) → descend child c s ≡ passes (walk (c, s)))
      → ((s : S)
          → let at = mul64 (full b (12 + 4) + half b (12 + 8) * 2 ^ 32) fs.block_size in
            disk.read_own at fs.block_size s ≡ (child, fs.block_size, s))
      → (n : ℕ) (c : C) (s : S)
      → index_loop disk fs callback descend b n c s ≡ passes (repeated n walk (c, s))
  unfolding index_loop
  index_loop-repeated descend b child walk goes reads zero c s = refl
  index_loop-repeated descend b child walk goes reads (suc n) c s =
      let x = walk (c, s) in
      rw (reads s, goes c s, index_loop)
        (index_loop-repeated descend b child walk goes reads n x.0 x.1)

  -- A node with `n` children is not walked through: its first child is walked through `n` times,
  -- and no other child once, when the walk of that child does not ask for an end and reading it
  -- does not change the disk.
  pub travel_extent_tree-repeated :
      (fuel : ℕ) (b child : Bytes) (walk : C × S → C × S)
      → ((c : C) (s : S)
          → travel_extent_tree disk fs callback fuel child c s ≡ passes (walk (c, s)))
      → ((s : S)
          → let at = mul64 (full b (12 + 4) + half b (12 + 8) * 2 ^ 32) fs.block_size in
            disk.read_own at fs.block_size s ≡ (child, fs.block_size, s))
      → half b 0 ≡ 0xF30A
      → half b 6 ≢ 0
      → (c : C) (s : S)
      → travel_extent_tree disk fs callback (suc fuel) b c s
        ≡ passes (repeated (half b 2) walk (c, s))
  unfolding travel_extent_tree
  travel_extent_tree-repeated fuel b child walk goes reads magic deep c s =
      let e : (half b 0 == 0xF30A) ≡ true = ground arith in
      let e1 : (half b 6 == 0) ≡ false = ground arith in
      rw (e, e1, travel_extent_tree)
        (index_loop-repeated (travel_extent_tree disk fs callback fuel) b child walk goes reads
          (half b 2) c s)

module _ {S : Type 0} (disk : Source S) (fs : Ext4) where
  -- An extent that holds the start of the file and reaches behind the offset of the request: the
  -- bytes that the request and the extent share are read to the start of the buffer.
  pub read_extent-first :
      (position length : ℕ) (io : IoOperation) (s : S)
      → io.offset < length
      → 0 < io.size
      → length < 2 ^ 63
      → io.offset + io.size < 2 ^ 63
      → position + io.offset < 2 ^ 64
      → io.buffer < 2 ^ 64
      → let (count, s1) =
          disk.read_to (position + io.offset) (smaller (length - io.offset) io.size) io.buffer s in
        read_extent disk fs 0 position length io s
        ≡ ok (false, record io { result = add64 io.result count }, s1)
  unfolding read_extent
  read_extent-first position length io s inside some small_length small_end small_position small =
      let end = smaller length (io.offset + io.size) in
      let a : larger 0 io.offset ≡ io.offset = ground arith in
      let b : smaller (add64 0 length) (add64 io.offset io.size) ≡ end = ground arith in
      let c : sub64 io.offset io.offset ≡ 0 = omega arith in
      let d : sub64 io.size 0 ≡ io.size = omega arith in
      let l : smaller (end - io.offset) io.size ≡ smaller (length - io.offset) io.size =
        ground arith in
      let p : add64 position io.offset ≡ position + io.offset = omega arith in
      let q : add64 io.buffer 0 ≡ io.buffer = omega arith in
      let t : leb end io.offset ≡ false = ground arith in rw (a, b, c, d, l, p, q, t) refl

  -- An extent that starts behind the offset of the request, at `start` in the file, is read from
  -- `start` bytes behind its position, and to an address as far in front of the buffer as the
  -- extent starts behind the offset.
  pub read_extent-later :
      (start position length : ℕ) (io : IoOperation) (s : S)
      → io.offset < start
      → start < io.offset + io.size
      → 0 < length
      → start + length < 2 ^ 63
      → io.offset + io.size < 2 ^ 63
      → position + start < 2 ^ 64
      → start - io.offset ≤ io.buffer
      → io.buffer < 2 ^ 64
      → let (count, s1) =
          disk.read_to
            (position + start)
            (smaller length (io.offset + io.size - start))
            (io.buffer - (start - io.offset))
            s in
        read_extent disk fs start position length io s
        ≡ ok (false, record io { result = add64 io.result count }, s1)
  unfolding read_extent
  read_extent-later start position length io s behind inside some small_length small_end
        small_position below small =
      let end = smaller (start + length) (io.offset + io.size) in
      let before = 2 ^ 64 - (start - io.offset) in
      let a : larger start io.offset ≡ start = ground arith in
      let b : smaller (add64 start length) (add64 io.offset io.size) ≡ end = ground arith in
      let c : sub64 io.offset start ≡ before = omega arith in
      let l : smaller (end - start) (sub64 io.size before)
          ≡ smaller length (io.offset + io.size - start) =
        ground arith in
      let p : add64 position start ≡ position + start = omega arith in
      let q : add64 io.buffer before ≡ io.buffer - (start - io.offset) = omega arith in
      let t : leb end start ≡ false = ground arith in rw (a, b, c, l, p, q, t) refl
