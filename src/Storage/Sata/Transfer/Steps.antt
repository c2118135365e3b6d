-- ===== src/Storage/Sata/Transfer/Steps.antt =====
-- The choices of SATA::read of src/Storage/SATA.cpp, and ranges of addresses that lie apart.
use crack_os.Base.{ℕ, suc, ◌+◌, ◌-◌, ◌%◌, ◌<◌, ◌≡◌, ◌≢◌, inl, refl, arith, true, false}
use crack_os.Base.{◌==◌, ok}
use native.Mathlib.Decide.{dec_lt}
use crack_os.Storage.Sata.{Machine}
use crack_os.Storage.Sata.Transfer.{
  Request, fix_offset_read, fix_size_read, fix_buffer_read, read_with,
}
use crack_os.Storage.Sata.Transfer.Reading.{Apart}

-- Ranges that share no address lie apart.
pub Apart-of_points :
    (p n q m : ℕ) → 0 < n → 0 < m → ((k : ℕ) → k < n → Apart (p + k) 1 q m) → Apart p n q m
Apart-of_points p n q m some_n some_m each = elim (dec_lt q (p + n)) [
  | no before ↦ inl (omega arith)
  | yes reaches ↦ elim (dec_lt p q) [
    | yes below ↦ let here = each (q - p) (omega arith) in absurd (ground arith)
    | no above ↦ let here = each 0 some_n in ground arith
  ]
]

module _ {S : Type 0} (transfer : Request S) (frame heap : ℕ → ℕ) (f offset size buffer : ℕ)
    (s : Machine S) where
  pub read_nothing :
      size ≡ 0 → read_with transfer frame heap (suc f) offset size buffer s ≡ ok (0, s)
  unfolding read_with
  read_nothing z = let size' : (size == 0) ≡ true = ground arith in rw (size', read_with) refl

  pub read_split :
      offset % 512 ≢ 0
      → 0 < size
      → read_with transfer frame heap (suc f) offset size buffer s
        ≡ fix_offset_read (read_with transfer frame heap f) (frame f) offset size buffer s
  unfolding read_with
  read_split o h =
      let some_bytes : (size == 0) ≡ false = ground arith in
      let offset' : (offset % 512 == 0) ≡ false = ground arith in
      rw (some_bytes, offset', read_with) refl

  pub read_tail :
      offset % 512 ≡ 0
      → size % 512 ≢ 0
      → read_with transfer frame heap (suc f) offset size buffer s
        ≡ fix_size_read (read_with transfer frame heap f) (frame f) offset size buffer s
  unfolding read_with
  read_tail o z =
      let some_bytes : (size == 0) ≡ false = ground arith in
      let offset' : (offset % 512 == 0) ≡ true = ground arith in
      let size' : (size % 512 == 0) ≡ false = ground arith in
      rw (some_bytes, offset', size', read_with) refl

  pub read_odd :
      offset % 512 ≡ 0
      → size % 512 ≡ 0
      → 0 < size
      → buffer % 2 ≢ 0
      → read_with transfer frame heap (suc f) offset size buffer s
        ≡ fix_buffer_read (read_with transfer frame heap f) (heap f) offset size buffer s
  unfolding read_with
  read_odd o z h b =
      let some_bytes : (size == 0) ≡ false = ground arith in
      let offset' : (offset % 512 == 0) ≡ true = ground arith in
      let size' : (size % 512 == 0) ≡ true = ground arith in
      let buffer' : (buffer % 2 == 0) ≡ false = ground arith in
      rw (some_bytes, offset', size', buffer', read_with) refl

  pub read_aligned :
      offset % 512 ≡ 0
      → size % 512 ≡ 0
      → 0 < size
      → buffer % 2 ≡ 0
      → read_with transfer frame heap (suc f) offset size buffer s ≡ transfer offset size buffer s
  unfolding read_with
  read_aligned o z h b =
      let some_bytes : (size == 0) ≡ false = ground arith in
      let offset' : (offset % 512 == 0) ≡ true = ground arith in
      let size' : (size % 512 == 0) ≡ true = ground arith in
      let buffer' : (buffer % 2 == 0) ≡ true = ground arith in
      rw (some_bytes, offset', size', buffer', read_with) refl
