-- ===== src/Storage/Sata/Transfer/Reading.antt =====
-- The reads of src/Storage/SATA.cpp at any alignment.
use crack_os.Base.{
  ℕ, ◌+◌, ◌-◌, ◌/◌, ◌%◌, ◌^◌, ◌<◌, ◌≤◌, ◌≡◌, ◌≢◌, ◌⊎◌, inl, refl, arith, ap, ◌∙◌, true, false,
}
use crack_os.Base.{◌==◌, add64, sub64, Run, ok}
use native.Mathlib.Decide.{dec_lt}
use crack_os.Language.Bytes.{memcpy}
use crack_os.Language.Bytes.Copy.{memcpy_lem}
use crack_os.Storage.Sata.{Machine}
use crack_os.Storage.Sata.Transfer.{
  Request, copied, in_one_sector, whole_sectors, even, fix_offset_read, fix_size_read,
  fix_buffer_read,
}

-- `n` bytes from `p` and `m` bytes from `q` share no byte.
abbrev pub Apart : ℕ → ℕ → ℕ → ℕ → Type 0
Apart p n q m = (p + n ≤ q) ⊎ (q + m ≤ p)

module _ {S : Type 0} (content : S → ℕ → ℕ) where
  -- A read has returned `size`, with the bytes of the disk from `offset` on in the buffer. Only
  -- what `Kept` leaves out changed beside it.
  pub record Delivered (Kept : ℕ → Type 0) (offset size buffer : ℕ) (s : Machine S)
      (out : Run (ℕ × Machine S)) : Type 0 where
    pub after : Machine S
    pub returned : out ≡ ok (size, after)
    pub bytes : (k : ℕ) → k < size → after.memory (buffer + k) ≡ content s.disk (offset + k)
    pub rest : (q : ℕ) → Kept q → Apart q 1 buffer size → after.memory q ≡ s.memory q
    pub same_disk : (j : ℕ) → content after.disk j ≡ content s.disk j

  -- Every whole-sector read to `local`.
  abbrev pub Sectors : (ℕ → Type 0) → Request S → ℕ → Type 0
  Sectors Kept me_read local =
      (sector : ℕ) (s : Machine S)
      → sector % 512 ≡ 0
      → Delivered Kept sector 512 local s (me_read sector 512 local s)

  pub fix_buffer_read-Delivered :
      (Kept Outer : ℕ → Type 0) (me_read : Request S) (local offset size buffer : ℕ) (s : Machine S)
      → buffer % 2 ≢ 0
      → Apart buffer size (even local) size
      → ((q : ℕ) → Outer q → Kept q × Apart q 1 (even local) size)
      → Delivered Kept offset size (even local) s (me_read offset size (even local) s)
      → Delivered Outer offset size buffer s (fix_buffer_read me_read local offset size buffer s)
  unfolding fix_buffer_read
  fix_buffer_read-Delivered Kept Outer me_read local offset size buffer s odd apart narrow read =
      let m = read.after.memory in
      let misaligned : (buffer % 2 == 0) ≡ false = ground arith in
      let kept = memcpy_lem m buffer (even local) size (ground arith) in
      record {
        after = copied read.after buffer (even local) size;
        returned = rw (misaligned, read.returned) refl;
        bytes = λ k h. kept.0 k h ∙ read.bytes k h;
        rest = λ q o a. kept.1 q (ground arith) ∙ read.rest q (narrow q o).0 ((narrow q o).1);
        same_disk = read.same_disk;
      }

  -- A function that fixes a request, over reads which leave `Kept` alone, with a buffer of its own
  -- at `local`.
  module _ (Kept Outer : ℕ → Type 0) (me_read : Request S) (local : ℕ)
      (narrow : (q : ℕ) → Outer q → Kept q × Apart q 1 local 512) where
    pub one_sector :
        (offset size buffer : ℕ) (s : Machine S)
        → offset % 512 ≢ 0
        → 0 < size
        → offset + size < 2 ^ 63
        → offset / 512 ≡ (offset + size - 1) / 512
        → Apart buffer size local 512
        → Delivered Kept
            (whole_sectors offset)
            512
            local
            s
            (me_read (whole_sectors offset) 512 local s)
        → Delivered Outer offset size buffer s (fix_offset_read me_read local offset size buffer s)
    unfolding fix_offset_read
    one_sector offset size buffer s odd some_bytes small same apart first =
        let m = first.after.memory in
        let from = local + offset % 512 in
        let fits : offset % 512 + size ≤ 512 = omega arith in
        let test : in_one_sector offset size ≡ true = ground arith in
        let misaligned : (offset % 512 == 0) ≡ false = ground arith in
        let kept = memcpy_lem m buffer from size (ground arith) in
        record {
          after = copied first.after buffer from size;
          returned = rw (misaligned, test, first.returned) refl;
          bytes = λ k h.
              kept.0 k h
              ∙ ap m {y = local + (offset % 512 + k)} (omega arith)
              ∙ first.bytes (offset % 512 + k) (omega arith)
              ∙ ap (content s.disk) {y = offset + k} (omega arith);
          rest = λ q o a. kept.1 q (ground arith) ∙ first.rest q (narrow q o).0 ((narrow q o).1);
          same_disk = first.same_disk;
        }

    pub several_sectors :
        (offset size buffer : ℕ) (s : Machine S)
        → offset % 512 ≢ 0
        → offset + size < 2 ^ 63
        → offset / 512 < (offset + size - 1) / 512
        → Apart buffer size local 512
        → ((k : ℕ) → k < size → Kept (buffer + k))
        → Delivered Kept
            (whole_sectors offset)
            512
            local
            s
            (me_read (whole_sectors offset) 512 local s)
        → (let n = 512 - offset % 512 in
            (t : Machine S)
            → Delivered Kept
                (offset + n)
                (size - n)
                (buffer + n)
                t
                (me_read (offset + n) (size - n) (buffer + n) t))
        → Delivered Outer offset size buffer s (fix_offset_read me_read local offset size buffer s)
    unfolding fix_offset_read
    several_sectors offset size buffer s odd small more apart inside first remaining =
        let n : ℕ = 512 - offset % 512 in
        let m = first.after.memory in
        let from = local + offset % 512 in
        let fits : n < size = omega arith in
        let test : in_one_sector offset size ≡ false = ground arith in
        let misaligned : (offset % 512 == 0) ≡ false = ground arith in
        let next : add64 offset n ≡ offset + n = omega arith in
        let left : sub64 size n ≡ size - n = omega arith in
        let aligned : ((offset + n) % 512 == 0) ≡ true = ground arith in
        let all : (size - n == size - n) ≡ true = ground arith in
        let kept = memcpy_lem m buffer from n (ground arith) in
        let t = copied first.after buffer from n in
        let second = remaining t in
        record {
          after = second.after;
          returned =
              rw (misaligned, test, first.returned, next, left, aligned, second.returned, all) refl;
          bytes = λ k h. elim (dec_lt k n) [
            | yes low ↦
                second.rest (buffer + k) (inside k h) (inl (omega arith))
                ∙ kept.0 k low
                ∙ ap m {y = local + (offset % 512 + k)} (omega arith)
                ∙ first.bytes (offset % 512 + k) (omega arith)
                ∙ ap (content s.disk) {y = offset + k} (omega arith)
            | no high ↦
                let high' : n ≤ k = omega arith in
                ap second.after.memory {y = buffer + n + (k - n)} (omega arith)
                ∙ second.bytes (k - n) (omega arith)
                ∙ first.same_disk (offset + n + (k - n))
                ∙ ap (content s.disk) {y = offset + k} (omega arith)
          ];
          rest = λ q o a.
              second.rest q (narrow q o).0 (ground arith)
              ∙ kept.1 q (ground arith)
              ∙ first.rest q (narrow q o).0 ((narrow q o).1);
          same_disk = λ j. second.same_disk j ∙ first.same_disk j;
        }

    pub fix_size_read-Delivered :
        (offset size buffer : ℕ) (s : Machine S)
        → size % 512 ≢ 0
        → offset + size < 2 ^ 63
        → Apart buffer size local 512
        → ((k : ℕ) → k < size → Kept (buffer + k))
        → (let n = whole_sectors size in
            Delivered Kept offset n buffer s (me_read offset n buffer s))
        → ((t : Machine S)
            → Delivered Kept
                (offset + whole_sectors size)
                512
                local
                t
                (me_read (offset + whole_sectors size) 512 local t))
        → Delivered Outer offset size buffer s (fix_size_read me_read local offset size buffer s)
    unfolding fix_size_read
    fix_size_read-Delivered offset size buffer s odd small apart inside first last =
        let n = whole_sectors size in
        let second = last first.after in
        let misaligned : (size % 512 == 0) ≡ false = ground arith in
        let all : (n == n) ≡ true = ground arith in
        let next : add64 offset n ≡ offset + n = omega arith in
        let m = second.after.memory in
        let kept = memcpy_lem m (buffer + n) local (size - n) (ground arith) in
        record {
          after = copied second.after (buffer + n) local (size - n);
          returned = rw (misaligned, first.returned, all, next, second.returned) refl;
          bytes = λ k h. elim (dec_lt k n) [
            | yes low ↦
                kept.1 (buffer + k) (inl (omega arith))
                ∙ second.rest (buffer + k) (inside k h) (ground arith)
                ∙ first.bytes k low
            | no high ↦
                ap (memcpy m (buffer + n) local (size - n)) {y = buffer + n + (k - n)} (omega arith)
                ∙ kept.0 (k - n) (omega arith)
                ∙ second.bytes (k - n) (omega arith)
                ∙ first.same_disk (offset + n + (k - n))
                ∙ ap (content s.disk) {y = offset + k} (omega arith)
          ];
          rest = λ q o a.
              kept.1 q (ground arith)
              ∙ second.rest q (narrow q o).0 ((narrow q o).1)
              ∙ first.rest q (narrow q o).0 (ground arith);
          same_disk = λ j. second.same_disk j ∙ first.same_disk j;
        }
