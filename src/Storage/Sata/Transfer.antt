-- ===== src/Storage/Sata/Transfer.antt =====
-- SATA::read and SATA::write of src/Storage/SATA.cpp, and the functions that bring a request to
-- whole sectors and to an even address. `fuel` bounds the depth of the calls. The buffers that a
-- call has on its stack and on the heap depend on that depth: `frame` and `heap` are their
-- addresses. The lines that the functions print are left out.
pub mod Reading
pub mod Steps
pub mod Alignment
pub mod Ending
use crack_os.Base.{ℕ, zero, suc, ◌+◌, ◌-◌, ◌*◌, ◌/◌, ◌%◌, ◌^◌, Bool, true, false}
use crack_os.Base.{◌==◌, if◌then◌else◌, add64, sub64, Run, ok, out_of_fuel, ◌>>=◌}
use crack_os.Language.Bytes.{Bytes, memcpy}
use crack_os.Storage.Sata.{Machine}

-- A result of -1, as the uint64_t with which it is compared.
abbrev pub minus_one : ℕ
minus_one = 2 ^ 64 - 1

-- `read` or `write` of a disk: offset, size and address of the buffer.
abbrev pub Request : Type 0 → Type 0
Request S = ℕ → ℕ → ℕ → Machine S → Run (ℕ × Machine S)

-- `x & ~(512ull - 1ull)`
abbrev pub whole_sectors : ℕ → ℕ
whole_sectors x = x / 512 * 512

-- `(newBuffer + 1ull) & ~1ull`
abbrev pub even : ℕ → ℕ
even p = add64 p 1 / 2 * 2

-- `offset / 512 == (offset + size - 1) / 512`
abbrev pub in_one_sector : ℕ → ℕ → Bool
in_one_sector offset size = offset / 512 == sub64 (add64 offset size) 1 / 512

module _ {S : Type 0} where
  abbrev pub copied : Machine S → ℕ → ℕ → ℕ → Machine S
  copied s destination source num = record s { memory = memcpy s.memory destination source num }

  -- Go on when the request had this result.
  abbrev pub expecting :
      ℕ → Run (ℕ × Machine S) → (Machine S → Run (ℕ × Machine S)) → Run (ℕ × Machine S)
  expecting wanted r next =
      r >>= λ out. if out.0 == wanted then next out.1 else ok (minus_one, out.1)

  module _ (me_read : Request S) (local : ℕ) where
    -- fixMissalignedOffsetRead, where `local` is the address of its sectorBuffer.
    pub fix_offset_read : Request S
    fix_offset_read offset size buffer s =
        let first_size = 512 - offset % 512 in
        if offset % 512 == 0
        then ok (minus_one, s)
        else if in_one_sector offset size
        then expecting 512 (me_read (whole_sectors offset) 512 local s)
            (λ s'. ok (size, copied s' buffer (local + offset % 512) size))
        else expecting 512 (me_read (whole_sectors offset) 512 local s) (λ s'.
          if add64 offset first_size % 512 == 0
          then expecting (sub64 size first_size)
              (me_read (add64 offset first_size) (sub64 size first_size) (buffer + first_size)
                (copied s' buffer (local + offset % 512) first_size))
              (λ s''. ok (size, s''))
          else ok (minus_one, copied s' buffer (local + offset % 512) first_size))

    -- fixMissalignedSizeRead, where `local` is the address of its lastAlignedBuffer.
    pub fix_size_read : Request S
    fix_size_read offset size buffer s =
        let aligned_size = whole_sectors size in
        if size % 512 == 0
        then ok (minus_one, s)
        else expecting aligned_size (me_read offset aligned_size buffer s) (λ s'. do
          last ← me_read (add64 offset aligned_size) 512 local s'
          let s'' = copied last.1 (buffer + aligned_size) local (size - aligned_size)
          ok (if last.0 == 512 then size else minus_one, s''))

    -- fixMissalignedBufferRead, where `local` is what `new` returns.
    pub fix_buffer_read : Request S
    fix_buffer_read offset size buffer s = if buffer % 2 == 0 then ok (minus_one, s) else do
      out ← me_read offset size (even local) s
      ok (out.0, copied out.1 buffer (even local) size)

  -- SATA::read, where `transfer` is its part for a request that is aligned.
  pub read_with : Request S → (ℕ → ℕ) → (ℕ → ℕ) → ℕ → Request S
  read_with transfer frame heap zero offset size buffer s = out_of_fuel
  read_with transfer frame heap (suc fuel) offset size buffer s =
      let me_read = read_with transfer frame heap fuel in
      elim (size == 0) [
        | true ↦ ok (0, s)
        | false ↦ elim (offset % 512 == 0) [
          | false ↦ fix_offset_read me_read (frame fuel) offset size buffer s
          | true ↦ elim (size % 512 == 0) [
            | false ↦ fix_size_read me_read (frame fuel) offset size buffer s
            | true ↦ elim (buffer % 2 == 0) [
              | false ↦ fix_buffer_read me_read (heap fuel) offset size buffer s
              | true ↦ transfer offset size buffer s
            ]
          ]
        ]
      ]

  module _ (me_read me_write : Request S) (local : ℕ) where
    -- fixMissalignedOffsetWrite, where `local` is the address of its sectorBuffer.
    pub fix_offset_write : Request S
    fix_offset_write offset size buffer s =
        let first_size = 512 - offset % 512 in
        if offset % 512 == 0
        then ok (minus_one, s)
        else if in_one_sector offset size
        then expecting 512 (me_read (whole_sectors offset) 512 local s) (λ s'.
          expecting 512
            (me_write (whole_sectors offset) 512 local
              (copied s' (local + offset % 512) buffer size))
            (λ s''. ok (size, s'')))
        else expecting 512 (me_read (whole_sectors offset) 512 local s) (λ s'.
          expecting 512
            (me_write (whole_sectors offset) 512 local
              (copied s' (local + offset % 512) buffer first_size))
            (λ s''.
              if add64 offset first_size % 512 == 0
              then expecting (sub64 size first_size)
                  (me_write (add64 offset first_size) (sub64 size first_size) (buffer + first_size)
                    s'')
                  (λ t. ok (size, t))
              else ok (minus_one, s'')))

    -- fixMissalignedSizeWrite, where `local` is the address of its lastAlignedBuffer.
    pub fix_size_write : Request S
    fix_size_write offset size buffer s =
        let aligned_size = whole_sectors size in
        if size % 512 == 0
        then ok (minus_one, s)
        else expecting aligned_size (me_write offset aligned_size buffer s) (λ s'.
          expecting 512 (me_read (add64 offset aligned_size) 512 local s') (λ s''.
            expecting 512
              (me_write (add64 offset aligned_size) 512 local
                (copied s'' local (buffer + aligned_size) (size - aligned_size)))
              (λ t. ok (size, t))))

  -- fixMissalignedBufferWrite, where `local` is what `new` returns.
  pub fix_buffer_write : Request S → ℕ → Request S
  fix_buffer_write me_write local offset size buffer s =
      if buffer % 2 == 0
      then ok (minus_one, s)
      else me_write offset size (even local) (copied s (even local) buffer size)

  -- SATA::write. The results of the functions above are dropped, and the transfer of the request
  -- follows whatever they did. `transfer_read` is the part of read for an aligned request.
  pub write_with : Request S → Request S → (ℕ → ℕ) → (ℕ → ℕ) → ℕ → Request S
  write_with transfer_read transfer frame heap zero offset size buffer s = out_of_fuel
  write_with transfer_read transfer frame heap (suc fuel) offset size buffer s =
      let me_read = read_with transfer_read frame heap fuel in
      let me_write = write_with transfer_read transfer frame heap fuel in
      do
        a ← elim (offset % 512 == 0) [
          | true ↦ ok (0, s)
          | false ↦ fix_offset_write me_read me_write (frame fuel) offset size buffer s
        ]
        b ← elim (size % 512 == 0) [
          | true ↦ ok (0, a.1)
          | false ↦ fix_size_write me_read me_write (frame fuel) offset size buffer a.1
        ]
        c ← elim (buffer % 2 == 0) [
          | true ↦ ok (0, b.1)
          | false ↦ fix_buffer_write me_write (heap fuel) offset size buffer b.1
        ]
        transfer offset size buffer c.1
