-- ===== src/Storage/Sata/Transfer/Alignment.antt =====
-- SATA::read of src/Storage/SATA.cpp at every alignment, over its part for aligned requests.
use crack_os.Base.{
  ℕ, zero, suc, ◌+◌, ◌-◌, ◌/◌, ◌%◌, ◌^◌, ◌<◌, ◌≤◌, ◌≡◌, ◌≢◌, refl, arith, sym, subst,
}
use crack_os.Base.{Run, ok}
use native.Mathlib.Decide.{dec_lt}
use crack_os.Storage.Sata.{Machine}
use crack_os.Storage.Sata.Transfer.{Request, whole_sectors, even, fix_offset_read, read_with}
use crack_os.Storage.Sata.Transfer.Steps.{
  Apart-of_points, read_nothing, read_split, read_tail, read_odd, read_aligned,
}
use crack_os.Storage.Sata.Transfer.Reading.{
  Apart, Delivered, one_sector, several_sectors, fix_size_read-Delivered, fix_buffer_read-Delivered,
}

module _ {S : Type 0} (content : S → ℕ → ℕ) (Own : ℕ → Type 0) (limit : ℕ)
    (frame heap : ℕ → ℕ) where
  -- An address that no call of depth below `d` has in a buffer of its own. `Own` leaves out what
  -- the transfer of whole sectors writes beside its buffer.
  abbrev pub Clear : ℕ → ℕ → Type 0
  Clear zero q = Own q
  Clear (suc d) q = Clear d q × Apart q 1 (frame d) 512 × Apart q 1 (heap d) (limit + 2)

  -- The buffers of a call lie apart from those of the calls that it makes, and hold a sector.
  -- This is so up to the depth of calls that there is.
  pub record IsLayout (depth : ℕ) : Type 0 where
    pub sector_fits : 512 ≤ limit
    pub frame_clear : (d k : ℕ) → d < depth → k < 512 → Clear d (frame d + k)
    pub heap_clear : (d k : ℕ) → d < depth → k < limit + 2 → Clear d (heap d + k)
    pub heap_fits : (d : ℕ) → d < depth → heap d + limit + 2 < 2 ^ 64

  -- A request that the theorems are about.
  pub record IsRequest (d offset size buffer : ℕ) : Type 0 where
    pub in_range : offset + size < 2 ^ 63
    pub limited : size ≤ limit
    pub clear : (k : ℕ) → k < size → Clear d (buffer + k)

  -- A transfer of whole sectors to an even address delivers their bytes.
  abbrev pub Transfers : Request S → Type 0
  Transfers transfer =
      (offset size buffer : ℕ) (s : Machine S)
      → 0 < size
      → offset % 512 ≡ 0
      → size % 512 ≡ 0
      → buffer % 2 ≡ 0
      → IsRequest 0 offset size buffer
      → Delivered content Own offset size buffer s (transfer offset size buffer s)

  weaken :
      (Kept Outer : ℕ → Type 0) (offset size buffer : ℕ) (s : Machine S) (out : Run (ℕ × Machine S))
      → ((q : ℕ) → Outer q → Kept q)
      → Delivered content Kept offset size buffer s out
      → Delivered content Outer offset size buffer s out
  weaken Kept Outer offset size buffer s out narrow r = record {
    after = r.after;
    returned = r.returned;
    bytes = r.bytes;
    rest = λ q o. r.rest q (narrow q o);
    same_disk = r.same_disk;
  }

  lower :
      (d offset size buffer : ℕ)
      → IsRequest (suc d) offset size buffer
      → IsRequest d offset size buffer
  lower d offset size buffer r = record {
    in_range = r.in_range;
    limited = r.limited;
    clear = λ k h. (r.clear k h).0;
  }

  owned : (d q : ℕ) → Clear d q → Own q
  owned zero q c = c
  owned (suc d) q c = owned d q c.0

  request_owned :
      (d offset size buffer : ℕ) → IsRequest d offset size buffer → IsRequest 0 offset size buffer
  request_owned d offset size buffer r = record {
    in_range = r.in_range;
    limited = r.limited;
    clear = λ k h. owned d (buffer + k) (r.clear k h);
  }

  -- A delivery through an equation of the outcomes.
  along :
      (Kept : ℕ → Type 0) (offset size buffer : ℕ) (s : Machine S) {a b : Run (ℕ × Machine S)}
      → a ≡ b
      → Delivered content Kept offset size buffer s b
      → Delivered content Kept offset size buffer s a
  along Kept offset size buffer s e r =
      subst (Delivered content Kept offset size buffer s) (sym e) r

  nothing :
      (Kept : ℕ → Type 0) (offset buffer : ℕ) (s : Machine S)
      → Delivered content Kept offset 0 buffer s (ok (0, s))
  nothing Kept offset buffer s = record {
    after = s;
    returned = refl;
    bytes = λ k h. absurd (omega arith);
    rest = λ q k a. refl;
    same_disk = λ j. refl;
  }

  module _ (depth : ℕ) (layout : IsLayout depth) (transfer : Request S)
      (transfers : Transfers transfer) where
    read_even :
        (f offset size buffer : ℕ) (s : Machine S)
        → offset % 512 ≡ 0
        → size % 512 ≡ 0
        → 0 < size
        → buffer % 2 ≡ 0
        → IsRequest 0 offset size buffer
        → Delivered content Own offset size buffer s
            (read_with transfer frame heap (suc f) offset size buffer s)
    read_even f offset size buffer s o z h b r =
        along Own offset size buffer s
          (read_aligned transfer frame heap f offset size buffer s o z h b)
          (transfers offset size buffer s h o z b r)

    through_heap :
        (f offset size buffer : ℕ) (s : Machine S)
        → f + 2 ≤ depth
        → offset % 512 ≡ 0
        → size % 512 ≡ 0
        → 0 < size
        → buffer % 2 ≢ 0
        → IsRequest (suc (suc f)) offset size buffer
        → Delivered content
            (Clear (suc (suc f)))
            offset
            size
            buffer
            s
            (read_with transfer frame heap (suc (suc f)) offset size buffer s)
    through_heap f offset size buffer s deep o z h b r =
        let d = suc f in
        let local = heap d in
        let fits = layout.heap_fits d (omega arith) in
        let limited = r.limited in
        let shift : ℕ = even local - local in
        let at_shift : local + shift ≡ even local = omega arith in
        let clear_at : (k : ℕ) → k < size → Clear d (even local + k) = λ k lt.
          subst (Clear d) {x = local + (shift + k)} (omega arith)
            (layout.heap_clear d (shift + k) (omega arith) (omega arith)) in
        along (Clear (suc d)) offset size buffer s
          (read_odd transfer frame heap d offset size buffer s o z h b)
          (fix_buffer_read-Delivered content (Clear d) (Clear (suc d))
            (read_with transfer frame heap d) local offset size buffer s b
            (Apart-of_points buffer size (even local) size h h
              (λ k lt. let c = (r.clear k lt).2 in ground arith))
            (λ q c. let a = c.2 in (c.0, ground arith))
            (weaken Own (Clear d) offset size (even local) s
              (read_with transfer frame heap d offset size (even local) s) (owned d)
              (read_even f offset size (even local) s o z h (omega arith) (
                request_owned d offset size (even local)
                  (record { in_range = r.in_range; limited = r.limited; clear = clear_at })))))

    -- Whole sectors, to any address.
    read_sectors :
        (f offset size buffer : ℕ) (s : Machine S)
        → f + 2 ≤ depth
        → offset % 512 ≡ 0
        → size % 512 ≡ 0
        → IsRequest (suc (suc f)) offset size buffer
        → Delivered content
            (Clear (suc (suc f)))
            offset
            size
            buffer
            s
            (read_with transfer frame heap (suc (suc f)) offset size buffer s)
    read_sectors f offset zero buffer s deep o z r =
        along (Clear (suc (suc f))) offset zero buffer s
          (read_nothing transfer frame heap (suc f) offset zero buffer s refl)
          (nothing (Clear (suc (suc f))) offset buffer s)
    read_sectors f offset (suc n) buffer s deep o z r = elim (dec_lt 0 (buffer % 2)) [
      | no is_even ↦
          weaken Own (Clear (suc (suc f))) offset (suc n) buffer s
            (read_with transfer frame heap (suc (suc f)) offset (suc n) buffer s)
            (owned (suc (suc f)))
            (read_even (suc f) offset (suc n) buffer s o z (omega arith) (omega arith)
              (request_owned (suc (suc f)) offset (suc n) buffer r))
      | yes is_odd ↦ through_heap f offset (suc n) buffer s deep o z (omega arith) (omega arith) r
    ]

    -- One sector, to the buffer of the call itself.
    read_frame :
        (f sector : ℕ) (s : Machine S)
        → f + 3 ≤ depth
        → sector % 512 ≡ 0
        → sector + 512 < 2 ^ 63
        → let d = suc (suc f) in
          Delivered content
            (Clear d)
            sector
            512
            (frame d)
            s
            (read_with transfer frame heap d sector 512 (frame d) s)
    read_frame f sector s deep o in_range =
        read_sectors f sector 512 (frame (suc (suc f))) s (omega arith) o (omega arith) (record {
          in_range = in_range;
          limited = layout.sector_fits;
          clear = λ k lt. layout.frame_clear (suc (suc f)) k (omega arith) lt;
        })

    -- From the start of a sector on.
    read_from_sector :
        (f offset size buffer : ℕ) (s : Machine S)
        → f + 3 ≤ depth
        → offset % 512 ≡ 0
        → offset + size + 512 < 2 ^ 63
        → IsRequest (suc (suc (suc f))) offset size buffer
        → Delivered content
            (Clear (suc (suc (suc f))))
            offset
            size
            buffer
            s
            (read_with transfer frame heap (suc (suc (suc f))) offset size buffer s)
    read_from_sector f offset size buffer s deep o in_range r = elim (dec_lt 0 (size % 512)) [
      | no whole ↦ read_sectors (suc f) offset size buffer s (omega arith) o (omega arith) r
      | yes part ↦
          let d = suc (suc f) in
          let n = whole_sectors size in
          let limited = r.limited in
          along (Clear (suc d)) offset size buffer s
            (read_tail transfer frame heap d offset size buffer s o (omega arith))
            (fix_size_read-Delivered content (Clear d) (Clear (suc d))
              (read_with transfer frame heap d) (frame d) (λ q c. (c.0, c.1)) offset size buffer s
              (omega arith) r.in_range
              (Apart-of_points buffer size (frame d) 512 (omega arith) (omega arith)
                (λ k lt. (r.clear k lt).1))
              (λ k lt. (r.clear k lt).0)
              (read_sectors f offset n buffer s (omega arith) o (omega arith) (record {
                in_range = omega arith;
                limited = omega arith;
                clear = λ k lt. (r.clear k (omega arith)).0;
              }))
              (λ t. read_frame f (offset + n) t (omega arith) (omega arith) (omega arith)))
    ]

    -- From inside of a sector on.
    from_inside :
        (f offset size buffer : ℕ) (s : Machine S)
        → f + 4 ≤ depth
        → 0 < offset % 512
        → 0 < size
        → offset + size + 512 < 2 ^ 63
        → let d = suc (suc (suc f)) in
          IsRequest (suc d) offset size buffer
          → Delivered content
              (Clear (suc d))
              offset
              size
              buffer
              s
              (fix_offset_read (read_with transfer frame heap d) (frame d) offset size buffer s)
    from_inside f offset size buffer s deep inside some_bytes in_range r =
        let d = suc (suc (suc f)) in
        let limited = r.limited in
        let apart =
          Apart-of_points buffer size (frame d) 512 some_bytes (omega arith)
            (λ k lt. (r.clear k lt).1) in
        let first =
          read_frame (suc f) (whole_sectors offset) s (omega arith) (omega arith) (omega arith) in
        elim (dec_lt (offset / 512) ((offset + size - 1) / 512)) [
          | no one ↦
              one_sector content (Clear d) (Clear (suc d)) (read_with transfer frame heap d)
                (frame d) (λ q c. (c.0, c.1)) offset size buffer s (omega arith) some_bytes
                r.in_range (omega arith) apart first
          | yes more ↦
              several_sectors content (Clear d) (Clear (suc d)) (read_with transfer frame heap d)
                (frame d) (λ q c. (c.0, c.1)) offset size buffer s (omega arith) r.in_range more
                apart (λ k lt. (r.clear k lt).0) first
                (λ t.
                  let n : ℕ = 512 - offset % 512 in
                  read_from_sector f (offset + n) (size - n) (buffer + n) t (omega arith)
                    (omega arith) (omega arith)
                    (record {
                      in_range = omega arith;
                      limited = omega arith;
                      clear = λ k lt.
                          subst (Clear d) {x = buffer + (n + k)} (omega arith)
                            ((r.clear (n + k) (omega arith)).0);
                    }))
        ]

    -- With four calls of depth, SATA::read ends at every offset, size and address, and returns
    -- `size`, with the bytes of the disk in the buffer. Beside it and the buffers of the calls
    -- nothing changes but what the transfer of whole sectors changes. This holds when that
    -- transfer delivers the bytes of an aligned request, and the buffers lie apart.
    pub read_with-Delivered :
        (f offset size buffer : ℕ) (s : Machine S)
        → f + 4 ≤ depth
        → offset + size + 512 < 2 ^ 63
        → IsRequest (suc (suc (suc (suc f)))) offset size buffer
        → Delivered content
            (Clear (suc (suc (suc (suc f)))))
            offset
            size
            buffer
            s
            (read_with transfer frame heap (suc (suc (suc (suc f)))) offset size buffer s)
    read_with-Delivered f offset zero buffer s deep in_range r =
        let d = suc (suc (suc f)) in
        along (Clear (suc d)) offset zero buffer s
          (read_nothing transfer frame heap d offset zero buffer s refl)
          (nothing (Clear (suc d)) offset buffer s)
    read_with-Delivered f offset (suc n) buffer s deep in_range r = elim (dec_lt 0 (offset % 512)) [
      | no aligned ↦
          read_from_sector (suc f) offset (suc n) buffer s (omega arith) (omega arith) in_range r
      | yes inside ↦
          let d = suc (suc (suc f)) in
          along (Clear (suc d)) offset (suc n) buffer s
            (read_split transfer frame heap d offset (suc n) buffer s (omega arith) (omega arith))
            (from_inside f offset (suc n) buffer s deep inside (omega arith) in_range r)
    ]
