-- ===== src/Cpu/Interrupts/Lines.antt =====
-- The lines of the PICs in src/CPUControl/interrupts.cpp: their masks, and the end of an interrupt.
use native.Mathlib.Nat.{pow-suc}
use mathlib.Core.List.{append_assoc, append-nil}
use crack_os.Base.{
  ℕ, zero, suc, ◌+◌, ◌/◌, ◌%◌, ◌^◌, ◌<◌, ◌≤◌, ◌≡◌, refl, arith, ap, sym, ◌∙◌, Bool, true, false,
  List, [], ◌∷◌, ◌++◌, inl, inr,
}
use crack_os.Base.{Bool-cases, ltb, leb, ◌==◌, if◌then◌else◌, Run, ok, ◌>>=◌}
use crack_os.Language.Bytes.{Bytes}
use crack_os.Acpi.Apic.{Device, Apic, set_interrupt_enabled}
use crack_os.Acpi.Apic.Local.{send_end_of_interrupt}
use native.Mathlib.Decide.{ℕ_discrete}
use crack_os.Cpu.Interrupts.{
  Interrupts, pic, pic1_command, pic1_data, pic2_command, pic2_data, remap_pic_interrupts, mask_bit,
  cleared, with_bit, send_pic_end, set_pic_interrupt, is_hardware_interrupt_enabled,
  set_hardware_interrupt_enabled, send_eoi, global_interrupt,
}

-- Clearing or setting one bit.
mask_bit-cleared :
    (n k mask : ℕ) → mask_bit (cleared mask n) k ≡ (if k == n then 0 else mask_bit mask k)
unfolding mask_bit cleared
mask_bit-cleared zero zero mask = omega arith
mask_bit-cleared zero (suc k) mask =
    ap (λ (x : ℕ). mask_bit x k) {y = mask / 2} (omega arith) ∙ ground arith
mask_bit-cleared (suc n) zero mask = ground arith
mask_bit-cleared (suc n) (suc k) mask =
    ap (λ (x : ℕ). mask_bit x k) {y = cleared (mask / 2) n} (omega arith)
    ∙ mask_bit-cleared n k (mask / 2)
    ∙ ground arith

mask_bit-with_bit :
    (n k mask : ℕ) → mask_bit (with_bit mask n) k ≡ (if k == n then 1 else mask_bit mask k)
unfolding mask_bit with_bit
mask_bit-with_bit zero zero mask = omega arith
mask_bit-with_bit zero (suc k) mask =
    ap (λ (x : ℕ). mask_bit x k) {y = mask / 2} (omega arith) ∙ ground arith
mask_bit-with_bit (suc n) zero mask = ground arith
mask_bit-with_bit (suc n) (suc k) mask =
    ap (λ (x : ℕ). mask_bit x k) {y = with_bit (mask / 2) n} (omega arith)
    ∙ mask_bit-with_bit n k (mask / 2)
    ∙ ground arith

with_bit_bound : (w n mask : ℕ) → mask < 2 ^ w → n < w → with_bit mask n < 2 ^ w
unfolding with_bit
with_bit_bound zero n mask h k = absurd (omega arith)
with_bit_bound (suc w) zero mask h k = omega (arith, pow-suc 2 w)
with_bit_bound (suc w) (suc n) mask h k =
    omega
      (arith, pow-suc 2 w, with_bit_bound w n (mask / 2) (omega (arith, pow-suc 2 w)) (omega arith))

mask_bit-zero : (k : ℕ) → mask_bit 0 k ≡ 0
unfolding mask_bit
mask_bit-zero zero = refl
mask_bit-zero (suc k) = mask_bit-zero k

mask_bit-above : (w k mask : ℕ) → mask < 2 ^ w → w ≤ k → mask_bit mask k ≡ 0
unfolding mask_bit
mask_bit-above zero k mask h le =
    ap (λ (x : ℕ). mask_bit x k) {y = 0} (omega arith) ∙ mask_bit-zero k
mask_bit-above (suc w) zero mask h le = absurd (omega arith)
mask_bit-above (suc w) (suc k) mask h le =
    mask_bit-above w k (mask / 2) (omega (arith, pow-suc 2 w)) (omega arith)

-- What the PICs are told at the end of the interrupt of the line `k`.
abbrev pub acknowledged : ℕ → List (ℕ × ℕ)
acknowledged k =
    if k == 0
    then []
    else if ltb k 8
    then (pic1_command, 0x20) ∷ []
    else (pic2_command, 0x20) ∷ (pic1_command, 0x20) ∷ []

cleared_bound : (n mask : ℕ) → cleared mask n ≤ mask
unfolding cleared
cleared_bound zero mask = omega arith
cleared_bound (suc n) mask = omega (arith, cleared_bound n (mask / 2))

-- The mask after a change.
abbrev changed : ℕ → Bool → ℕ → ℕ
changed n enabled mask = if enabled then cleared mask n else with_bit mask n % 2 ^ 16

changed_bound :
    (n : ℕ) (enabled : Bool) (mask : ℕ) → mask < 2 ^ 16 → changed n enabled mask < 2 ^ 16
changed_bound n true mask h = omega (arith, cleared_bound n mask)
changed_bound n false mask h = omega arith

changed_bit :
    (n : ℕ) (enabled : Bool) (mask k : ℕ)
    → mask < 2 ^ 16
    → n < 16
    → (mask_bit (changed n enabled mask) k == 0)
      ≡ (if k == n then enabled else mask_bit mask k == 0)
changed_bit n true mask k h small =
    ap (λ (x : ℕ). x == 0) (mask_bit-cleared n k mask) ∙ ground arith
changed_bit n false mask k h small =
    let fits : with_bit mask n % 2 ^ 16 ≡ with_bit mask n =
      omega (arith, with_bit_bound 16 n mask h small) in
    ap (λ (x : ℕ). mask_bit x k == 0) fits
    ∙ ap (λ (x : ℕ). x == 0) (mask_bit-with_bit n k mask)
    ∙ ground arith

send_pic_end_lem :
    (k : ℕ) (s : Interrupts)
    → send_pic_end (s.offset + k) s ≡ record s { ports = s.ports ++ acknowledged k }
unfolding send_pic_end
send_pic_end_lem k s = elim (ℕ_discrete k 0) [
  | yes z ↦
      let e : ltb s.offset (s.offset + k) ≡ false = ground arith in
      let e0 : (k == 0) ≡ true = ground arith in
      rw (e, e0) (ap (λ (l : List (ℕ × ℕ)). record s { ports = l }) (sym (append-nil s.ports)))
  | no some_line ↦
      let e : ltb s.offset (s.offset + k) ≡ true = ground arith in
      let e0 : (k == 0) ≡ false = ground arith in
      elim (Bool-cases (ltb k 8)) [
        | inl first ↦
            let f : leb (s.offset + 8) (s.offset + k) ≡ false = ground arith in
            rw (e, e0, f, first) refl
        | inr second ↦
            let f : leb (s.offset + 8) (s.offset + k) ≡ true = ground arith in
            rw (e, e0, f, second)
              (ap (λ (l : List (ℕ × ℕ)). record s { ports = l })
                (append_assoc s.ports ((pic2_command, 0x20) ∷ []) ((pic1_command, 0x20) ∷ [])))
      ]
]

module _ {D : Type 0} (device : Device D) (fuel : ℕ) (m : Bytes) (a : Apic) (s : Interrupts) (d : D)
    (old : s.apic_enabled ≡ false) where
  abbrev no_pic : D
  no_pic = if s.apic_enabled then send_end_of_interrupt device a d else d

  abbrev with_apic : ℕ → Bool → Run (Interrupts × D)
  with_apic n enabled = do
    (global, d1) ← global_interrupt device fuel m a n d
    (done, d2) ← set_interrupt_enabled device fuel m a global enabled d1
    ok (s, d2)

  asked :
      (t : Interrupts) (k : ℕ)
      → t.apic_enabled ≡ false
      → t.is_active ≡ true
      → is_hardware_interrupt_enabled device fuel m a pic k t d
        ≡ ok (mask_bit t.hardware_interrupt_mask k == 0, d)
  unfolding is_hardware_interrupt_enabled
  asked t k off active =
      rw (off, is_hardware_interrupt_enabled)
        (ap (λ (b : Bool). ok (if b then mask_bit t.hardware_interrupt_mask k == 0 else false, d))
          active)

  -- While the PICs are used and their mask has 16 bits, setHardwareInterruptEnabled for one of
  -- their 16 lines changes what isHardwareInterruptEnabled answers for that line and for no other,
  -- keeps the mask in 16 bits, and writes its two bytes to the two controllers.
  pub set_hardware_interrupt_enabled-is_hardware_interrupt_enabled :
      (n : ℕ) (enabled : Bool)
      → s.is_active ≡ true
      → s.hardware_interrupt_mask < 2 ^ 16
      → n < 16
      → (t : Interrupts) × (set_hardware_interrupt_enabled device fuel m a pic n enabled s d
          ≡ ok (t, d))
        × ((k : ℕ)
            → is_hardware_interrupt_enabled device fuel m a pic k t d
              ≡ ok (if k == n then enabled else mask_bit s.hardware_interrupt_mask k == 0, d))
        × (t.hardware_interrupt_mask < 2 ^ 16)
        × (t.ports
            ≡ s.ports
              ++ (pic1_data, t.hardware_interrupt_mask % 2 ^ 8)
                ∷ (pic2_data, t.hardware_interrupt_mask / 2 ^ 8)
                ∷ [])
  unfolding set_hardware_interrupt_enabled is_hardware_interrupt_enabled
  set_hardware_interrupt_enabled-is_hardware_interrupt_enabled n enabled active small line =
      let mask = changed n enabled s.hardware_interrupt_mask in
      (
        set_pic_interrupt n enabled s,
        ap
              (λ (b : Bool). elim b as (λ _. Run (Interrupts × D)) [
                | true ↦ with_apic n enabled
                | false ↦ ok (if s.is_active then set_pic_interrupt n enabled s else s, d)
              ])
              old
            ∙ ap (λ (b : Bool). ok (if b then set_pic_interrupt n enabled s else s, d)) active,
        λ k.
            asked (set_pic_interrupt n enabled s) k old active
            ∙ ap (λ (b : Bool). ok (b, d))
                (changed_bit n enabled s.hardware_interrupt_mask k small line),
        changed_bound n enabled s.hardware_interrupt_mask small,
        append_assoc s.ports ((pic1_data, mask % 2 ^ 8) ∷ []) ((pic2_data, mask / 2 ^ 8) ∷ []),
      )

  -- Which controllers sendEOI tells about the end of the interrupt of a line: none for the line 0.
  pub send_eoi-acknowledged :
      (k : ℕ)
      → s.is_active ≡ true
      → send_eoi device fuel m a (s.offset + k) s d
        ≡ (record s { ports = s.ports ++ acknowledged k }, d)
  unfolding send_eoi send_pic_end
  send_eoi-acknowledged k active =
      ap (λ (b : Bool). if b then (send_pic_end (s.offset + k) s, d) else (s, no_pic)) active
      ∙ ap (λ (t : Interrupts). (t, d)) (send_pic_end_lem k s)

  -- After remapPICInterrupts, which masks every line of both controllers, the lines of the second
  -- one are reported as enabled.
  pub remap_pic_interrupts-is_hardware_interrupt_enabled :
      (offset k : ℕ)
      → is_hardware_interrupt_enabled device fuel m a pic (8 + k) (remap_pic_interrupts offset s) d
        ≡ ok (true, d)
  remap_pic_interrupts-is_hardware_interrupt_enabled offset k =
      asked (remap_pic_interrupts offset s) (8 + k) old refl
      ∙ ap (λ (x : ℕ). ok (x == 0, d)) (mask_bit-above 8 (8 + k) 0xFF (omega arith) (omega arith))
