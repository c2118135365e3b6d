-- ===== src/Output/Vga/Scroll.antt =====
-- VGATextOut::scroll of src/BasicOutput/VGATextOut.cpp.
use crack_os.Base.{
  ℕ, zero, suc, ◌+◌, ◌-◌, ◌*◌, ◌<◌, ◌≤◌, ◌≡◌, ◌⊎◌, inl, inr, refl, arith, ap, ap₂, ◌∙◌,
}
use crack_os.Base.{ltb, ok, Bool-cases}
use crack_os.Language.Bytes.{Bytes, memcpy, memset}
use crack_os.Language.Bytes.Copy.{memcpy_lem}
use crack_os.Language.Bytes.Fill.{set_byte, memset_lem}
use crack_os.Output.Vga.{Screen, text_buffer, scroll_loop, scroll}

-- Between the offsets `from` and `to` of the screen, the bytes are those of the next line.
pub record Shifted (m m' : Bytes) (from to : ℕ) : Type 0 where
  pub inside : (k : ℕ) → from ≤ k → k < to → m' (text_buffer + k) ≡ m (text_buffer + (k + 160))
  pub outside : (q : ℕ) → ((q < text_buffer + from) ⊎ (text_buffer + to ≤ q)) → m' q ≡ m q

abbrev line_up : Bytes → ℕ → Bytes
line_up m n = memcpy m (text_buffer + n * 160) (text_buffer + (n + 1) * 160) 160

scroll_step :
    (left : ℕ) (m : Bytes) (n : ℕ)
    → scroll_loop (suc left) m (n + 1) ≡ scroll_loop left (line_up m n) (n + 1 + 1)
unfolding scroll_loop
scroll_step left m n =
    ap₂ (λ (d r : ℕ). scroll_loop left (memcpy m d r 160) (n + 1 + 1)) (omega arith) (omega arith)

line_up-Shifted : (m : Bytes) (n : ℕ) → Shifted m (line_up m n) (n * 160) (n * 160 + 160)
line_up-Shifted m n =
    let lem =
      memcpy_lem m (text_buffer + n * 160) (text_buffer + (n + 1) * 160) 160 (inl (omega arith)) in
    record {
      inside = λ k lo hi.
          ap (line_up m n) {y = text_buffer + n * 160 + (k - n * 160)} (omega arith)
          ∙ lem.0 (k - n * 160) (omega arith)
          ∙ ap m (omega arith);
      outside = λ q h. lem.1 q (ground arith);
    }

shift_lines :
    (left : ℕ) (m : Bytes) (n : ℕ)
    → Shifted m (scroll_loop left m (n + 1)) (n * 160) ((n + left) * 160)
unfolding scroll_loop
shift_lines zero m n = record { inside = λ k lo hi. absurd (omega arith); outside = λ q h. refl }
shift_lines (suc left) m n =
    let first = line_up-Shifted m n in
    let more = shift_lines left (line_up m n) (n + 1) in
    rw (scroll_step left m n) (record {
      inside = λ k lo hi. elim (Bool-cases (ltb k (n * 160 + 160))) [
        | inl here ↦
            more.outside (text_buffer + k) (inl (ground arith)) ∙ first.inside k lo (ground arith)
        | inr below ↦
            more.inside k (ground arith) (omega arith)
            ∙ first.outside (text_buffer + (k + 160)) (inr (ground arith))
      ];
      outside = λ q h. more.outside q (ground arith) ∙ first.outside q (ground arith);
    })

-- The screen after a scroll: each line but the last is the one below it, the last one is zero, the
-- cursor is at its start, and no byte outside of the screen changed.
pub record Scrolled (s s' : Screen) : Type 0 where
  pub index : s'.index ≡ 1920
  pub lines : (k : ℕ) → k < 24 * 160 → s'.mem (text_buffer + k) ≡ s.mem (text_buffer + (k + 160))
  pub last : (k : ℕ) → 24 * 160 ≤ k → k < 25 * 160 → s'.mem (text_buffer + k) ≡ 0
  pub outside : (q : ℕ) → ((q < text_buffer) ⊎ (text_buffer + 4000 ≤ q)) → s'.mem q ≡ s.mem q

scroll_runs :
    (s : Screen) (m : Bytes)
    → memset 161 (scroll_loop 24 s.mem 1) (text_buffer + 24 * 160) 0 160 ≡ ok m
    → scroll s ≡ ok (record { index = 1920; mem = m })
unfolding scroll
scroll_runs s m e = rw e (ap (λ (i : ℕ). ok (record { index = i; mem = m })) (omega arith))

set_byte_zero : (k : ℕ) → set_byte 0 160 k ≡ 0
set_byte_zero k = ground arith

-- scroll ends, and moves the lines of the screen up by one, clears the last one, puts the cursor at
-- its start and changes no other memory.
pub scroll-Scrolled : (s : Screen) → (s' : Screen) × (scroll s ≡ ok s') × Scrolled s s'
scroll-Scrolled s =
    let up = shift_lines 24 s.mem 0 in
    let (m, ran, zeros, rest) =
      memset_lem 161 (scroll_loop 24 s.mem 1) (text_buffer + 24 * 160) 0 160 (omega arith)
        (omega arith) (omega arith) in
    (
      record { index = 1920; mem = m },
      scroll_runs s m ran,
      record {
        index = refl;
        lines = λ k h.
            rest (text_buffer + k) (inl (omega arith)) ∙ up.inside k (omega arith) (omega arith);
        last = λ k lo hi.
            ap m {y = text_buffer + 24 * 160 + (k - 24 * 160)} (omega arith)
            ∙ zeros (k - 24 * 160) (omega arith)
            ∙ set_byte_zero (k - 24 * 160);
        outside = λ q h. rest q (ground arith) ∙ up.outside q (ground arith);
      },
    )
