-- ===== src/Language/Bytes/Copy.antt =====
-- memcpy of src/LanguageFeatures/memory.cpp.
use crack_os.Base.{ℕ, zero, suc, ◌+◌, ◌<◌, ◌≤◌, ◌≡◌, ◌⊎◌, inl, refl, arith, ap, ◌∙◌}
use crack_os.Base.{update, update_self, update_ne}
use crack_os.Language.Bytes.{Bytes, copy_loop, memcpy}

copy_step :
    (left : ℕ) (m : Bytes) (d s i : ℕ)
    → copy_loop (suc left) m d s i ≡ copy_loop left (update m (d + i) (m (s + i))) d s (i + 1)
unfolding copy_loop
copy_step left m d s i = refl

copy_outside :
    (left : ℕ) (m : Bytes) (d s i q : ℕ)
    → ((q < d + i) ⊎ (d + i + left ≤ q))
    → copy_loop left m d s i q ≡ m q
unfolding copy_loop
copy_outside zero m d s i q h = refl
copy_outside (suc left) m d s i q h =
    copy_outside left (update m (d + i) (m (s + i))) d s (i + 1) q (ground arith)
    ∙ update_ne m (d + i) (m (s + i)) q (ground arith)

copy_inside :
    (left : ℕ) (m : Bytes) (d s i k q r : ℕ)
    → k < left
    → ((d ≤ s) ⊎ (s + i + left ≤ d + i))
    → q ≡ d + i + k
    → r ≡ s + i + k
    → copy_loop left m d s i q ≡ m r
unfolding copy_loop
copy_inside zero m d s i k q r h o is_q is_r = absurd (omega arith)
copy_inside (suc left) m d s i zero q r h o is_q is_r =
    let m' = update m (d + i) (m (s + i)) in
    copy_outside left m' d s (i + 1) q (inl (omega arith))
    ∙ ap m' {y = d + i} (omega arith)
    ∙ update_self m (d + i) (m (s + i))
    ∙ ap m {y = r} (omega arith)
copy_inside (suc left) m d s i (suc k) q r h o is_q is_r =
    copy_inside left (update m (d + i) (m (s + i))) d s (i + 1) k q r (omega arith) (ground arith)
      (omega arith) (omega arith)
    ∙ update_ne m (d + i) (m (s + i)) r (ground arith)

-- When the destination does not start inside the source behind its start, memcpy copies the bytes
-- of the source as they were, and changes no byte outside of the destination.
pub memcpy_lem :
    (m : Bytes) (destination source num : ℕ)
    → ((destination ≤ source) ⊎ (source + num ≤ destination))
    → ((k : ℕ) → k < num → memcpy m destination source num (destination + k) ≡ m (source + k))
      × ((q : ℕ)
          → ((q < destination) ⊎ (destination + num ≤ q))
          → memcpy m destination source num q ≡ m q)
unfolding memcpy
memcpy_lem m destination source num apart = (
  λ k h.
      copy_inside num m destination source 0 k (destination + k) (source + k) h (ground arith)
        (omega arith) (omega arith),
  λ q h. copy_outside num m destination source 0 q (ground arith),
)
