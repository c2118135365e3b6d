-- ===== src/Cpu/Interrupts/Vectors.antt =====
-- setupInterruptVectorTable of src/CPUControl/interrupts.cpp: its loops and setups.
pub mod Ready
use crack_os.Base.{
  ℕ, zero, suc, ◌+◌, ◌-◌, ◌*◌, ◌/◌, ◌%◌, ◌^◌, ◌<◌, ◌≤◌, ◌≡◌, ◌≢◌, refl, arith, ap, ap₂, sym, ◌∙◌,
  Bool, true, false, ◌&&◌, ◌⊎◌, inl, inr, List,
}
use native.Mathlib.Decide.{ℕ_discrete}
use crack_os.Base.{ltb, leb, ◌==◌, if◌then◌else◌, update, update_self, update_ne}
use crack_os.Cpu.Interrupts.{
  Interrupts, Handlers, setup_interrupt_handler, handler_loop, on_stack, load_table,
  setup_interrupt_vector_table, lidt_data,
}
use crack_os.Cpu.Gates.{
  InterruptGate, InterruptOptions, empty_gate, set_gate, handler_gate, fill_loop,
  fill_interrupt_vector_table,
}

fill_loop_before :
    (left : ℕ) (entry : ℕ → ℕ) (i : ℕ) (gates : ℕ → InterruptGate) (j : ℕ)
    → j < i
    → fill_loop left entry i gates j ≡ gates j
unfolding fill_loop
fill_loop_before zero entry i gates j h = refl
fill_loop_before (suc left) entry i gates j h =
    fill_loop_before left entry (i + 1) (update gates i (set_gate (gates i) (entry i))) j
      (omega arith)
    ∙ update_ne gates i (set_gate (gates i) (entry i)) j (omega arith)

pub fill_loop_lem :
    (left : ℕ) (entry : ℕ → ℕ) (i : ℕ) (gates : ℕ → InterruptGate) (j : ℕ)
    → i ≤ j
    → j < i + left
    → fill_loop left entry i gates j ≡ set_gate (gates j) (entry j)
unfolding fill_loop
fill_loop_lem zero entry i gates j h k = absurd (omega arith)
fill_loop_lem (suc left) entry i gates j h k =
    let next = update gates i (set_gate (gates i) (entry i)) in
    elim (ℕ_discrete j i) [
      | yes here ↦
          fill_loop_before left entry (i + 1) next j (omega arith)
          ∙ ap next here
          ∙ update_self gates i (set_gate (gates i) (entry i))
          ∙ ap (λ (n : ℕ). set_gate (gates n) (entry n)) (sym here)
      | no later ↦
          fill_loop_lem left entry (i + 1) next j (omega arith) (omega arith)
          ∙ ap (λ (g : InterruptGate). set_gate g (entry j))
              (update_ne gates i (set_gate (gates i) (entry i)) j later)
    ]

-- What a vector is after a handler is set up for it: the handler and the gate.
abbrev pub vector_of : Interrupts → ℕ → ℕ × InterruptGate
vector_of s j = (s.callbacks j, s.gates j)

pub setup_here :
    (n handler : ℕ) (options : InterruptOptions) (s : Interrupts)
    → handler ≢ 0
    → (vector_of (setup_interrupt_handler n handler options s) n
        ≡ (handler, handler_gate (s.gates n) options))
      × ((setup_interrupt_handler n handler options s).flag ≡ s.flag)
unfolding setup_interrupt_handler
setup_here n handler options s h =
    let some_handler : (handler == 0) ≡ false = ground arith in
    rw (some_handler, setup_interrupt_handler)
      (
        ap₂ (λ (c : ℕ) (g : InterruptGate). (c, g)) (update_self s.callbacks n handler)
            (update_self s.gates n (handler_gate (s.gates n) options)),
        refl,
      )

pub setup_elsewhere :
    (n handler : ℕ) (options : InterruptOptions) (s : Interrupts) (j : ℕ)
    → handler ≢ 0
    → j ≢ n
    → vector_of (setup_interrupt_handler n handler options s) j ≡ vector_of s j
unfolding setup_interrupt_handler
setup_elsewhere n handler options s j h other =
    let some_handler : (handler == 0) ≡ false = ground arith in
    rw (some_handler, setup_interrupt_handler)
      (ap₂ (λ (c : ℕ) (g : InterruptGate). (c, g)) (update_ne s.callbacks n handler j other)
        (update_ne s.gates n (handler_gate (s.gates n) options) j other))

handler_loop_before :
    (left handler i : ℕ) (s : Interrupts) (j : ℕ)
    → handler ≢ 0
    → j < i
    → vector_of (handler_loop left handler i s) j ≡ vector_of s j
unfolding handler_loop
handler_loop_before zero handler i s j h k = refl
handler_loop_before (suc left) handler i s j h k =
    handler_loop_before left handler (i + 1) (setup_interrupt_handler i handler (on_stack 2) s) j h
      (omega arith)
    ∙ setup_elsewhere i handler (on_stack 2) s j h (omega arith)

pub handler_loop_lem :
    (left handler i : ℕ) (s : Interrupts) (j : ℕ)
    → handler ≢ 0
    → i ≤ j
    → j < i + left
    → vector_of (handler_loop left handler i s) j ≡ (handler, handler_gate (s.gates j) (on_stack 2))
unfolding handler_loop
handler_loop_lem zero handler i s j h low high = absurd (omega arith)
handler_loop_lem (suc left) handler i s j h low high =
    let t = setup_interrupt_handler i handler (on_stack 2) s in
    elim (ℕ_discrete j i) [
      | yes here ↦
          handler_loop_before left handler (i + 1) t j h (omega arith)
          ∙ ap (vector_of t) here
          ∙ (setup_here i handler (on_stack 2) s h).0
          ∙ ap (λ (n : ℕ). (handler, handler_gate (s.gates n) (on_stack 2))) (sym here)
      | no later ↦
          handler_loop_lem left handler (i + 1) t j h (omega arith) (omega arith)
          ∙ ap (λ (v : ℕ × InterruptGate). (handler, handler_gate v.1 (on_stack 2)))
              (setup_elsewhere i handler (on_stack 2) s j h later)
    ]

pub handler_loop_flag :
    (left handler i : ℕ) (s : Interrupts)
    → handler ≢ 0
    → (handler_loop left handler i s).flag ≡ s.flag
unfolding handler_loop
handler_loop_flag zero handler i s h = refl
handler_loop_flag (suc left) handler i s h =
    handler_loop_flag left handler (i + 1) (setup_interrupt_handler i handler (on_stack 2) s) h
    ∙ (setup_here i handler (on_stack 2) s h).1
