-- ===== src/Cpu/Interrupts/Vectors/Ready.antt =====
-- setupInterruptVectorTable of src/CPUControl/interrupts.cpp: what stands in the table after it.
use crack_os.Base.{ℕ, ◌+◌, ◌*◌, ◌^◌, ◌<◌, ◌≡◌, ◌≢◌, arith, ap, sym, ◌∙◌, true, false}
use native.Mathlib.Decide.{ℕ_discrete}
use crack_os.Base.{◌==◌, ltb, if◌then◌else◌}
use crack_os.Base.{List, [], ◌∷◌, Bool, Run, ok, stopped, ◌>>=◌, not}
use crack_os.Language.Bytes.{Bytes}
use crack_os.Acpi.Apic.{Device, Apic}
use crack_os.Cpu.Interrupts.{
  send_eoi, Interrupts, Handlers, setup_interrupt_handler, handler_loop, on_stack, load_table,
  setup_interrupt_vector_table,
}
use crack_os.Cpu.Gates.{
  InterruptGate, empty_gate, set_gate, handler_gate, fill_interrupt_vector_table,
}
use crack_os.Cpu.Interrupts.Entry.{
  Interrupt, takes_error, interrupt_of, entry_function, generic_interrupt_handler,
}
use crack_os.Cpu.Interrupts.Vectors.{
  fill_loop_lem, setup_here, setup_elsewhere, handler_loop_lem, handler_loop_flag, vector_of,
}

-- The function that is called for a vector, and the stack that it runs on.
abbrev pub handler_of : Handlers → ℕ → ℕ × ℕ
handler_of h j =
    if j == 14
    then (h.on_page_fault, 1)
    else if j == 6
    then (h.on_invalid_opcode, 1)
    else (h.system_error, 2)

-- A vector that leads to `entry`, open to user mode, and from there to a handler.
pub record IsReady (s : Interrupts) (entry handler stack j : ℕ) : Type 0 where
  pub callback : s.callbacks j ≡ handler
  pub address :
      (s.gates j).low_address
        + (s.gates j).middle_address * 2 ^ 16
        + (s.gates j).high_address * 2 ^ 32
      ≡ entry
  pub present : (s.gates j).present ≡ true
  pub type : (s.gates j).type ≡ 0xE
  pub selector : (s.gates j).segment_selector ≡ 8
  pub privilege : (s.gates j).descriptor_privilege_level ≡ 3
  pub stack_of : (s.gates j).interrupt_stack ≡ stack

gate-IsReady :
    (s : Interrupts) (entry handler stack j : ℕ) (g : InterruptGate)
    → entry < 2 ^ 64
    → stack < 2 ^ 3
    → vector_of s j ≡ (handler, handler_gate (set_gate g entry) (on_stack stack))
    → IsReady s entry handler stack j
gate-IsReady s entry handler stack j g small few e =
    let gate : s.gates j ≡ handler_gate (set_gate g entry) (on_stack stack) =
      ap (λ (v : ℕ × InterruptGate). v.1) e in
    record {
      callback = ap (λ (v : ℕ × InterruptGate). v.0) e;
      address =
          ap
            (λ (x : InterruptGate).
              x.low_address + x.middle_address * 2 ^ 16 + x.high_address * 2 ^ 32)
            gate
          ∙ omega arith;
      present = ap (λ (x : InterruptGate). x.present) gate;
      type = ap (λ (x : InterruptGate). x.type) gate;
      selector = ap (λ (x : InterruptGate). x.segment_selector) gate;
      privilege = ap (λ (x : InterruptGate). x.descriptor_privilege_level) gate;
      stack_of = ap (λ (x : InterruptGate). x.interrupt_stack) gate ∙ omega arith;
    }

module _ (entry : ℕ → ℕ) (table : ℕ) (h : Handlers) (s : Interrupts) (j : ℕ) (small : j < 256)
    (some_error : h.system_error ≢ 0) (some_opcode : h.on_invalid_opcode ≢ 0)
    (some_fault : h.on_page_fault ≢ 0) where
  abbrev looped : Interrupts
  looped = handler_loop 256 h.system_error 0 (load_table entry table s)

  abbrev with_opcode : Interrupts
  with_opcode = setup_interrupt_handler 6 h.on_invalid_opcode (on_stack 1) looped

  filled : (load_table entry table s).gates j ≡ set_gate empty_gate (entry j)
  unfolding fill_interrupt_vector_table
  filled = fill_loop_lem 256 entry 0 (λ _. empty_gate) j (omega arith) (omega arith)

  -- The vector after the loop; each setup sets all fields but those of the address.
  in_loop :
      vector_of looped j
      ≡ (h.system_error, handler_gate (set_gate empty_gate (entry j)) (on_stack 2))
  in_loop =
      handler_loop_lem 256 h.system_error 0 (load_table entry table s) j some_error (omega arith)
        (omega arith)
      ∙ ap (λ (g : InterruptGate). (h.system_error, handler_gate g (on_stack 2))) filled

  -- A second setup of the vector, for the same entry.
  abbrev again : ℕ × InterruptGate → ℕ → ℕ × InterruptGate
  again v handler = (handler, handler_gate v.1 (on_stack 1))

  abbrev set_up : Interrupts
  set_up = setup_interrupt_handler 14 h.on_page_fault (on_stack 1) with_opcode

  abbrev gate_with : ℕ → ℕ → ℕ × InterruptGate
  gate_with handler stack = (handler, handler_gate (set_gate empty_gate (entry j)) (on_stack stack))

  opcode_at : j ≡ 6 → vector_of with_opcode j ≡ gate_with h.on_invalid_opcode 1
  opcode_at here =
      ap (vector_of with_opcode) here
      ∙ (setup_here 6 h.on_invalid_opcode (on_stack 1) looped some_opcode).0
      ∙ ap (λ (v : ℕ × InterruptGate). again v h.on_invalid_opcode)
          (ap (vector_of looped) (sym here) ∙ in_loop)

  opcode_else : j ≢ 6 → vector_of with_opcode j ≡ gate_with h.system_error 2
  opcode_else other =
      setup_elsewhere 6 h.on_invalid_opcode (on_stack 1) looped j some_opcode other ∙ in_loop

  fault_at : j ≡ 14 → vector_of set_up j ≡ gate_with h.on_page_fault 1
  fault_at here =
      ap (vector_of set_up) here
      ∙ (setup_here 14 h.on_page_fault (on_stack 1) with_opcode some_fault).0
      ∙ ap (λ (v : ℕ × InterruptGate). again v h.on_page_fault)
          (ap (vector_of with_opcode) (sym here) ∙ opcode_else (omega arith))

  fault_else : j ≢ 14 → vector_of set_up j ≡ vector_of with_opcode j
  fault_else other = setup_elsewhere 14 h.on_page_fault (on_stack 1) with_opcode j some_fault other

  in_end : vector_of set_up j ≡ gate_with ((handler_of h j).0) ((handler_of h j).1)
  in_end = elim (ℕ_discrete j 14) [
    | yes here ↦ let e : (j == 14) ≡ true = ground arith in rw e (fault_at here)
    | no other ↦
        let e : (j == 14) ≡ false = ground arith in
        elim (ℕ_discrete j 6) [
          | yes here ↦
              let e2 : (j == 6) ≡ true = ground arith in
              rw (e, e2) (fault_else other ∙ opcode_at here)
          | no other2 ↦
              let e2 : (j == 6) ≡ false = ground arith in
              rw (e, e2) (fault_else other ∙ opcode_else other2)
        ]
  ]

  few : (handler_of h j).1 < 2 ^ 3
  few = ground arith

  -- After setupInterruptVectorTable each of the 256 vectors leads to its own entry function, from
  -- user mode too, and from there to onPageFault for 14, onInvalidOpcode for 6 and systemError for
  -- the others, on the stacks for interrupts; the flag is what it was.
  -- The addresses are no null pointers and fit 64 bits.
  pub setup_interrupt_vector_table-IsReady :
      entry j < 2 ^ 64
      → IsReady
          (setup_interrupt_vector_table entry table h s)
          (entry j)
          ((handler_of h j).0)
          ((handler_of h j).1)
          j
        × ((setup_interrupt_vector_table entry table h s).flag ≡ s.flag)
  unfolding setup_interrupt_vector_table
  setup_interrupt_vector_table-IsReady fits = (
    gate-IsReady set_up (entry j) ((handler_of h j).0) ((handler_of h j).1) j empty_gate fits few
        in_end,
    (setup_here 14 h.on_page_fault (on_stack 1) with_opcode some_fault).1
        ∙ (setup_here 6 h.on_invalid_opcode (on_stack 1) looped some_opcode).1
        ∙ handler_loop_flag 256 h.system_error 0 (load_table entry table s) some_error,
  )

-- The vectors of the exceptions for which the processor pushes an error code.
abbrev pub error_vectors : List ℕ
error_vectors = 8 ∷ 10 ∷ 11 ∷ 12 ∷ 13 ∷ 14 ∷ 17 ∷ []

abbrev pub is_one_of : ℕ → List ℕ → Bool
is_one_of n [] = false
is_one_of n (v ∷ vs) = if n == v then true else is_one_of n vs

-- The Interrupt that a handler is to see.
abbrev pub delivered : ℕ → ℕ → ℕ → Interrupt
delivered n frame error =
    let with_error = is_one_of n error_vectors in
    record {
      interrupt_number = n;
      error_code = if with_error then error else 0;
      stack_frame = frame;
      is_error = with_error;
    }

interrupt_of-delivered : (n frame error : ℕ) → interrupt_of n frame error ≡ delivered n frame error
interrupt_of-delivered n frame error =
    let same : takes_error n ≡ is_one_of n error_vectors = ground arith in
    ap
      (λ (b : Bool). record {
        interrupt_number = n;
        error_code = if b then error else 0;
        stack_frame = frame;
        is_error = b;
      })
      same

-- What the processor's call of a vector's function comes to after setupInterruptVectorTable, from
-- any state that has its callbacks: the vector's own handler is called with the vector's number and
-- the frame, and with the error code for the vectors 8, 10 to 14 and 17 and with 0 for all others,
-- and then the end of the interrupt is sent. The handlers' addresses are no null pointers.
pub entry_function-handler_of :
    {D : Type 0} (device : Device D) (fuel : ℕ) (m : Bytes) (a : Apic) (entry : ℕ → ℕ) (table : ℕ)
    (h : Handlers) (before s : Interrupts) (d : D)
    (call : ℕ → Interrupt → Interrupts × D → Run (Interrupts × D)) (n frame error : ℕ)
    → n < 256
    → h.system_error ≢ 0
    → h.on_invalid_opcode ≢ 0
    → h.on_page_fault ≢ 0
    → entry n < 2 ^ 64
    → s.callbacks ≡ (setup_interrupt_vector_table entry table h before).callbacks
    → entry_function device fuel m a call n frame error (s, d) ≡ (
        call ((handler_of h n).0) (delivered n frame error) (s, d) >>= λ t.
        ok (send_eoi device fuel m a n t.0 t.1))
unfolding entry_function generic_interrupt_handler
entry_function-handler_of device fuel m a entry table h before s d call n frame error small e f g
      fits same =
    let ready = (setup_interrupt_vector_table-IsReady entry table h before n small e f g fits).0 in
    let callback : s.callbacks n ≡ (handler_of h n).0 =
      ap (λ (c : ℕ → ℕ). c n) same ∙ ready.callback in
    let some_handler : not ((handler_of h n).0 == 0) ≡ true = ground arith in
    ap
      (λ (c : ℕ).
        (if not (c == 0)
          then call c (interrupt_of n frame error) (s, d)
          else if ltb n 32
          then stopped
          else ok (s, d))
        >>= λ t. ok (send_eoi device fuel m a n t.0 t.1))
      callback
    ∙ ap
        (λ (b : Bool).
          (if b
            then call ((handler_of h n).0) (interrupt_of n frame error) (s, d)
            else if ltb n 32
            then stopped
            else ok (s, d))
          >>= λ t. ok (send_eoi device fuel m a n t.0 t.1))
        some_handler
    ∙ ap
        (λ (i : Interrupt).
          call ((handler_of h n).0) i (s, d) >>= λ t. ok (send_eoi device fuel m a n t.0 t.1))
        (interrupt_of-delivered n frame error)
