-- ===== src/Cpu/Interrupts/Entry.antt =====
-- src/CPUControl/interrupts.cpp: the functions in the vector table and the generic handler that they
-- call.
use crack_os.Base.{ℕ, Bool, not, ◌&&◌, ◌||◌}
use crack_os.Base.{ltb, leb, ◌==◌, if◌then◌else◌, Run, ok, stopped, ◌>>=◌}
use crack_os.Language.Bytes.{Bytes}
use crack_os.Acpi.Apic.{Device, Apic}
use crack_os.Cpu.Interrupts.{Interrupts, send_eoi}

-- class Interrupt
pub record Interrupt : Type 0 where
  pub interrupt_number : ℕ
  pub error_code : ℕ
  pub stack_frame : ℕ
  pub is_error : Bool

-- The vectors whose functions take an error code: 8, 10 to 14, and 17.
abbrev pub takes_error : ℕ → Bool
takes_error n = n == 8 || leb 10 n && leb n 14 || n == 17

abbrev pub interrupt_of : ℕ → ℕ → ℕ → Interrupt
interrupt_of n frame error = record {
  interrupt_number = n;
  error_code = if takes_error n then error else 0;
  stack_frame = frame;
  is_error = takes_error n;
}

module _ {D : Type 0} (device : Device D) (fuel : ℕ) (m : Bytes) (a : Apic) where
  -- generic_interrupt_handler, with `call` what the handler at an address does to the kernel, which
  -- may also stop it. A missing handler for one of the processor's own interrupts is systemError.
  unfoldable pub generic_interrupt_handler :
      (ℕ → Interrupt → Interrupts × D → Run (Interrupts × D))
      → Interrupt
      → Interrupts × D
      → Run (Interrupts × D)
  generic_interrupt_handler call i (s, d) =
      let id = i.interrupt_number in
      (if not (s.callbacks id == 0)
        then call (s.callbacks id) i (s, d)
        else if ltb id 32
        then stopped
        else ok (s, d))
      >>= λ t. ok (send_eoi device fuel m a id t.0 t.1)

  -- The function that the table has for the vector `n`, called by the processor with the address of
  -- its frame, and with its error code where the function takes one.
  unfoldable pub entry_function :
      (ℕ → Interrupt → Interrupts × D → Run (Interrupts × D))
      → ℕ
      → ℕ
      → ℕ
      → Interrupts × D
      → Run (Interrupts × D)
  entry_function call n frame error st =
      generic_interrupt_handler call (interrupt_of n frame error) st
