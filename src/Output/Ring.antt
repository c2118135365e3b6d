-- ===== src/Output/Ring.antt =====
-- The ring buffer of src/BasicOutput/Output.cpp.
use crack_os.Base.{ℕ, zero, suc, ◌+◌, ◌-◌, ◌%◌, ◌<◌, ◌≡◌, ◌≢◌, arith, ap, ap₂, List, [], ◌∷◌, ◌∙◌}
use crack_os.Base.{
  length, get_or, set, length-set, get_or-set_self, get_or-set_ne, ltb, if◌then◌else◌,
}

-- outputBuffer, outputBufferStart, outputBufferEnd and outputBufferSize
pub record Buffer : Type 0 where
  pub cells : List ℕ
  pub start : ℕ
  pub end : ℕ
  pub size : ℕ

abbrev pub capacity : ℕ
capacity = 4096

-- The part of Output::init that is about the buffer, whose cells the loader fills with zeros.
pub init : List ℕ → Buffer
init cells = record { cells = cells; start = 0; end = 0; size = 0 }

-- addToBuffer. Its last test is an assignment, `outputBufferSize = 4096`, and so always passes.
pub add_to_buffer : Buffer → ℕ → Buffer
add_to_buffer b c =
    let end = (b.end + 1) % capacity in
    record { cells = set b.cells b.end c; start = (end + 1) % capacity; end = end; size = capacity }

-- The loop of readBuffer, with `left` rounds to come.
pub read_loop : Buffer → ℕ → ℕ → ℕ → List ℕ
read_loop b uncopied zero i = []
read_loop b uncopied (suc left) i =
    get_or b.cells ((uncopied + b.start + i) % capacity) 0 ∷ read_loop b uncopied left (i + 1)

-- Output::readBuffer: the characters that it copies.
pub read_buffer : Buffer → ℕ → List ℕ
read_buffer b buffer_size =
    let max_read = if ltb b.size buffer_size then b.size else buffer_size in
    read_loop b (b.size - max_read) max_read 0

pub record IsValid (b : Buffer) : Type 0 where
  pub cells_len : length b.cells ≡ capacity
  pub end_in : b.end < capacity

pub init-IsValid : (cells : List ℕ) → length cells ≡ capacity → IsValid (init cells)
unfolding init
init-IsValid cells e = record { cells_len = e; end_in = omega arith }

-- addToBuffer writes inside the buffer, and leaves its position inside.
pub add_to_buffer-IsValid : (b : Buffer) (c : ℕ) → IsValid b → IsValid (add_to_buffer b c)
unfolding add_to_buffer
add_to_buffer-IsValid b c v = record {
  cells_len = length-set b.cells b.end c ∙ v.cells_len;
  end_in = omega arith;
}

around :
    (end : ℕ)
    → end < capacity
    → (4095 + ((end + 1) % capacity + 1) % capacity + 0) % capacity ≡ (end + 1) % capacity
around end h = omega arith

around_two :
    (end : ℕ) → end < capacity → (4094 + ((end + 1) % capacity + 1) % capacity + 0) % capacity ≡ end
around_two end h = omega arith

around_next :
    (end : ℕ)
    → end < capacity
    → (4094 + ((end + 1) % capacity + 1) % capacity + 1) % capacity ≡ (end + 1) % capacity
around_next end h = omega arith

next_ne : (end : ℕ) → end < capacity → end ≢ (end + 1) % capacity
next_ne end h = omega arith

-- The last character that readBuffer returns is not the one that was printed last, but the content
-- of the cell that the next character will overwrite: with room for one character the printed one
-- is missed, and with room for two it comes before that cell.
pub read_buffer-add_to_buffer :
    (b : Buffer) (c : ℕ)
    → IsValid b
    → let old = get_or b.cells ((b.end + 1) % capacity) 0 in
      (read_buffer (add_to_buffer b c) 1 ≡ old ∷ [])
      × (read_buffer (add_to_buffer b c) 2 ≡ c ∷ old ∷ [])
unfolding read_buffer read_loop add_to_buffer
read_buffer-add_to_buffer b c v = (
  rw (around b.end v.end_in) (ap (λ x. x ∷ []) other),
  rw (around_two b.end v.end_in, around_next b.end v.end_in)
      (ap₂ (λ x y. x ∷ y ∷ []) (get_or-set_self b.cells b.end c 0 (rw v.cells_len v.end_in)) other),
)
  where
    other :
        get_or (set b.cells b.end c) ((b.end + 1) % capacity) 0
        ≡ get_or b.cells ((b.end + 1) % capacity) 0
    other = get_or-set_ne b.cells b.end ((b.end + 1) % capacity) c 0 (next_ne b.end v.end_in)
