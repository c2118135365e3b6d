-- ===== src/Language/Pointer.antt =====
-- shared_ptr and weak_ptr of header/LanguageFeatures/SmartPointer.hpp, by the address of their Data,
-- where 0 is the null pointer. The heap holds the Data and the objects; an object is the Data of
-- the one weak_ptr that it has as a member, as PartitionTable has, or 0. IsLikeEnableShared is false
-- for every T, since __self is private.
pub mod Count
pub mod Lifetime
mod Tests
use crack_os.Base.{
  ℕ, zero, suc, ◌+◌, ◌-◌, ◌%◌, ◌^◌, Bool, true, false, ◌&&◌, ◌||◌, Option, none, some,
}
use crack_os.Base.{◌==◌, if◌then◌else◌, update, Run, ok, fault, stopped, ◌>>=◌}

-- shared_ptr::Data
pub record Data : Type 0 where
  pub ref_count : ℕ
  pub weak_count : ℕ
  pub ptr : ℕ

pub record Heap : Type 0 where
  pub blocks : ℕ → Option Data
  pub objects : ℕ → Option ℕ

abbrev pub load_block : Heap → ℕ → Run Data
load_block h d = elim (h.blocks d) [ none ↦ fault | some b ↦ ok b ]

abbrev pub store : Heap → ℕ → Data → Heap
store h d b = record h { blocks = update h.blocks d (some b) }

abbrev pub free_block : Heap → ℕ → Heap
free_block h d = record h { blocks = update h.blocks d none }

-- A uint32_t that is counted up or down.
abbrev up : ℕ → ℕ
up n = (n + 1) % 2 ^ 32

abbrev down : ℕ → ℕ
down n = (n + (2 ^ 32 - 1)) % 2 ^ 32

abbrev pub count_ref : Data → Data
count_ref b = record b { ref_count = up b.ref_count }

abbrev pub count_weak : Data → Data
count_weak b = record b { weak_count = up b.weak_count }

-- weak_ptr::destroy, which is also the destructor.
pub weak_destroy : Heap → ℕ → Run Heap
weak_destroy h d = elim (d == 0) [
  | true ↦ ok h
  | false ↦ load_block h d >>= λ b.
      let less : Data = record b { weak_count = down b.weak_count } in
      elim (less.weak_count == 0 && less.ref_count == 0) [
        | true ↦ ok (free_block h d)
        | false ↦ ok (store h d less)
      ]
]

-- `delete` of an object: the weak_ptr in it is destroyed, and its memory is freed.
pub delete_object : Heap → ℕ → Run Heap
delete_object h p = elim (p == 0) [
  | true ↦ ok h
  | false ↦ elim (h.objects p) [
    | none ↦ fault
    | some self ↦
        weak_destroy h self >>= λ h'. ok (record h' { objects = update h'.objects p none })
  ]
]

-- shared_ptr::destroy, which is also the destructor.
pub shared_destroy : Heap → ℕ → Run Heap
shared_destroy h d = elim (d == 0) [
  | true ↦ ok h
  | false ↦ load_block h d >>= λ b.
      let less : Data = record b { ref_count = down b.ref_count } in
      elim (less.ref_count == 0) [
        | false ↦ ok (store h d less)
        | true ↦ do
          h1 ← delete_object (store h d less) b.ptr
          b1 ← load_block h1 d
          elim (b1.weak_count == 0) [
            | true ↦ ok (free_block (store h1 d (record b1 { ptr = 0 })) d)
            | false ↦ ok (store h1 d (record b1 { ptr = 0 }))
          ]
      ]
]

-- shared_ptr(T* ptr), with its Data at `d`; T is not like enable_shared_from_this.
pub shared_new : Heap → ℕ → ℕ → Heap
shared_new h d ptr = store h d (record { ref_count = 1; weak_count = 0; ptr = ptr })

-- shared_ptr(const shared_ptr&)
pub shared_copy : Heap → ℕ → Run Heap
shared_copy h d = elim (d == 0) [
  | true ↦ ok h
  | false ↦ load_block h d >>= λ b. ok (store h d (count_ref b))
]

-- weak_ptr(const shared_ptr&) and weak_ptr(const weak_ptr&)
pub weak_copy : Heap → ℕ → Run Heap
weak_copy h d = elim (d == 0) [
  | true ↦ ok h
  | false ↦ load_block h d >>= λ b. ok (store h d (count_weak b))
]

-- shared_ptr::operator=(const shared_ptr&), from the Data of both sides to that of the left one.
-- `same` says that both are the same variable.
pub shared_assign : Heap → Bool → ℕ → ℕ → Run (ℕ × Heap)
shared_assign h same mine other = elim same [
  | true ↦ ok (mine, h)
  | false ↦ do h1 ← shared_copy h other; h2 ← shared_destroy h1 mine; ok (other, h2)
]

-- shared_ptr::operator=(shared_ptr&&): the Data of both sides afterwards.
pub shared_move : Heap → Bool → ℕ → ℕ → Run (ℕ × ℕ × Heap)
shared_move h same mine other = elim same [
  | true ↦ ok (mine, other, h)
  | false ↦ shared_destroy h mine >>= λ h1. ok (other, 0, h1)
]

-- weak_ptr::operator=(const shared_ptr&)
pub weak_assign_shared : Heap → ℕ → ℕ → Run (ℕ × Heap)
weak_assign_shared h mine other = do
  h1 ← weak_destroy h mine
  b ← load_block h1 other
  ok (other, store h1 other (count_weak b))

-- weak_ptr::operator=(const weak_ptr&)
pub weak_assign : Heap → Bool → ℕ → ℕ → Run (ℕ × Heap)
weak_assign h same mine other = elim same [
  | true ↦ ok (mine, h)
  | false ↦ do
    b ← load_block h other
    h1 ← weak_destroy (store h other (count_weak b)) mine
    ok (other, h1)
]

-- weak_ptr::operator=(weak_ptr&&)
pub weak_move : Heap → Bool → ℕ → ℕ → Run (ℕ × ℕ × Heap)
weak_move h same mine other = elim same [
  | true ↦ ok (mine, other, h)
  | false ↦ weak_destroy h mine >>= λ h1. ok (other, 0, h1)
]

-- weak_ptr::expired
pub expired : Heap → ℕ → Run Bool
expired h d = elim (d == 0) [
  | true ↦ ok true
  | false ↦ load_block h d >>= λ b. ok (b.ref_count == 0)
]

-- weak_ptr::lock: the Data of the shared_ptr that it returns.
pub lock : Heap → ℕ → Run (ℕ × Heap)
lock h d = expired h d >>= λ gone. elim gone [
  | true ↦ ok (0, h)
  | false ↦ load_block h d >>= λ b. ok (d, store h d (count_ref b))
]

-- shared_ptr::exists, and `get`, which returns null for a pointer that does not exist.
pub get : Heap → ℕ → Run ℕ
get h d = elim (d == 0) [ true ↦ ok 0 | false ↦ load_block h d >>= λ b. ok b.ptr ]

-- The operators -> and *: check() stops the machine.
pub access : Heap → ℕ → Run ℕ
access h d = elim (d == 0) [
  | true ↦ stopped
  | false ↦ load_block h d >>= λ b. elim (b.ptr == 0) [ true ↦ stopped | false ↦ ok b.ptr ]
]
