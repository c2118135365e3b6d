-- ===== src/Storage/Sata/Port.antt =====
-- The registers of a port in src/Storage/SATA.cpp, the search for a command slot, and the loops
-- that wait for the disk. A load of a register may return anything, and the disk goes on with every
-- load. `fuel` bounds the rounds of a loop.
use Prim.Native.Nat.{bit_and, bit_or}
use crack_os.Base.{ℕ, zero, suc, ◌+◌, ◌-◌, ◌*◌, ◌/◌, ◌%◌, ◌^◌, Bool, true, false}
use crack_os.Base.{◌==◌, Run, ok, out_of_fuel, ◌>>=◌}
use crack_os.Storage.Sata.{Machine}
pub mod Waiting
pub mod Slots

-- The fields of struct Port that the code uses.
pub data Register : Type 0 where
  command_list_address_low command_list_address_high fis_address_low fis_address_high : Register
  command_and_status task_file_data signature sata_status sata_control sata_error : Register
  sata_active command_issue : Register

pub record Bus (S : Type 0) : Type 0 where
  pub load : Register → Machine S → ℕ × Machine S
  pub store : Register → ℕ → Machine S → Machine S

-- `((controller->capabilities >> 8) & 0b11111) + 1`
abbrev pub slot_count : ℕ → ℕ
slot_count capabilities = capabilities / 2 ^ 8 % 2 ^ 5 + 1

-- The loop of findSlot at `i`, with `left` rounds to come. Its result without a slot is ~0.
pub slot_loop : ℕ → ℕ → ℕ → ℕ
slot_loop zero slots i = 2 ^ 64 - 1
slot_loop (suc left) slots i = elim (slots % 2 == 0) [
  | true ↦ i
  | false ↦ slot_loop left (slots / 2) (i + 1)
]

module _ {S : Type 0} (bus : Bus S) where
  -- SATA::findSlot
  pub find_slot : ℕ → Machine S → ℕ × Machine S
  find_slot capabilities s =
      let (active, s1) = bus.load sata_active s in
      let (issue, s2) = bus.load command_issue s1 in
      (slot_loop (slot_count capabilities) (bit_or active issue) 0, s2)

  -- SATA::waitForTask
  pub wait_for_task : ℕ → ℕ → Machine S → Run (Bool × Machine S)
  wait_for_task zero slot s = out_of_fuel
  wait_for_task (suc fuel) slot s =
      let (issue, s1) = bus.load command_issue s in
      let (error, s2) = bus.load sata_error s1 in
      let (task, s3) = bus.load task_file_data s2 in
      elim (issue / 2 ^ slot % 2 == 0) [
        | true ↦ ok (true, s1)
        | false ↦ elim (error == 0) [
          | false ↦ ok (false, s2)
          | true ↦ elim (task % 2 == 0) [
            | false ↦ ok (false, s3)
            | true ↦ wait_for_task fuel slot s3
          ]
        ]
      ]

  -- SATA::waitForFinish, which waits until neither BSY nor DRQ is set.
  pub wait_for_finish : ℕ → Machine S → Run (Bool × Machine S)
  wait_for_finish zero s = out_of_fuel
  wait_for_finish (suc fuel) s =
      let (task, s1) = bus.load task_file_data s in
      let (again, s2) = bus.load task_file_data s1 in
      elim (bit_and task 0b10001000 == 0) [
        | true ↦ ok (true, s1)
        | false ↦ elim (again % 2 == 0) [ false ↦ ok (false, s2) | true ↦ wait_for_finish fuel s2 ]
      ]
