-- ===== src/Storage/Sata/Start.antt =====
-- The start of a disk in src/Storage/SATA.cpp: the identify command, and SATA::tryToInit. The waits
-- of a millisecond are left out. `local` is the address of the buffer of sendIdentify on its stack,
-- and `first` and `second` are the physical addresses that the allocator returns to tryToInit.
use Prim.Native.Nat.{bit_and, bit_or}
use crack_os.Base.{ℕ, zero, suc, ◌+◌, ◌-◌, ◌*◌, ◌/◌, ◌%◌, ◌^◌, Bool, true, false, not}
use crack_os.Base.{ltb, leb, ◌==◌, if◌then◌else◌, ◌&&◌, update, Run, ok, out_of_fuel, ◌>>=◌}
use crack_os.Memory.{page_size}
use crack_os.Language.Bytes.{Bytes, memset}
use crack_os.Storage.Sata.{Machine}
use crack_os.Storage.Sata.Port.{
  Register, Bus, command_list_address_low, command_list_address_high, fis_address_low,
  fis_address_high, command_and_status, signature, sata_status, sata_control, sata_error,
  slot_count, find_slot,
}
use crack_os.Storage.Sata.Device.{
  SataType, sata, satapi, semb, pm, unknown, Disk, load32, store16, store32, map_pages,
  get_command_table, with_fis_length, with_command_bit, execute_command,
}
pub mod Tables

-- The switch on the signature of a port.
pub type_of : ℕ → SataType
type_of kind =
    if kind == 0xEB140101
    then satapi
    else if kind == 0xC33C0101
    then semb
    else if kind == 0x96690101
    then pm
    else if kind == 0x00000101
    then sata
    else unknown

-- `uint8_t buffer[512]{}`
pub cleared : Bytes → ℕ → ℕ → Bytes
cleared m p n q = if leb p q && ltb q (p + n) then 0 else m q

-- `dataByteCount` and `interruptEnable` of a PrdtEntry, whose other bits stay.
pub set_byte_count : Bytes → ℕ → ℕ → Bytes
set_byte_count m entry count =
    store32 m (entry + 12) (load32 m (entry + 12) / 2 ^ 22 * 2 ^ 22 + count % 2 ^ 22)

pub disable_interrupt : Bytes → ℕ → Bytes
disable_interrupt m entry = store32 m (entry + 12) (load32 m (entry + 12) % 2 ^ 31)

-- What sendIdentify takes from the answer of the disk.
pub with_sectors : Bytes → ℕ → Disk → Disk
with_sectors m buffer d =
    let lba48 = load32 m (buffer + 200) + load32 m (buffer + 204) * 2 ^ 32 in
    let lba28 = load32 m (buffer + 120) in
    if not (lba48 == 0)
    then record d { sector_count = lba48; has_lba48 = true }
    else if not (lba28 == 0)
    then record d { sector_count = lba28; has_lba48 = false }
    else d

module _ {S : Type 0} (bus : Bus S) (fuel : ℕ) (physical : ℕ → ℕ) (local : ℕ) where
  -- SATA::sendIdentify
  pub send_identify : Disk → Machine S → Run (Bool × Disk × Machine S)
  send_identify d s =
      let (slot_id, s1) = find_slot bus d.capabilities s in
      let slot = d.command_slot_ptr + slot_id * 32 in
      elim (leb 32 slot_id) [
        | true ↦ ok (false, d, s1)
        | false ↦ do
          table ← get_command_table s1.memory slot
          m0 ← memset fuel s1.memory table 0 20
          let m1 = with_command_bit (update (update m0 table 0x27) (table + 2) 0xEC) table
          let m2 = cleared (with_fis_length m1 slot) local 512
          let entry = table + 128
          let m3 = store32 (set_byte_count m2 entry 512) entry (physical local % 2 ^ 32)
          let m4 = store32 m3 (entry + 4) (physical local / 2 ^ 32 % 2 ^ 32)
          let m5 = store32 (disable_interrupt m4 entry) (slot + 4) 512
          done ← execute_command bus fuel slot_id (record s1 { memory = m5 })
          let d' = if done.0 then with_sectors done.1.memory local d else d
          ok (done.0, d', done.1)
      ]

-- The loop of tryToInit that sets up the slots, for the first `n` of them.
pub set_up_slots : (ℕ → ℕ) → ℕ → ℕ → ℕ → Bytes → Bytes
set_up_slots physical command_slot_ptr command_table_ptr zero m = m
set_up_slots physical command_slot_ptr command_table_ptr (suc n) m =
    let m0 = set_up_slots physical command_slot_ptr command_table_ptr n m in
    let table = physical (command_table_ptr + n * 256) in
    let slot = command_slot_ptr + n * 32 in
    store32 (store32 (store16 m0 (slot + 2) 8) (slot + 8) (table % 2 ^ 32)) (slot + 12)
      (table / 2 ^ 32 % 2 ^ 32)

module _ {S : Type 0} (bus : Bus S) where
  -- `port->r = x`
  abbrev pub put : Register → ℕ → Machine S → Machine S
  put r x s = bus.store r x s

  -- The loop that is to wait for the disk: `sataStatus & 0b1111 == 0b11` is
  -- `sataStatus & (0b1111 == 0b11)`.
  pub poll_status : ℕ → Machine S → Machine S
  poll_status zero s = s
  poll_status (suc left) s =
      let (status, s1) = bus.load sata_status s in
      elim (bit_and status (if 0b1111 == 0b11 then 1 else 0) == 0) [
        | true ↦ poll_status left s1
        | false ↦ s1
      ]

  -- `while (port->commandAndStatus & mask) {}`
  pub wait_clear : ℕ → ℕ → Machine S → Run (Machine S)
  wait_clear zero mask s = out_of_fuel
  wait_clear (suc fuel) mask s =
      let (status, s1) = bus.load command_and_status s in
      elim (bit_and status mask == 0) [ true ↦ ok s1 | false ↦ wait_clear fuel mask s1 ]

  -- The memory of a port and its addresses in the registers, once the port has stopped.
  pub set_up_port : ℕ → (ℕ → ℕ) → ℕ → ℕ → Disk → Machine S → Run (Disk × Machine S)
  set_up_port fuel physical first second d s = do
    let command_slots = slot_count d.capabilities
    let needed_memory = 256 + 256 * command_slots
    received_fis_ptr ← map_pages first
    let command_slot_ptr = received_fis_ptr + 256
    m0 ← memset fuel s.memory received_fis_ptr 0 needed_memory
    command_table_ptr ← map_pages second
    m1 ← memset fuel m0 command_table_ptr 0 ((if leb 16 command_slots then 2 else 1) * page_size)
    let m2 = set_up_slots physical command_slot_ptr command_table_ptr command_slots m1
    let slots_at = physical command_slot_ptr
    let fis_at = physical received_fis_ptr
    let s1 = put command_list_address_low (slots_at % 2 ^ 32) (record s { memory = m2 })
    let s2 = put command_list_address_high (slots_at / 2 ^ 32 % 2 ^ 32) s1
    let s3 = put fis_address_low (fis_at % 2 ^ 32) s2
    let s4 = put fis_address_high (fis_at / 2 ^ 32 % 2 ^ 32) s3
    ok (record d { command_slot_ptr = command_slot_ptr }, s4)

  -- The two tests of sataStatus: a disk is there and ready, and it is powered.
  pub check_status : Machine S → Bool × Machine S
  check_status s =
      let (status, s1) = bus.load sata_status s in
      let (power, s2) = bus.load sata_status s1 in
      if not (bit_and status 0b1111 == 0b11)
      then (false, s1)
      else (bit_and power (0b1111 * 2 ^ 8) == 2 ^ 8, s2)

  -- The part of SATA::tryToInit on a port that is there.
  pub start_port : ℕ → (ℕ → ℕ) → ℕ → ℕ → ℕ → Disk → Machine S → Run (Bool × Disk × Machine S)
  start_port fuel physical local first second d s =
      let s1 = poll_status 0xFFFF (put sata_control 0 (put sata_control 1 s)) in
      let (ready, s2) = check_status s1 in
      elim ready [
        | false ↦ ok (false, d, s2)
        | true ↦ do
          let s3 = put sata_error (2 ^ 32 - 1) s2
          let (running, s4) = bus.load command_and_status s3
          halted ←
              wait_clear fuel (0b11 * 2 ^ 14)
                (put command_and_status (bit_and running (2 ^ 32 - 1 - 0b10001)) s4)
          prepared ← set_up_port fuel physical first second d halted
          clean ← wait_clear fuel (2 ^ 15) prepared.1
          let (status, s5) = bus.load command_and_status clean
          answer ←
              send_identify bus fuel physical local (record prepared.0 { disk_type = sata })
                (put command_and_status (bit_or status 0b10001) s5)
          let (kind, s6) = bus.load signature answer.2
          ok (
              if answer.0
              then (true, record answer.1 { disk_type = type_of kind }, s6)
              else (false, answer.1, answer.2))
      ]

  -- SATA::tryToInit, where `in_memory` is `dbar.isMemory()`.
  pub try_to_init :
      ℕ → Bool → ℕ → ℕ → (ℕ → ℕ) → ℕ → ℕ → ℕ → Disk → Machine S → Run (Bool × Disk × Machine S)
  try_to_init ports_available in_memory port_index fuel physical local first second d s =
      elim (ports_available / 2 ^ port_index % 2 == 0) [
        | true ↦ ok (false, d, s)
        | false ↦ elim in_memory [
          | false ↦ ok (false, d, s)
          | true ↦ start_port fuel physical local first second d s
        ]
      ]
