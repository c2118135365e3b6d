-- ===== src/Storage/Sata/Tests.antt =====
-- Disks and buffers on which the theorems about src/Storage/SATA.cpp are used.
use crack_os.Base.{
  ℕ, zero, suc, ◌+◌, ◌-◌, ◌*◌, ◌/◌, ◌%◌, ◌^◌, ◌<◌, ◌≤◌, ◌≡◌, ◌≢◌, ◌⊎◌, inl, inr, refl, arith, ap,
  true, false,
}
use crack_os.Base.{ltb, leb, ◌==◌, ◌&&◌, if◌then◌else◌, ok}
use crack_os.Language.Bytes.{Bytes}
use crack_os.Storage.Sata.{Machine}
use crack_os.Storage.Sata.Transfer.{Request}
use crack_os.Storage.Sata.Transfer.Alignment.{Clear, IsLayout, Transfers}
use crack_os.Base.{◌>>=◌}
use crack_os.Memory.{gi}
use crack_os.Storage.Sata.Transfer.{minus_one}
use crack_os.Storage.Sata.Port.{Bus, command_issue, sata_active, wait_for_task}
use crack_os.Storage.Sata.Port.Slots.{find_slot-zero}
use crack_os.Storage.Sata.Port.Waiting.{
  Runs, after_rounds, issue_of, error_of, task_of, wait_for_task_lem,
}
use crack_os.Storage.Sata.Command.{Prdt, create_prdt}
use crack_os.Storage.Sata.Command.Regions.{Contiguous, IsCovered, create_prdt-IsCovered}
use crack_os.Storage.Sata.Device.{Disk, sata, execute_command, transfer}
use crack_os.Storage.Sata.Device.Memory.{load32_lem}
use crack_os.Storage.Sata.Device.Issue.{table_base, table_of, IsPrepared, transfer-IsPrepared}

-- A disk as its bytes, and a transfer that copies them into memory.
abbrev content : Bytes → ℕ → ℕ
content disk j = disk j

abbrev copy_transfer : Request Bytes
copy_transfer offset size buffer s = ok (
  size,
  record s {
    memory = λ q.
        if leb buffer q && ltb q (buffer + size)
        then s.disk (offset + (q - buffer))
        else s.memory q;
  },
)

abbrev Anywhere : ℕ → Type 0
Anywhere q = 0 ≤ q

abbrev frame : ℕ → ℕ
frame d = 40000 + d * 10000

abbrev heap : ℕ → ℕ
heap d = 45000 + d * 10000

Clear-above : (d q : ℕ) → 40000 + d * 10000 ≤ q → Clear content Anywhere 1024 frame heap d q
Clear-above zero q h = omega arith
Clear-above (suc d) q h = (Clear-above d q (omega arith), inr (omega arith), inr (omega arith))

layout : IsLayout content Anywhere 1024 frame heap 4
layout = record {
  sector_fits = omega arith;
  frame_clear = λ d k deep lt. Clear-above d (frame d + k) (omega arith);
  heap_clear = λ d k deep lt. Clear-above d (heap d + k) (omega arith);
  heap_fits = λ d deep. omega arith;
}

copy_transfer-Transfers : Transfers content Anywhere 1024 frame heap copy_transfer
copy_transfer-Transfers offset size buffer s h o z b r = record {
  after = record s {
    memory = λ q.
        if leb buffer q && ltb q (buffer + size)
        then s.disk (offset + (q - buffer))
        else s.memory q;
  };
  returned = refl;
  bytes = λ k lt.
      let low : leb buffer (buffer + k) ≡ true = ground arith in
      let high : ltb (buffer + k) (buffer + size) ≡ true = ground arith in
      rw (low, high) (ap s.disk (omega arith));
  rest = λ q kept a. ground arith;
  same_disk = λ j. refl;
}

abbrev start : Machine Bytes
start = record { memory = λ q. 0; disk = λ j. j % 251 }

-- A port whose disk counts the loads, and takes six of them for the command in slot 0. Slots 1 and 2
-- are in use.
abbrev working : Bus ℕ
working = record {
  load = λ r s.
      let value : ℕ = elim r [
        | command_issue ↦ if ltb s.disk 6 then 5 else 4
        | sata_active ↦ 2
        | other ↦ 0
      ] in
      (value, record s { disk = s.disk + 1 });
  store = λ r x s. s;
}

abbrev machine : Machine ℕ
machine = record { memory = λ q. 0; disk = 0 }

runs : (k : ℕ) → k < 2 → Runs working 0 (after_rounds working k machine)
runs zero h = (omega arith, omega arith, omega arith)
runs (suc zero) h = (omega arith, omega arith, omega arith)
runs (suc (suc k)) h = absurd (omega arith)

wait_for_task_lem_example :
    (let t = after_rounds working 2 machine in
      ((issue_of working t).0 / 2 ^ 0 % 2 ≡ 0
        → wait_for_task working 9 0 machine ≡ ok (true, (issue_of working t).1))
      × ((issue_of working t).0 / 2 ^ 0 % 2 ≡ 1
          → ((error_of working t).0 ≢ 0) ⊎ ((task_of working t).0 % 2 ≡ 1)
          → (u : Machine ℕ) × (wait_for_task working 9 0 machine ≡ ok (false, u))))
wait_for_task_lem_example = wait_for_task_lem working 9 2 0 machine (omega arith) runs

-- Memory that is mapped at its own address, and a buffer of three pages in it.
abbrev identity : ℕ → ℕ
identity q = q

identity-Contiguous : Contiguous identity 0x7F80 0x2200
identity-Contiguous = (λ k h. refl, refl, omega arith)

create_prdt-IsCovered_example :
    (n : ℕ) × (p : Prdt) × (create_prdt identity 9000 0x7F80 0x2200 ≡ ok (n, p))
    × IsCovered identity 0x7F80 0x2200 n p
create_prdt-IsCovered_example =
    create_prdt-IsCovered identity 0x7F80 0x2200 identity-Contiguous 9000 (omega arith) refl refl
      (omega arith)

-- Pages in the reverse order.
abbrev reversed : ℕ → ℕ
reversed q = 0x100000 - q / 4096 * 4096 + q % 4096

-- A port with nothing to do, and a slot at 0x1000 whose table is at 0x5000.
abbrev idle : Bus ℕ
idle = record { load = λ r s. (0, record s { disk = s.disk + 1 }); store = λ r x s. s }

abbrev with_slot : Machine ℕ
with_slot = record { memory = λ q. if q == 0x1009 then 0x50 else 0; disk = 0 }

abbrev after_search : Machine ℕ
after_search = record with_slot { disk = 2 }

abbrev disk : Disk
disk = record {
  capabilities = 0x1F00;
  command_slot_ptr = 0x1000;
  sector_count = 0x100000;
  has_lba48 = true;
  disk_type = sata;
}

base_small : table_base with_slot.memory 0x1000 < gi 512
base_small =
    omega
      (arith, load32_lem with_slot.memory (0x1000 + 8), load32_lem with_slot.memory (0x1000 + 12))

transfer-IsPrepared_example :
    (n : ℕ) × (p : Prdt) × (m : Bytes) × IsCovered identity 0x7F80 0x2200 n p
    × IsPrepared with_slot.memory m 0x1000
        (table_of with_slot.memory 0x1000)
        n
        p.prdt_entries
        0x35
        (0x4000 / 512 % 2 ^ 48)
        ((0x2200 - p.size) / 512 % 2 ^ 16)
    × (transfer idle 9000 identity disk 0x35 0x4000 0x2200 0x7F80 with_slot ≡ (
        execute_command idle 9000 0 (record after_search { memory = m }) >>= λ done.
        ok (if done.0 then 0x2200 - p.size else minus_one, done.1)))
transfer-IsPrepared_example =
    transfer-IsPrepared idle identity 9000 disk 0x35 0x4000 0x2200 0x7F80 with_slot after_search
      (find_slot-zero idle 0x1F00 with_slot refl) base_small (inl (omega arith)) identity-Contiguous
      (omega arith) refl refl (omega arith)
