-- ===== src/Storage/Sata/Port/Waiting.antt =====
-- waitForTask and waitForFinish of src/Storage/SATA.cpp.
use Prim.Native.Nat.{bit_and}
use crack_os.Base.{ℕ, zero, suc, ◌/◌, ◌%◌, ◌^◌, ◌<◌, ◌≡◌, ◌≢◌, ◌⊎◌, refl, arith, ◌∙◌, true, false}
use crack_os.Base.{◌==◌, ok}
use native.Mathlib.Decide.{ℕ_discrete}
use crack_os.Storage.Sata.{Machine}
use crack_os.Storage.Sata.Port.{
  Bus, command_issue, sata_error, task_file_data, wait_for_task, wait_for_finish,
}

module _ {S : Type 0} (bus : Bus S) where
  -- What a round of waitForTask sees in the three registers, and the machine after it.
  abbrev pub issue_of : Machine S → ℕ × Machine S
  issue_of s = bus.load command_issue s

  abbrev pub error_of : Machine S → ℕ × Machine S
  error_of s = bus.load sata_error (issue_of s).1

  abbrev pub task_of : Machine S → ℕ × Machine S
  task_of s = bus.load task_file_data (error_of s).1

  -- The machine after `n` rounds.
  abbrev pub after_rounds : ℕ → Machine S → Machine S
  after_rounds zero s = s
  after_rounds (suc n) s = after_rounds n (task_of s).1

  -- The command of the slot runs, and the disk reports no error.
  abbrev pub Runs : ℕ → Machine S → Type 0
  Runs slot s = ((issue_of s).0 / 2 ^ slot % 2 ≡ 1) × ((error_of s).0 ≡ 0) × ((task_of s).0 % 2 ≡ 0)

  still :
      (fuel slot : ℕ) (s : Machine S)
      → Runs slot s
      → wait_for_task bus (suc fuel) slot s ≡ wait_for_task bus fuel slot (task_of s).1
  unfolding wait_for_task
  still fuel slot s now =
      let e : ((issue_of s).0 / 2 ^ slot % 2 == 0) ≡ false = ground arith in
      let e1 : ((error_of s).0 == 0) ≡ true = ground arith in
      let e2 : ((task_of s).0 % 2 == 0) ≡ true = ground arith in rw (e, e1, e2, wait_for_task) refl

  -- A command that has run for `n` rounds is seen to have finished.
  finished :
      (fuel n slot : ℕ) (s : Machine S)
      → n < fuel
      → ((k : ℕ) → k < n → Runs slot (after_rounds k s))
      → (issue_of (after_rounds n s)).0 / 2 ^ slot % 2 ≡ 0
      → wait_for_task bus fuel slot s ≡ ok (true, (issue_of (after_rounds n s)).1)
  unfolding wait_for_task
  finished zero n slot s h runs done = absurd (omega arith)
  finished (suc fuel) zero slot s h runs done =
      let e : ((issue_of s).0 / 2 ^ slot % 2 == 0) ≡ true = ground arith in
      rw (e, wait_for_task) refl
  finished (suc fuel) (suc n) slot s h runs done =
      still fuel slot s (runs 0 (omega arith))
      ∙ finished fuel n slot (task_of s).1 (omega arith) (λ k lt. runs (suc k) (omega arith)) done

  -- An error that comes then is seen.
  failed :
      (fuel n slot : ℕ) (s : Machine S)
      → n < fuel
      → ((k : ℕ) → k < n → Runs slot (after_rounds k s))
      → (issue_of (after_rounds n s)).0 / 2 ^ slot % 2 ≡ 1
      → ((error_of (after_rounds n s)).0 ≢ 0) ⊎ ((task_of (after_rounds n s)).0 % 2 ≡ 1)
      → (t : Machine S) × (wait_for_task bus fuel slot s ≡ ok (false, t))
  unfolding wait_for_task
  failed zero n slot s h runs busy bad = absurd (omega arith)
  failed (suc fuel) zero slot s h runs busy bad =
      let e : ((issue_of s).0 / 2 ^ slot % 2 == 0) ≡ false = ground arith in
      elim (ℕ_discrete (error_of s).0 0) [
        | no wrong ↦
            let e1 : ((error_of s).0 == 0) ≡ false = ground arith in
            ((error_of s).1, rw (e, e1, wait_for_task) refl)
        | yes fine ↦
            let e1 : ((error_of s).0 == 0) ≡ true = ground arith in
            let e2 : ((task_of s).0 % 2 == 0) ≡ false = ground arith in
            ((task_of s).1, rw (e, e1, e2, wait_for_task) refl)
      ]
  failed (suc fuel) (suc n) slot s h runs busy bad =
      let (t, e) =
        failed fuel n slot (task_of s).1 (omega arith) (λ k lt. runs (suc k) (omega arith)) busy
          bad in
      (t, still fuel slot s (runs 0 (omega arith)) ∙ e)

  -- When the command of the slot runs without an error for any number `n` of rounds, and the disk
  -- then clears its bit, waitForTask returns true; when it then reports an error with the bit set,
  -- waitForTask returns false.
  pub wait_for_task_lem :
      (fuel n slot : ℕ) (s : Machine S)
      → n < fuel
      → ((k : ℕ) → k < n → Runs slot (after_rounds k s))
      → let t = after_rounds n s in
        ((issue_of t).0 / 2 ^ slot % 2 ≡ 0
          → wait_for_task bus fuel slot s ≡ ok (true, (issue_of t).1))
        × ((issue_of t).0 / 2 ^ slot % 2 ≡ 1
            → ((error_of t).0 ≢ 0) ⊎ ((task_of t).0 % 2 ≡ 1)
            → (u : Machine S) × (wait_for_task bus fuel slot s ≡ ok (false, u)))
  wait_for_task_lem fuel n slot s h runs =
      (finished fuel n slot s h runs, failed fuel n slot s h runs)

  -- What the two loads of a round of waitForFinish see, and the machine after `n` rounds.
  abbrev pub status_of : Machine S → ℕ × Machine S
  status_of s = bus.load task_file_data s

  abbrev pub again_of : Machine S → ℕ × Machine S
  again_of s = bus.load task_file_data (status_of s).1

  abbrev pub after_polls : ℕ → Machine S → Machine S
  after_polls zero s = s
  after_polls (suc n) s = after_polls n (again_of s).1

  -- BSY or DRQ is set, and ERR is not.
  abbrev pub IsBusy : Machine S → Type 0
  IsBusy s = (bit_and (status_of s).0 0b10001000 ≢ 0) × ((again_of s).0 % 2 ≡ 0)

  -- When BSY or DRQ is set for any number `n` of rounds without ERR, and then neither of them is,
  -- waitForFinish returns true.
  pub wait_for_finish_lem :
      (fuel n : ℕ) (s : Machine S)
      → n < fuel
      → ((k : ℕ) → k < n → IsBusy (after_polls k s))
      → bit_and (status_of (after_polls n s)).0 0b10001000 ≡ 0
      → wait_for_finish bus fuel s ≡ ok (true, (status_of (after_polls n s)).1)
  unfolding wait_for_finish
  wait_for_finish_lem zero n s h busy done = absurd (omega arith)
  wait_for_finish_lem (suc fuel) zero s h busy done =
      let e : (bit_and (status_of s).0 0b10001000 == 0) ≡ true = ground arith in
      rw (e, wait_for_finish) refl
  wait_for_finish_lem (suc fuel) (suc n) s h busy done =
      let now = busy 0 (omega arith) in
      let e : (bit_and (status_of s).0 0b10001000 == 0) ≡ false = ground arith in
      let e1 : ((again_of s).0 % 2 == 0) ≡ true = ground arith in
      rw (e, e1, wait_for_finish)
        (wait_for_finish_lem fuel n (again_of s).1 (omega arith)
          (λ k lt. busy (suc k) (omega arith)) done)
