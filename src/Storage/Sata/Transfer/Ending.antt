-- ===== src/Storage/Sata/Transfer/Ending.antt =====
-- The recursion of SATA::read and SATA::write of src/Storage/SATA.cpp ends: how deep the calls go.
use crack_os.Base.{ℕ, suc, ◌+◌, ◌%◌, ◌≡◌}
use crack_os.Base.{◌==◌, if◌then◌else◌}
use crack_os.Storage.Sata.{Machine}
use crack_os.Storage.Sata.Transfer.{Request}

-- How far a request is from whole sectors at an even address.
abbrev pub rank_of : ℕ → ℕ → ℕ → ℕ
rank_of offset size buffer =
    (if offset % 512 == 0 then 0 else 4)
    + (if size % 512 == 0 then 0 else 2)
    + (if buffer % 2 == 0 then 0 else 1)

-- The buffers of the same calls, when one more call is possible below them.
abbrev pub above : (ℕ → ℕ) → ℕ → ℕ
above place k = place (suc k)

module _ {S : Type 0} where
  -- Two requests that come to the same where `P` holds.
  abbrev SameOn : (ℕ → ℕ → ℕ → Type 0) → Request S → Request S → Type 0
  SameOn P request request' =
      (o z b : ℕ) (t : Machine S) → P o z b → request o z b t ≡ request' o z b t
