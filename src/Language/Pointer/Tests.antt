-- ===== src/Language/Pointer/Tests.antt =====
-- An object at 64 whose Data is at 16.
use crack_os.Base.{ℕ, ◌≡◌, refl, arith, none, some, List, [], ◌∷◌, ◌==◌, if◌then◌else◌, ok, fault}
use crack_os.Language.Pointer.{Heap, shared_new, shared_destroy}
use crack_os.Language.Pointer.Count.{Counted, counted}
use crack_os.Language.Pointer.Lifetime.{
  Event, share, drop, watch, relock, perform_all, perform_all-Counted, shared_new-Counted,
  shared_destroy-fault,
}

abbrev with_object : ℕ → Heap
with_object self = record {
  blocks = λ a. if a == 16 then some (counted 1 1 64) else none;
  objects = λ a. if a == 64 then some self else none;
}

abbrev fresh : Heap
fresh = shared_new (with_object 0) 16 64

-- Two shared_ptrs and a weak_ptr, of which the weak_ptr stays.
abbrev events : List Event
events = share ∷ watch ∷ drop ∷ relock ∷ drop ∷ drop ∷ relock ∷ []

perform_all-Counted_example :
    (h' : Heap) × (perform_all fresh 16 events ≡ ok h') × Counted h' 16 64 0 1
perform_all-Counted_example =
    perform_all-Counted 16 64 (omega arith) (omega arith) fresh 1 0 events 0 1 (refl, refl)
      (omega arith) (shared_new-Counted (with_object 0) 16 64 refl)

shared_destroy-fault_example : shared_destroy (with_object 16) 16 ≡ fault
shared_destroy-fault_example =
    shared_destroy-fault (with_object 16) 16 64 (omega arith) (omega arith) refl refl
