-- ===== src/Language/Pointer/Lifetime.antt =====
-- The life of an object and its Data in header/LanguageFeatures/SmartPointer.hpp.
use crack_os.Base.{
  ℕ, zero, suc, ◌+◌, ◌^◌, ◌<◌, ◌≡◌, ◌≢◌, inl, inr, refl, arith, ap, subst, ◌∙◌, List, [], ◌∷◌,
  length, Option, none, some, false,
}
use crack_os.Base.{update, update_self, Run, ok, fault, ◌>>=◌}
use crack_os.Language.Pointer.{
  Data, Heap, store, shared_new, shared_copy, shared_destroy, weak_copy, weak_destroy, lock,
  delete_object, weak_assign, weak_assign_shared,
}
use crack_os.Language.Pointer.Count.{
  Counted, counted, destroy_last, after_delete, shared_copy-Counted, shared_destroy-Counted,
  weak_copy-Counted, weak_destroy-Counted, lock-Counted, lock_expired-Counted,
}

-- Copies and ends of the pointers to one object, and lock.
pub data Event : Type 0 where
  share drop watch unwatch relock : Event

unfoldable pub perform : Heap → ℕ → Event → Run Heap
perform h d share = shared_copy h d
perform h d drop = shared_destroy h d
perform h d watch = weak_copy h d
perform h d unwatch = weak_destroy h d
perform h d relock = lock h d >>= λ r. ok r.1

unfoldable pub perform_all : Heap → ℕ → List Event → Run Heap
unfolding perform
perform_all h d [] = ok h
perform_all h d (e ∷ es) = perform h d e >>= λ h'. perform_all h' d es

-- Only pointers that there are are copied, end or are locked; `r` shared_ptrs and `w` weak_ptrs become
-- `r'` and `w'`.
abbrev pub Allowed : ℕ → ℕ → List Event → ℕ → ℕ → Type 0
Allowed r w [] r' w' = (r ≡ r') × (w ≡ w')
Allowed zero w (share ∷ es) r' w' = ⊥
Allowed (suc r) w (share ∷ es) r' w' = Allowed (suc (suc r)) w es r' w'
Allowed zero w (drop ∷ es) r' w' = ⊥
Allowed (suc r) w (drop ∷ es) r' w' = Allowed r w es r' w'
Allowed zero zero (watch ∷ es) r' w' = ⊥
Allowed zero (suc w) (watch ∷ es) r' w' = Allowed zero (suc (suc w)) es r' w'
Allowed (suc r) w (watch ∷ es) r' w' = Allowed (suc r) (suc w) es r' w'
Allowed r zero (unwatch ∷ es) r' w' = ⊥
Allowed r (suc w) (unwatch ∷ es) r' w' = Allowed r w es r' w'
Allowed r zero (relock ∷ es) r' w' = ⊥
Allowed zero (suc w) (relock ∷ es) r' w' = Allowed zero (suc w) es r' w'
Allowed (suc r) (suc w) (relock ∷ es) r' w' = Allowed (suc (suc r)) (suc w) es r' w'

abbrev Reaches : Heap → ℕ → ℕ → List Event → ℕ → ℕ → Type 0
Reaches h d p es r' w' = (h' : Heap) × (perform_all h d es ≡ ok h') × Counted h' d p r' w'

module _ (d p : ℕ) (d_real : d ≢ 0) (p_real : p ≢ 0) where
  -- One event, and then the others.
  follow :
      (h h1 : Heap) (e : Event) (es : List Event) (r' w' : ℕ)
      → perform h d e ≡ ok h1
      → Reaches h1 d p es r' w'
      → Reaches h d p (e ∷ es) r' w'
  unfolding perform_all
  follow h h1 e es r' w' step (h', ran, c) =
      (h', ap (λ x. x >>= λ h2. perform_all h2 d es) step ∙ ran, c)

  -- For an object that holds no weak_ptr itself, and fewer than 2 ^ 32 pointers: in any sequence of
  -- copies and ends of its shared_ptrs and weak_ptrs and of locks, by pointers that there are, no
  -- operation fails, the object is deleted with the last shared_ptr, and the Data is freed with the
  -- last pointer: after all events the heap is as the numbers of the pointers say. Assignments,
  -- moves and casts are no events here.
  pub perform_all-Counted :
      (h : Heap) (r w : ℕ) (es : List Event) (r' w' : ℕ)
      → Allowed r w es r' w'
      → r + w + length es + 1 < 2 ^ 32
      → Counted h d p r w
      → (h' : Heap) × (perform_all h d es ≡ ok h') × Counted h' d p r' w'
  unfolding perform perform_all
  perform_all-Counted h r w [] r' w' a small c =
      (h, refl, subst (λ x. Counted h d p r' x) a.1 (subst (λ x. Counted h d p x w) a.0 c))
  perform_all-Counted h zero w (share ∷ es) r' w' a small c = absurd a
  perform_all-Counted h (suc r) w (share ∷ es) r' w' a small c =
      let (h1, ran, c1) = shared_copy-Counted h d p d_real p_real r w (omega arith) c in
      follow h h1 share es r' w' ran
        (perform_all-Counted h1 (suc (suc r)) w es r' w' a (omega arith) c1)
  perform_all-Counted h zero w (drop ∷ es) r' w' a small c = absurd a
  perform_all-Counted h (suc r) w (drop ∷ es) r' w' a small c =
      let (h1, ran, c1) = shared_destroy-Counted h d p d_real p_real r w (omega arith) c in
      follow h h1 drop es r' w' ran (perform_all-Counted h1 r w es r' w' a (omega arith) c1)
  perform_all-Counted h zero zero (watch ∷ es) r' w' a small c = absurd a
  perform_all-Counted h zero (suc w) (watch ∷ es) r' w' a small c =
      let (h1, ran, c1) =
        weak_copy-Counted h d p d_real p_real zero (suc w) (omega arith) (inr (omega arith)) c in
      follow h h1 watch es r' w' ran
        (perform_all-Counted h1 zero (suc (suc w)) es r' w' a (omega arith) c1)
  perform_all-Counted h (suc r) w (watch ∷ es) r' w' a small c =
      let (h1, ran, c1) =
        weak_copy-Counted h d p d_real p_real (suc r) w (omega arith) (inl (omega arith)) c in
      follow h h1 watch es r' w' ran
        (perform_all-Counted h1 (suc r) (suc w) es r' w' a (omega arith) c1)
  perform_all-Counted h r zero (unwatch ∷ es) r' w' a small c = absurd a
  perform_all-Counted h r (suc w) (unwatch ∷ es) r' w' a small c =
      let (h1, ran, c1) = weak_destroy-Counted h d p d_real p_real r w (omega arith) c in
      follow h h1 unwatch es r' w' ran (perform_all-Counted h1 r w es r' w' a (omega arith) c1)
  perform_all-Counted h r zero (relock ∷ es) r' w' a small c = absurd a
  perform_all-Counted h zero (suc w) (relock ∷ es) r' w' a small c =
      let ran = lock_expired-Counted h d p d_real p_real w c in
      follow h h relock es r' w' (ap (λ x. x >>= λ r. ok r.1) ran)
        (perform_all-Counted h zero (suc w) es r' w' a (omega arith) c)
  perform_all-Counted h (suc r) (suc w) (relock ∷ es) r' w' a small c =
      let (h1, ran, c1) = lock-Counted h d p d_real p_real r w (omega arith) c in
      follow h h1 relock es r' w' (ap (λ x. x >>= λ r. ok r.1) ran)
        (perform_all-Counted h1 (suc (suc r)) (suc w) es r' w' a (omega arith) c1)

-- A new shared_ptr is the only one to its object.
pub shared_new-Counted :
    (h : Heap) (d p : ℕ) → h.objects p ≡ some 0 → Counted (shared_new h d p) d p 1 0
unfolding shared_new
shared_new-Counted h d p e = (update_self h.blocks d _, e)

module _ (h : Heap) (d p : ℕ) (d_real : d ≢ 0) (p_real : p ≢ 0) where
  self_deletes :
      (h1 : Heap)
      → h1.blocks d ≡ some (counted 0 1 p)
      → h1.objects p ≡ some d
      → delete_object h1 p
        ≡ ok (record h1 { blocks = update h1.blocks d none; objects = update h1.objects p none })
  unfolding delete_object weak_destroy
  self_deletes h1 e o = ground arith

  -- When the weak_ptr to an object that is a member of the object itself, as `self` of a
  -- PartitionTable is after setSelf, is the last weak_ptr to it, the end of the last shared_ptr reads
  -- the Data after the object's destructor freed it.
  pub shared_destroy-fault :
      h.blocks d ≡ some (counted 1 1 p) → h.objects p ≡ some d → shared_destroy h d ≡ fault
  shared_destroy-fault e o =
      let h1 = store h d (counted 0 1 p) in
      destroy_last h d p d_real p_real 1 e
      ∙ ap (λ r. r >>= after_delete h d p d_real p_real)
          (self_deletes h1 (update_self h.blocks d _) o)
      ∙ freed (update h1.blocks d none) (update h1.objects p none) (update_self h1.blocks d none)
    where
      freed :
          (bs : ℕ → Option Data) (os : ℕ → Option ℕ)
          → bs d ≡ none
          → after_delete h d p d_real p_real (record { blocks = bs; objects = os }) ≡ fault
      freed bs os n = ground arith

-- Assigning a null shared_ptr or a null weak_ptr to a null weak_ptr reads through the null pointer.
pub weak_assign-fault :
    (h : Heap)
    → h.blocks 0 ≡ none
    → (weak_assign_shared h 0 0 ≡ fault) × (weak_assign h false 0 0 ≡ fault)
unfolding weak_assign_shared weak_assign weak_destroy
weak_assign-fault h e = (ground arith, ground arith)
