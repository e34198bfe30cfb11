-- ===== src/Storage/Filling.antt =====
-- src/storage.rs: `BoxedSliceStorage::with_capacity_and_init`, seen through `slice`.
use market_square.Base.{
  ℕ, zero, suc, ◌≤◌, ◌<◌, ◌≡◌, ◌≢◌, refl, ap, true, some, List, [], ◌∷◌, leb, length, get_or, take,
  arith,
}
use market_square.Storage.{
  FixedStorage, Heap, as_ptr, capacity, from_raw, from_static, push_all, elements,
  with_capacity_and_init, slice, deallocate, plain,
}

module _ {A S : Type 0} (init : S → A × S) where
  -- The closure's state after `n` calls.
  abbrev pub state_after : ℕ → S → S
  state_after zero s = s
  state_after (suc n) s = state_after n (init s).1

  length-push_all : (n : ℕ) (s : S) → length (push_all n init s).0 ≡ n
  unfolding push_all
  length-push_all zero s = refl
  length-push_all (suc n) s = ap suc (length-push_all n (init s).1)

  get_or-push_all :
      (n i : ℕ) (s : S) (d : A)
      → i < n
      → get_or (push_all n init s).0 i d ≡ (init (state_after i s)).0
  unfolding push_all
  get_or-push_all zero i s d h = absurd (omega (arith, h))
  get_or-push_all (suc n) zero s d h = refl
  get_or-push_all (suc n) (suc i) s d h = get_or-push_all n i (init s).1 d (omega (arith, h))

take-length : {A : Type 0} (xs : List A) → take (length xs) xs ≡ xs
take-length [] = refl
take-length (x ∷ xs) = ap (λ r. x ∷ r) (take-length xs)

elements-live :
    {A : Type 0} (ptr : ℕ) (xs : List A) (h : Heap A)
    → h.block ptr ≡ some xs
    → elements ptr (length xs) h ≡ some xs
elements-live ptr xs h e =
    let whole : leb (length xs) (length xs) ≡ true = ground arith in
    rw (e, whole, elements) (ap some (take-length xs))

-- What is seen of storage that borrows the elements `xs` at `ptr`, and of its release.
pub record IsLent {A : Type 0} (ptr : ℕ) (xs : List A) (h : Heap A) : Type 0 where
  pub whole : slice (from_static ptr xs) h ≡ some xs
  pub sized : capacity (from_static ptr xs) ≡ length xs
  pub raw : slice (from_raw ptr (length xs)) h ≡ some xs
  pub kept : deallocate plain (from_static ptr xs) h ≡ some h

-- The slice has `n` elements, each from its own call of the closure, in the order of the calls, at
-- an address that was not in use; other allocations stay.
pub record IsFilled {A S : Type 0} (n : ℕ) (init : S → A × S) (s : S) (h : Heap A)
    (r : FixedStorage × Heap A) : Type 0 where
  pub contents : List A
  pub seen : slice r.0 r.1 ≡ some contents
  pub all : length contents ≡ n
  pub each : (i : ℕ) (d : A) → i < n → get_or contents i d ≡ (init (state_after init i s)).0
  pub others : (p : ℕ) → p ≢ as_ptr r.0 → r.1.block p ≡ h.block p
  pub unused : h.next ≤ as_ptr r.0
  pub sized : capacity r.0 ≡ n
  pub lent : IsLent (as_ptr r.0) contents r.1

-- Storage created with a capacity and a closure holds exactly that many elements, the `i`-th from
-- the `i`-th call of the closure, in an allocation of its own, and every other one stays. Static
-- storage that borrows these elements shows the same ones, and its release frees nothing.
pub with_capacity_and_init-IsFilled :
    {A S : Type 0} (n : ℕ) (init : S → A × S) (s : S) (h : Heap A)
    → IsFilled n init s h (with_capacity_and_init n init s h)
unfolding with_capacity_and_init slice deallocate
with_capacity_and_init-IsFilled n init s h =
    let xs = (push_all n init s).0 in
    let r = with_capacity_and_init n init s h in
    record {
      contents = xs;
      seen = elements-live h.next xs r.1 (ground arith);
      all = length-push_all init n s;
      each = λ i d b. get_or-push_all init n i s d b;
      others = λ p ne. ground (arith, ne);
      unused = omega arith;
      sized = length-push_all init n s;
      lent = record {
        whole = elements-live h.next xs r.1 (ground arith);
        sized = refl;
        raw = elements-live h.next xs r.1 (ground arith);
        kept = refl;
      };
    }
