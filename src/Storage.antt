-- ===== src/Storage.antt =====
-- src/storage.rs: storage that is allocated and freed once, and storage that is only borrowed; with
-- the allocations of `AreaInner::new` and their release by the last `Drop` in src/area.rs. A heap
-- maps an address to the live allocation there; `none` in a result is undefined behaviour.
pub mod Teardown
pub mod Filling
use market_square.Base.{
  ℕ, zero, suc, Bool, true, false, Option, none, some, List, [], ◌∷◌, ◌==◌, leb, if◌then◌else◌,
  length, replicate, take,
}
use market_square.Map.{new_slot}
use market_square.State.{Slot}
use market_square.Area.{suspended_bit}

-- The four kinds of storage, by address and, for slices, capacity.
pub data FixedStorage : Type 0 where
  boxed_storage : (ptr : ℕ) → FixedStorage
  boxed_slice_storage : (ptr capacity : ℕ) → FixedStorage
  static_storage : (ptr : ℕ) → FixedStorage
  static_slice_storage : (ptr capacity : ℕ) → FixedStorage

abbrev pub as_ptr : FixedStorage → ℕ
as_ptr (boxed_storage ptr) = ptr
as_ptr (boxed_slice_storage ptr capacity) = ptr
as_ptr (static_storage ptr) = ptr
as_ptr (static_slice_storage ptr capacity) = ptr

abbrev pub capacity : FixedStorage → ℕ
capacity (boxed_storage ptr) = 1
capacity (boxed_slice_storage ptr n) = n
capacity (static_storage ptr) = 1
capacity (static_slice_storage ptr n) = n

-- `StaticSliceStorage::from_raw`.
abbrev pub from_raw : ℕ → ℕ → FixedStorage
from_raw ptr capacity = static_slice_storage ptr capacity

-- `StaticSliceStorage::from_static`, of the elements `xs` at `ptr`.
abbrev pub from_static : {A : Type 0} → ℕ → List A → FixedStorage
from_static ptr xs = static_slice_storage ptr (length xs)

-- `next` is the address of the next allocation.
pub record Heap (A : Type 0) : Type 0 where
  pub next : ℕ
  pub block : ℕ → Option (List A)

module _ {A : Type 0} where
  abbrev pub allocate : List A → Heap A → ℕ × Heap A
  allocate xs h = (
    h.next,
    record h { next = suc h.next; block = λ p. if p == h.next then some xs else h.block p },
  )

  -- `BoxedStorage::new`, and `from_boxed` in it.
  abbrev pub boxed_new : A → Heap A → FixedStorage × Heap A
  boxed_new value h = let (ptr, h') = allocate (value ∷ []) h in (boxed_storage ptr, h')

  abbrev pub from_boxed_slice : List A → Heap A → FixedStorage × Heap A
  from_boxed_slice xs h = let (ptr, h') = allocate xs h in (boxed_slice_storage ptr (length xs), h')

  -- The loop that pushes `init()`, a closure with state, `n` times.
  unfoldable pub push_all : {S : Type 0} → ℕ → (S → A × S) → S → List A × S
  push_all zero init s = ([], s)
  push_all (suc n) init s =
      let (x, s1) = init s in let (xs, s2) = push_all n init s1 in (x ∷ xs, s2)

  unfoldable pub with_capacity_and_init :
      {S : Type 0} → ℕ → (S → A × S) → S → Heap A → FixedStorage × Heap A
  unfolding push_all
  with_capacity_and_init capacity init s h = from_boxed_slice (push_all capacity init s).0 h

  -- The elements behind a storage of `capacity` of them, where they are live.
  abbrev pub elements : ℕ → ℕ → Heap A → Option (List A)
  elements ptr capacity h = elim (h.block ptr) [
    | none ↦ none
    | some xs ↦ if leb capacity (length xs) then some (take capacity xs) else none
  ]

  -- `slice`, or `as_ref` as a slice of one.
  unfoldable pub slice : FixedStorage → Heap A → Option (List A)
  slice (boxed_storage ptr) h = elements ptr 1 h
  slice (boxed_slice_storage ptr capacity) h = elements ptr capacity h
  slice (static_storage ptr) h = elements ptr 1 h
  slice (static_slice_storage ptr capacity) h = elements ptr capacity h

  abbrev pub released : ℕ → Heap A → Heap A
  released ptr h = record h { block = λ p. if p == ptr then none else h.block p }

  -- `Box::from_raw` on `n` elements, and the drop of that box, which drops the elements first.
  unfoldable pub drop_box : (List A → Heap A → Option (Heap A)) → ℕ → ℕ → Heap A → Option (Heap A)
  drop_box drop ptr n h = elim (h.block ptr) [
    | none ↦ none
    | some xs ↦
        let dropped = drop xs h in
        if length xs == n
        then elim dropped [ none ↦ none | some h' ↦ some (released ptr h') ]
        else none
  ]

  -- `drop` is what dropping the elements does.
  unfoldable pub deallocate :
      (List A → Heap A → Option (Heap A)) → FixedStorage → Heap A → Option (Heap A)
  unfolding drop_box
  deallocate drop (boxed_storage ptr) h = drop_box drop ptr 1 h
  deallocate drop (boxed_slice_storage ptr capacity) h = drop_box drop ptr capacity h
  deallocate drop (static_storage ptr) h = some h
  deallocate drop (static_slice_storage ptr capacity) h = some h

  -- Elements without a `Drop` of their own.
  abbrev pub plain : List A → Heap A → Option (Heap A)
  plain xs h = some h

-- The storages that an `AreaInner` holds.
pub record Allocations : Type 0 where
  pub reader_gens : FixedStorage
  pub buffer : FixedStorage
  pub destroy_stages : FixedStorage
  pub reader_keep_alloc_tickets : FixedStorage
  pub reader_stage_tickets : FixedStorage

-- What the allocations of an area are made of.
pub data Element (T : Type 0) : Type 0 where
  counter : ℕ → Element T
  slot : Slot → Element T
  cell : Option T → Element T
  inner : Allocations → Element T

module _ {T : Type 0} where
  -- The `Drop` of `SimpleLPHashMap`, which is all that dropping an `AreaInner` runs.
  unfoldable pub drop_inner : List (Element T) → Heap (Element T) → Option (Heap (Element T))
  unfolding deallocate
  drop_inner (inner x ∷ []) h = deallocate plain x.reader_gens h
  drop_inner _ h = some h

  -- The allocations of `AreaInner::new`, in its order.
  unfoldable pub new_inner : ℕ → ℕ → Heap (Element T) → FixedStorage × Heap (Element T)
  unfolding with_capacity_and_init
  new_inner buffer_capacity reader_capacity h =
      let (buffer, h1) =
        with_capacity_and_init buffer_capacity (λ (u : Unit {0}). (cell none, u)) tt h in
      let (destroy_stages, h2) = boxed_new (counter 2) h1 in
      let (reader_keep_alloc_tickets, h3) = boxed_new (counter 0) h2 in
      let (reader_stage_tickets, h4) = boxed_new (counter 0) h3 in
      let (reader_gens, h5) =
        with_capacity_and_init reader_capacity
          (λ (u : Unit {0}). (slot (new_slot suspended_bit), u)) tt h4 in
      boxed_new
        (inner (record {
          reader_gens = reader_gens;
          buffer = buffer;
          destroy_stages = destroy_stages;
          reader_keep_alloc_tickets = reader_keep_alloc_tickets;
          reader_stage_tickets = reader_stage_tickets;
        }))
        h5

  -- The release by the last `Drop`, from the freeing of the atomics on.
  unfoldable pub free_counters : Allocations → Heap (Element T) → Option (Heap (Element T))
  unfolding deallocate
  free_counters x h = elim (deallocate plain x.destroy_stages h) [
    | none ↦ none
    | some h1 ↦ elim (deallocate plain x.reader_keep_alloc_tickets h1) [
      | none ↦ none
      | some h2 ↦ deallocate plain x.reader_stage_tickets h2
    ]
  ]

  unfoldable pub free_area : FixedStorage → Heap (Element T) → Option (Heap (Element T))
  unfolding slice free_counters drop_inner
  free_area area h = elim (slice area h) [
    | some (inner x ∷ []) ↦ elim (free_counters x h) [
      | none ↦ none
      | some h1 ↦ elim (deallocate plain x.buffer h1) [
        | none ↦ none
        | some h2 ↦ deallocate drop_inner area h2
      ]
    ]
    | _ ↦ none
  ]
