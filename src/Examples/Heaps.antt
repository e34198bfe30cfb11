-- ===== src/Examples/Heaps.antt =====
-- The theorems on storage, from an empty heap.
use market_square.Base.{ℕ, suc, refl, none}
use market_square.Storage.{Heap, Element, counter, with_capacity_and_init, new_inner}
use market_square.Storage.Teardown.{TornDown, free_area-TornDown}
use market_square.Storage.Filling.{IsFilled, with_capacity_and_init-IsFilled}

abbrev empty : Heap (Element ℕ)
empty = record { next = 0; block = λ p. none }

free_area-TornDown_example : let (area, h1) = new_inner 8 4 empty in TornDown empty area h1
free_area-TornDown_example = free_area-TornDown 8 4 empty (λ p h. refl)

abbrev count_up : ℕ → Element ℕ × ℕ
count_up n = (counter n, suc n)

with_capacity_and_init-IsFilled_example :
    IsFilled 3 count_up 5 empty (with_capacity_and_init 3 count_up 5 empty)
with_capacity_and_init-IsFilled_example = with_capacity_and_init-IsFilled 3 count_up 5 empty
