-- ===== src/Area/Cleanup/Ends.antt =====
-- The claim, the drops and the release of a range by a cleanup that no other thread disturbs.
use market_square.Base.{
  ℕ, zero, suc, ◌+◌, ◌-◌, ◌%◌, ◌^◌, if◌then◌else◌, ◌≤◌, ◌<◌, ◌≡◌, refl, ap, ◌∙◌, inl, inr, Bool,
  true, false, Option, none, List, Bool-cases, ==_iff, set,
}
use market_square.Arithmetics.{gen_dist_msb_masked, gen_add_msb_masked, gen_lte_msb_masked}
use market_square.Arithmetics.Window.{generation_of, dist-generation_of}
use market_square.State.{
  AreaInner, World, alone, Result, ok, err, Outcome, returned, Mode, shared, exclusive,
}
use market_square.Area.{slot_index, write_slot}
use market_square.Area.Slots.{compare_exchange-exchanged}
use market_square.Area.Cleanup.{
  CleanupError, nothing_to_clean, CleanupResult, set_last_valid_gen, set_free_gen, claim_range,
  drop_range, release_range, clean_range,
}

module _ {T : Type 0} (fuel l new : ℕ) (a : AreaInner T) where
  pub claims_nothing :
      (mode : Mode)
      → gen_lte_msb_masked (generation_of new) (generation_of l) ≡ true
      → claim_range mode (suc fuel) (generation_of l) (generation_of new) (alone a)
        ≡ returned (err nothing_to_clean, alone a)
  unfolding claim_range
  claims_nothing shared h = rw (h, claim_range) refl
  claims_nothing exclusive h = rw (h, claim_range) refl

  pub claims :
      (mode : Mode)
      → gen_lte_msb_masked (generation_of new) (generation_of l) ≡ false
      → a.last_valid_gen ≡ generation_of l
      → claim_range mode (suc fuel) (generation_of l) (generation_of new) (alone a)
        ≡ returned (ok (generation_of l), alone (set_last_valid_gen (generation_of new) a))
  unfolding claim_range
  claims shared h e =
      let won =
        compare_exchange-exchanged (λ x. x.last_valid_gen) (set_last_valid_gen (generation_of new))
          (generation_of l) (alone a) e in
      rw (h, won, claim_range) (rw won refl)
  claims exclusive h e = rw (h, (==_iff _ _).1 e, claim_range) refl

  releases :
      (mode : Mode)
      → a.free_gen ≡ generation_of l
      → release_range mode (suc fuel) (generation_of l) (generation_of new) (alone a)
        ≡ returned (tt, alone (set_free_gen (generation_of new) a))
  unfolding release_range
  releases shared e =
      let won =
        compare_exchange-exchanged (λ x. x.free_gen) (set_free_gen (generation_of new))
          (generation_of l) (alone a) e in
      rw (won, release_range) (rw won refl)
  releases exclusive e = rw ((==_iff _ _).1 e, release_range) refl

-- The buffer after `n` drops from generation `v + offset` on.
unfoldable pub emptied : {T : Type 0} → ℕ → ℕ → ℕ → ℕ → List (Option T) → List (Option T)
emptied cap v zero offset b = b
emptied cap v (suc n) offset b =
    emptied cap v n (offset + 1) (set b (gen_add_msb_masked v offset % cap) none)

-- The buffer after a cleanup of the messages `[l, new)`.
abbrev pub buffer_after : {T : Type 0} → Bool → ℕ → ℕ → AreaInner T → List (Option T)
buffer_after needs_drop l new a =
    if needs_drop
    then emptied a.buffer_capacity (generation_of l) (new - l) 0 a.buffer
    else a.buffer

drop_range-alone :
    {T : Type 0} (v n offset : ℕ) (a : AreaInner T) (b : List (Option T))
    → drop_range v n offset (alone (record a { buffer = b }))
      ≡ alone (record a { buffer = emptied a.buffer_capacity v n offset b })
unfolding drop_range write_slot slot_index emptied
drop_range-alone v zero offset a b = refl
drop_range-alone v (suc n) offset a b =
    drop_range-alone v n (offset + 1) a
      (set b (gen_add_msb_masked v offset % a.buffer_capacity) none)

pub clean_range-alone :
    {T : Type 0} (mode : Mode) (needs_drop : Bool) (fuel l new : ℕ) (a : AreaInner T)
    → a.free_gen ≡ generation_of l
    → l ≤ new
    → new < l + 2 ^ 63
    → clean_range mode needs_drop (suc fuel) (generation_of l) (generation_of new) (alone a)
      ≡ returned (
        ok (record {
          old_last_valid = generation_of l;
          new_last_valid = generation_of new;
          slots_cleaned = new - l;
        }),
        alone (record a { free_gen = generation_of new; buffer = buffer_after needs_drop l new a }),
      )
unfolding clean_range
clean_range-alone {T} mode needs_drop fuel l new a e lo hi =
    let counted : gen_dist_msb_masked (generation_of new) (generation_of l) ≡ new - l =
      dist-generation_of new l lo hi in
    let ends = λ (b : List (Option T)). releases fuel l new (record a { buffer = b }) mode e in
    let reported = λ (b : List (Option T)).
      ap {B = Outcome (Result CleanupError CleanupResult × World T)}
        (λ n. returned (
          ok (record {
            old_last_valid = generation_of l;
            new_last_valid = generation_of new;
            slots_cleaned = n;
          }),
          alone (set_free_gen (generation_of new) (record a { buffer = b })),
        ))
        counted in
    elim (Bool-cases needs_drop) [
      | inl drops ↦
          let b = emptied a.buffer_capacity (generation_of l) (new - l) 0 a.buffer in
          let dropped =
            ap (λ n. drop_range (generation_of l) n 0 (alone a)) counted
            ∙ drop_range-alone (generation_of l) (new - l) 0 a a.buffer in
          rw (drops, dropped, ends b, clean_range) (reported b)
      | inr plain ↦ rw (plain, ends a.buffer, clean_range) (reported a.buffer)
    ]
