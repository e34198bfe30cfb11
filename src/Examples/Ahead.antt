-- ===== src/Examples/Ahead.antt =====
-- A reader that resumes ahead of the published messages.
use market_square.Base.{ℕ, ◌-◌, ◌^◌, ◌≡◌, refl}
use market_square.State.{returned, panicked, spinning}
use market_square.Arithmetics.{
  gen_dist_msb_masked, gen_lt_msb_masked, gen_gte_msb_masked, gen_without_suspended_bit,
  is_suspended,
}
use market_square.Map.{
  index_for, key_bits, get_or_insert_concurrent, probe_from, probe_slot, load_key,
}
use market_square.Area.Reader.{
  get_reader_ptr_boilerplate, get_reader_gen, resume_reader_at, resume_at_from,
}
use market_square.ReadSlice.{get_gen, read, len}
use market_square.Examples.{quiet}

-- The published messages end at generation 0. Reader 1 is suspended, and resumes at generation 3:
-- its next slice claims to have almost 2 ^ 63 messages.
beyond :
    (elim (resume_reader_at 1 1 3 quiet) as (λ o. ℕ) [
      | returned (resumed, w) ↦ elim (read 1 w) as (λ o. ℕ) [
        | returned (s, w') ↦ len s
        | panicked ↦ 0
        | spinning ↦ 0
      ]
      | panicked ↦ 0
      | spinning ↦ 0
    ])
    ≡ 2 ^ 63 - 3
unfolding gen_dist_msb_masked gen_lt_msb_masked gen_gte_msb_masked gen_without_suspended_bit
    is_suspended index_for key_bits get_or_insert_concurrent probe_from probe_slot load_key
    get_reader_ptr_boilerplate get_reader_gen resume_reader_at resume_at_from get_gen read len
beyond = refl
