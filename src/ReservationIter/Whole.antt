-- ===== src/ReservationIter/Whole.antt =====
-- src/iter.rs: an iterator publishes all of its reservation or nothing.
use mathlib.Core.Path.{subst}
use market_square.Base.{
  ℕ, ◌+◌, ◌^◌, ◌≤◌, ◌≡◌, refl, sym, ap, ◌∙◌, inl, inr, Bool, true, List, ◌==◌, length,
  if◌then◌else◌, Bool-cases, arith,
}
use market_square.State.{
  AreaInner, World, alone, ok, err, Outcome, returned, panicked, spinning, Mode,
}
use market_square.Area.Writer.{publish_slots}
use market_square.Reservation.{Reservation}
use market_square.Reservation.Split.{Guards}
use market_square.ReservationIter.{ReservationIter, into_iter, publish}
use market_square.ReservationIter.Fill.{fill, at, into_iter-at, filled, fill-filled}

-- The iterator's publication is that of the range of `r` when `all` holds, and panics otherwise.
abbrev pub PublishesAll :
    {T : Type 0} → Mode → Reservation → Bool → Outcome (ReservationIter × World T) → Type 0
PublishesAll mode r all (returned (it, w)) =
    let (result, w') = publish_slots mode r.start_gen r.end_gen w in
    publish mode it w ≡ (
      if all
      then returned
          (elim result [ ok _ ↦ ok (record it { published = true }) | err e ↦ err (it, e) ], w')
      else panicked)
PublishesAll mode r all panicked = ⊥
PublishesAll mode r all spinning = ⊥

publishes :
    {T : Type 0} (mode : Mode) (x n k : ℕ) (r : Reservation) (w : World T)
    → Guards x n r
    → PublishesAll mode r (k == n) (returned (at x n k, w))
unfolding publish
publishes mode x n k r w g = elim (Bool-cases (k == n)) [
  | inl whole ↦ rw (g.starts, g.ends, whole) refl
  | inr part ↦ rw (part, publish) refl
]

-- After values were written to as many slots of a reservation as there are values, in turn,
-- publishing the iterator panics when there are fewer values than slots. Otherwise it publishes
-- exactly the range of the reservation, in either mode; on an error the iterator comes back as it
-- was.
pub publish-PublishesAll :
    {T : Type 0} (mode : Mode) (x n : ℕ) (vs : List T) (r : Reservation) (a : AreaInner T)
    → Guards x n r
    → n ≤ 2 ^ 60
    → length vs ≤ n
    → PublishesAll mode r (length vs == n) (fill vs (into_iter r) (alone a))
publish-PublishesAll mode x n vs r a g small h =
    let k = length vs in
    let counted : 0 + k ≡ k = omega arith in
    let ran =
      ap (λ it. fill vs it (alone a)) (into_iter-at r x n g)
      ∙ (fill-filled x n small vs 0 a (omega (arith, h))
          ∙ ap
              (λ j. returned (
                at x n j,
                alone (record a { buffer = filled a.buffer_capacity (x + 0) vs a.buffer }),
              ))
              counted) in
    subst (PublishesAll mode r (k == n)) (sym ran) (
      publishes mode x n k r
        (alone (record a { buffer = filled a.buffer_capacity (x + 0) vs a.buffer })) g)
