-- ===== src/ReservationIter/Spin.antt =====
-- src/iter.rs: `ReservationIter::publish_spin` beside `Reservation::publish_spin` of src/area.rs.
use market_square.Base.{ℕ, zero, suc, ◌+◌, ◌≤◌, ◌<◌, ◌≡◌, refl, sym, ap₂, ◌∙◌, true, false}
use market_square.State.{World, Result, ok, err, Outcome, returned, panicked, shared}
use market_square.Area.Invariant.{Counts, Moment, Ensures}
use market_square.Area.Reader.Moves.{Kept}
use market_square.Area.Writer.{
  PublishError, cas_failed, out_of_order_publish_attempt, publish_slots,
}
use market_square.Reservation
use market_square.Reservation.{Reservation}
use market_square.Reservation.Split.{Guards}
use market_square.Reservation.Spin.{LeavesRange, Spun, publish_spin-Spun}
use market_square.ReservationIter.{ReservationIter, all_written, publish, publish_spin}

-- The iterator wrote all of its slots, which are those of the guard.
pub record IsFilled (it : ReservationIter) (r : Reservation) : Type 0 where
  pub starts : it.start_gen ≡ r.start_gen
  pub ends : it.end_gen ≡ r.end_gen
  pub whole : all_written it ≡ true

module _ {T : Type 0} (fuel : ℕ) where
  -- What the two loops do with the outcome of a publication.
  guard_step : Reservation → Result PublishError (Unit {0}) × World T → Outcome (World T)
  guard_step r q =
      let p : Result (Reservation × PublishError) Reservation = elim q.0 [
        | ok _ ↦ ok (record r { published = true })
        | err e ↦ err (record r { published = false }, e)
      ] in
      elim p [
        | ok _ ↦ returned q.1
        | err (r', e) ↦ elim e [
          | cas_failed ↦ Reservation.publish_spin fuel r' q.1
          | out_of_order_publish_attempt ↦ panicked
        ]
      ]

  iter_step : ReservationIter → Result PublishError (Unit {0}) × World T → Outcome (World T)
  iter_step it q =
      let p : Result (ReservationIter × PublishError) ReservationIter = elim q.0 [
        | ok _ ↦ ok (record it { published = true })
        | err e ↦ err (record it { published = false }, e)
      ] in
      elim p [
        | ok _ ↦ returned q.1
        | err (it', e) ↦ elim e [
          | cas_failed ↦ publish_spin fuel it' q.1
          | out_of_order_publish_attempt ↦ panicked
        ]
      ]

  guard_round :
      (r : Reservation) (w : World T)
      → Reservation.publish_spin (suc fuel) r w
        ≡ guard_step r (publish_slots shared r.start_gen r.end_gen w)
  unfolding Reservation.publish_spin Reservation.publish guard_step
  guard_round r w = refl

  iter_round :
      (it : ReservationIter) (w : World T)
      → all_written it ≡ true
      → publish_spin (suc fuel) it w ≡ iter_step it (publish_slots shared it.start_gen it.end_gen w)
  unfolding publish_spin publish iter_step
  iter_round it w whole = rw (whole, publish_spin, publish) refl

  -- The two agree on a round if they agree on the rounds after it.
  same_step :
      (it : ReservationIter) (r : Reservation) (q : Result PublishError (Unit {0}) × World T)
      → publish_spin fuel (record it { published = false }) q.1
        ≡ Reservation.publish_spin fuel (record r { published = false }) q.1
      → iter_step it q ≡ guard_step r q
  unfolding iter_step guard_step
  same_step it r (ok u, w) e = refl
  same_step it r (err cas_failed, w) e = e
  same_step it r (err out_of_order_publish_attempt, w) e = refl

-- A filled iterator spins as its reservation does.
same_spin :
    {T : Type 0} (fuel : ℕ) (it : ReservationIter) (r : Reservation) (w : World T)
    → IsFilled it r
    → publish_spin fuel it w ≡ Reservation.publish_spin fuel r w
unfolding publish_spin Reservation.publish_spin
same_spin zero it r w f = refl
same_spin (suc fuel) it r w f =
    let q = publish_slots shared r.start_gen r.end_gen w in
    iter_round fuel it w f.whole
    ∙ (ap₂ (λ s e. iter_step fuel it (publish_slots shared s e w)) f.starts f.ends
        ∙ (same_step fuel it r q (
              same_spin fuel (record it { published = false }) (record r { published = false }) q.1
                (record { starts = f.starts; ends = f.ends; whole = f.whole }))
            ∙ sym (guard_round fuel r w)))

-- Whatever disciplined other threads do that publish nothing from message `x` on: spinning on the
-- publication of a non-empty reserved range of `n` messages from `x` on, by its guard or by an
-- iterator that wrote all of it, never panics and keeps the invariant. When it returns, it wrote
-- once, at an access at which exactly the messages before `x` were published, and the published
-- messages end where the range ends. The guard and the iterator do the same.
pub publish_spins-Spun :
    {T : Type 0} {limit : ℕ} (fuel x n : ℕ) (r : Reservation) (it : ReservationIter) {c : Counts}
    (w : World T)
    → Moment limit c w
    → LeavesRange limit x w
    → Guards x n r
    → IsFilled it r
    → 0 < n
    → x + n ≤ c.write
    → c.read ≤ x
    → Ensures
        (λ w'. Kept limit c w (Spun limit c w x (x + n)) (tt, w'))
        (Reservation.publish_spin fuel r w)
      × (publish_spin fuel it w ≡ Reservation.publish_spin fuel r w)
publish_spins-Spun fuel x n r it w m leaves g filled some_slots k unpublished = (
  publish_spin-Spun fuel x n r w m leaves g some_slots k unpublished,
  same_spin fuel it r w filled,
)
