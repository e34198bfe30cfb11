-- ===== src/Area/Cleanup/AloneAll.antt =====
-- The scan of all slots by a cleanup that no other thread disturbs.
use mathlib.Core.Path.{subst}
use market_square.Base.{
  ℕ, zero, suc, ◌+◌, ◌≤◌, ◌≡◌, refl, ap, ap₂, ◌∙◌, inl, inr, ◌==◌, if◌then◌else◌, min, Bool-cases,
  ==_iff, arith,
}
use market_square.Arithmetics.{is_suspended}
use market_square.Arithmetics.Window.{generation_of}
use market_square.State.{Slot, AreaInner, alone, returned}
use market_square.Map.{capacity, slot_at}
use market_square.Area.Invariant.{Counts, Explains}
use market_square.Area.Cleanup.{scan_from}
use market_square.Area.Cleanup.Alone.{needed, needed-le, Untouched, Scanned, scan_slot-alone}

Untouched-trans :
    {T : Type 0} {c d e : Counts} {a b x : AreaInner T} (i j : ℕ)
    → i ≤ j
    → Untouched c a i d b
    → Untouched d b j e x
    → Untouched c a j e x
Untouched-trans i j h p q = record {
  slots = λ k l. q.slots k l ∙ p.slots k (omega (arith, h, l));
  held = λ k l. q.held k l ∙ p.held k (omega (arith, h, l));
  counts = omega (arith, p.counts, q.counts);
  size = omega (arith, p.size, q.size);
  buffer = q.buffer ∙ p.buffer;
}

Untouched-refl : {T : Type 0} {c : Counts} {a : AreaInner T} (i : ℕ) → Untouched c a i c a
Untouched-refl i = ground arith

-- The readers' need is read off the slots that a scan has not reached.
needed-same :
    {T : Type 0} {c c' : Counts} {a a' : AreaInner T} (old n idx : ℕ)
    → Untouched c a idx c' a'
    → needed c' a'.reader_gens old n idx ≡ needed c a.reader_gens old n idx
needed-same old zero idx u = refl
needed-same {c} {c'} {a} {a'} old (suc n) idx u =
    let further = Untouched-trans idx (suc idx) (omega arith) u (Untouched-refl (suc idx)) in
    ap (λ o. needed c' a'.reader_gens o n (suc idx))
      (ap₂ (λ (slot : Slot) h. if is_suspended slot.value then old else min old h)
        (u.slots idx (omega arith)) (u.held idx (omega arith)))
    ∙ needed-same
        (if is_suspended (slot_at a.reader_gens idx).value then old else min old (c.held idx)) n
        (suc idx) further

pub scan_from-alone :
    {T : Type 0} (fuel n : ℕ) {c : Counts} {a : AreaInner T} (e : Explains c a) (old idx : ℕ)
    → idx + n ≤ capacity a.reader_gens
    → c.last_valid ≤ old
    → old ≤ c.read
    → Scanned c a idx
        (idx + n)
        (needed c a.reader_gens old n idx)
        (scan_from (suc fuel) n idx (generation_of old) (alone a))
unfolding scan_from
scan_from-alone fuel zero {c} {a} e old idx b lo hi = record {
  after = c;
  mem = a;
  result = refl;
  explains = e;
  untouched = Untouched-refl (idx + 0);
  earlier = λ j h. refl;
  past = λ j h k. absurd (omega (arith, h, k));
}
scan_from-alone fuel (suc n) {c} {a} e old idx b lo hi =
    let x = scan_slot-alone e old idx fuel (omega (arith, b)) lo hi in
    let here = e.1 idx (omega (arith, b)) in
    let next =
      if is_suspended (slot_at a.reader_gens idx).value then old else min old (c.held idx) in
    let lo' : c.last_valid ≤ next = ground (arith, lo, here) in
    let hi' : next ≤ c.read = ground (arith, hi) in
    let y =
      scan_from-alone fuel n x.explains next (suc idx) (omega (arith, b, x.untouched.size))
        (omega (arith, lo', x.untouched.counts)) (omega (arith, hi', x.untouched.counts)) in
    let least = needed-le c a.reader_gens next n (suc idx) in
    let place : suc idx + n ≡ idx + suc n = omega arith in
    rw (x.result, scan_from)
      (record {
        after = y.after;
        mem = y.mem;
        result =
            y.result
            ∙ ap (λ k. returned (generation_of k, alone y.mem))
                (needed-same next n (suc idx) x.untouched);
        explains = y.explains;
        untouched =
            Untouched-trans (suc idx) (idx + suc n) (omega arith) x.untouched
              (subst (λ k. Untouched x.after x.mem k y.after y.mem) place y.untouched);
        earlier = λ j h. y.earlier j (omega (arith, h)) ∙ x.earlier j h;
        past = λ j h k. elim (Bool-cases (j == idx)) [
          | inl first ↦
              let now = (==_iff j idx).0 first in
              ground (arith, now, x.past j h, y.earlier j, least)
          | inr later ↦
              ground (arith, later, h, k, y.past j, needed-same next n (suc idx) x.untouched)
        ];
      })
