-- ===== src/Interval/Tests.antt =====
-- Runs of src/figtree/interval.c, and the laws at concrete intervals.
use gdpfs.Base.{ℕ, ◌≡◌, refl, ◌↔◌, true, false, none, arith}
use gdpfs.Interval.{init, restrict_range, overlaps}
use gdpfs.Interval.Laws.{In, IsValid, overlaps_iff}

restrict_disjoint : restrict_range (init 5 9) 10 20 false ≡ none
unfolding restrict_range
restrict_disjoint = refl

init-IsValid : IsValid (init 5 9)
init-IsValid = ground arith

other-IsValid : IsValid (init 7 20)
other-IsValid = ground arith

overlaps_met :
    (overlaps (init 5 9) (init 7 20) ≡ true) ↔ ((x : ℕ) × In x (init 5 9) × In x (init 7 20))
overlaps_met = overlaps_iff (init 5 9) (init 7 20) init-IsValid other-IsValid refl refl
