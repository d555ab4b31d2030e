-- ===== src/Tracker/Tests.antt =====
-- A tracker whose scores are natural numbers, on two frames.
use skyhookml.Prelude.{
  Dict, keys, contains, Distinct, nat_eq, text_eq, pair_eq, ℕ, ◌+◌, ◌≡◌, refl, false, some, List,
  [], ◌∷◌, arith, ltb, eqb, if◌then◌else◌,
}
use skyhookml.Prelude.Int.{pos, eqb_ℤ}
use skyhookml.Data.Detection.{Detection}
use skyhookml.Tracker.{Params, Outside, Track, extract_matches, track}
use skyhookml.Tracker.Matches.{IsTransitive}
use skyhookml.Tracker.Columns.{match_rows, match_cols}
use skyhookml.Tracker.OneToOne.{AllScored, extract_matches_lem}
use skyhookml.Tracker.Steps.{IsRange, Within}
use skyhookml.Tracker.Result.{AllTracked, track_lem}

abbrev detect : ℕ → ℕ → Detection ℕ
detect left top = record {
  left = pos left;
  top = pos top;
  right = pos (left + 9);
  bottom = pos (top + 9);
  category = [];
  track_id = 0;
  score = 1;
  metadata = [];
}

abbrev near : Detection ℕ → Detection ℕ → ℕ
near a b = if eqb_ℤ a.top b.top then 9 else 0

abbrev outside : Outside ℕ
outside = record {
  gt = λ a b. ltb b a;
  zero_score = 0;
  is_zero = λ a. eqb a 0;
  default_iou = 1;
  motion = λ n end best. (pos 0, pos 0);
  iou = near;
  range_tracks = λ n active. active;
}

abbrev params : Params ℕ
params = record { velocity_steps = pos 0; min_iou = 0; max_age = pos 0 }

abbrev frames : List (List (Detection ℕ))
frames = (detect 10 10 ∷ detect 50 50 ∷ []) ∷ (detect 52 50 ∷ detect 70 20 ∷ detect 12 10 ∷ []) ∷ []

outside-IsTransitive : IsTransitive outside.gt
outside-IsTransitive a b c e f = ground (arith, e, f)

Within-cons :
    (active order : Dict ℕ (Track ℕ)) (id : ℕ) (t : Track ℕ)
    → Within active order
    → contains (keys order) id ≡ false
    → Within ((id, t) ∷ active) order
Within-cons active [] id t within c = tt
Within-cons active ((j, u) ∷ order) id t within c = (
  ground (arith, within.0, c, nat_eq.test_iff id j, nat_eq.test_iff j id),
  Within-cons active order id t within.1 (ground (arith, c)),
)

Distinct-Within : (active : Dict ℕ (Track ℕ)) → Distinct (keys active) → Within active active
Distinct-Within [] d = tt
Distinct-Within ((id, t) ∷ active) d = (
  ground (arith, nat_eq.test_iff id id),
  Within-cons active active id t (Distinct-Within active d.1) d.0,
)

outside-IsRange : IsRange outside
outside-IsRange n active d = (d, Distinct-Within active d)

extract_matches_lem_example :
    (matches : List (ℕ × ℕ)) × (extract_matches outside params ((0 ∷ 3 ∷ []) ∷ (2 ∷ 5 ∷ []) ∷ [])
      ≡ some matches)
    × AllScored outside params ((0 ∷ 3 ∷ []) ∷ (2 ∷ 5 ∷ []) ∷ []) matches
    × Distinct (match_rows matches)
    × Distinct (match_cols matches)
extract_matches_lem_example =
    extract_matches_lem outside params ((0 ∷ 3 ∷ []) ∷ (2 ∷ 5 ∷ []) ∷ []) 2 outside-IsTransitive
      (refl, (refl, tt))

track_lem_example :
    (outs : List (List (Detection ℕ))) × (track outside params frames ≡ some outs)
    × AllTracked frames outs
track_lem_example = track_lem outside params outside-IsTransitive outside-IsRange frames
