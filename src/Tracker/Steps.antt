-- ===== src/Tracker/Steps.antt =====
-- exec_ops/simple_tracker/tracker.go: new tracks, old tracks, and the matrix of a frame.
use skyhookml.Prelude.{
  Dict, lookup, keys, contains, Distinct, lookup-keys, ◌==◌, nat_eq, text_eq, pair_eq, ℕ, zero, suc,
  ◌+◌, ◌<◌, ◌≡◌, refl, sym, ap, subst, ◌∙◌, inl, inr, Bool, true, false, none, some, List, [], ◌∷◌,
  arith, Bool-cases, length, get_elem?, length-append,
}
use skyhookml.Data.Detection.{Detection}
use skyhookml.Prelude.Int.{pos, ◌-ℤ◌, ltb_ℤ}
use skyhookml.Tracker.{
  estimate_from, closest, init, get_max_age, get_velocity_steps, Params, TrackedDetection, Outside,
  Track, last, State, tracked, values, estimate_position, row_scores, compute_scores, new_track,
  new_tracks, remove_old, ltb_ℤ, closest, pos,
}
use skyhookml.Tracker.Matches.{IsWide}
use skyhookml.Tracker.Frames.{
  track_ids, unmatched, AllLast, IsLive, IsLive-insert, outputs-Distinct, outputs-below,
}

-- The frame after the detections without a match have got new tracks.
new_track-IsFrame :
    {S : Type 0} (frame_idx : ℕ) (d : Detection S) (s : State S)
    → IsLive s.next_track_id s.active_tracks
    → ((id : ℕ) → contains (track_ids s.ndetections) id ≡ true → id < s.next_track_id)
    → Distinct (track_ids s.ndetections)
    → IsLive (s.next_track_id + 1) (new_track frame_idx d s).active_tracks
      × ((id : ℕ)
          → contains (track_ids (new_track frame_idx d s).ndetections) id ≡ true
          → id < s.next_track_id + 1)
      × Distinct (track_ids (new_track frame_idx d s).ndetections)
unfolding new_track
new_track-IsFrame frame_idx d s live below distinct =
    let detection = record d { track_id = s.next_track_id } in
    let fresh : contains (track_ids s.ndetections) s.next_track_id ≡ false =
      elim (Bool-cases (contains (track_ids s.ndetections) s.next_track_id)) [
        | inr out ↦ out
        | inl inside ↦ absurd (omega (arith, below s.next_track_id inside))
      ] in
    let grown : IsLive (s.next_track_id + 1) s.active_tracks = record {
      distinct = live.distinct;
      below = λ id c. omega (arith, live.below id c);
      lasts = live.lasts;
    } in
    (
      IsLive-insert s.next_track_id (s.next_track_id + 1) [] (tracked frame_idx detection)
          s.active_tracks (omega arith) grown,
      outputs-below s.ndetections detection (s.next_track_id + 1)
          (λ id c. omega (arith, below id c)) (omega arith),
      outputs-Distinct s.ndetections detection distinct fresh,
    )

pub new_tracks-IsFrame :
    {S : Type 0} (frame_idx : ℕ) (dlist : List (Detection S)) (matched : List Bool) (s : State S)
    → length matched ≡ length dlist
    → IsLive s.next_track_id s.active_tracks
    → ((id : ℕ) → contains (track_ids s.ndetections) id ≡ true → id < s.next_track_id)
    → Distinct (track_ids s.ndetections)
    → IsLive
        (new_tracks frame_idx dlist matched s).next_track_id
        (new_tracks frame_idx dlist matched s).active_tracks
      × Distinct (track_ids (new_tracks frame_idx dlist matched s).ndetections)
      × (length (new_tracks frame_idx dlist matched s).ndetections
          ≡ length s.ndetections + unmatched matched)
unfolding new_tracks new_track
new_tracks-IsFrame frame_idx [] [] s len live below distinct = (live, distinct, omega arith)
new_tracks-IsFrame frame_idx [] (m ∷ matched) s len live below distinct =
    absurd (omega (arith, len))
new_tracks-IsFrame frame_idx (d ∷ dlist) [] s len live below distinct = absurd (omega (arith, len))
new_tracks-IsFrame frame_idx (d ∷ dlist) (true ∷ matched) s len live below distinct =
    new_tracks-IsFrame frame_idx dlist matched s (omega (arith, len)) live below distinct
new_tracks-IsFrame frame_idx (d ∷ dlist) (false ∷ matched) s len live below distinct =
    let (live', below', distinct') = new_track-IsFrame frame_idx d s live below distinct in
    let (live'', distinct'', count) =
      new_tracks-IsFrame frame_idx dlist matched (new_track frame_idx d s) (omega (arith, len))
        live' below' distinct' in
    (
      live'',
      distinct'',
      omega (
        arith,
        count,
        length-append s.ndetections (record d { track_id = s.next_track_id } ∷ []),
      ),
    )

pub remove_old-AllLast :
    {S : Type 0} (params : Params S) (frame_idx : ℕ) (active : Dict ℕ (Track S))
    → AllLast active
    → Distinct (keys active)
    → (left : Dict ℕ (Track S)) × (remove_old params frame_idx active ≡ some left)
      × AllLast left
      × Distinct (keys left)
      × ((id : ℕ) → contains (keys left) id ≡ true → contains (keys active) id ≡ true)
unfolding remove_old
remove_old-AllLast params frame_idx [] all d = ([], refl, tt, tt, λ id c. c)
remove_old-AllLast params frame_idx ((id, track) ∷ active) all d =
    let (end, e) = all.0 in
    let (left, run, lasts, distinct, within) =
      remove_old-AllLast params frame_idx active all.1 d.1 in
    elim (Bool-cases (ltb_ℤ (pos frame_idx -ℤ pos end.frame_idx) (get_max_age params))) [
      | inl young ↦ (
        (id, track) ∷ left,
        rw (e, run, young) refl,
        (all.0, lasts),
        (ground (arith, within id, d.0), distinct),
        λ j c. ground (arith, c, within j),
      )
      | inr old ↦ (left, rw (e, run, old) refl, lasts, distinct, λ j c. ground (arith, within j c))
    ]

-- An order in which Go may range over the tracks.
abbrev pub Within : {S : Type 0} → Dict ℕ (Track S) → Dict ℕ (Track S) → Type 0
Within active [] = Unit
Within active ((id, track) ∷ order) = (lookup id active ≡ some track) × Within active order

abbrev pub IsRange : {S : Type 0} → Outside S → Type 0
IsRange {S = S} o =
    (n : ℕ) (active : Dict ℕ (Track S))
    → Distinct (keys active)
    → Distinct (keys (o.range_tracks n active)) × Within active (o.range_tracks n active)

AllLast-lookup :
    {S : Type 0} (active : Dict ℕ (Track S)) (id : ℕ) (track : Track S)
    → AllLast active
    → lookup id active ≡ some track
    → (end : TrackedDetection S) × (last track ≡ some end)
AllLast-lookup [] id track all e = cc
AllLast-lookup ((j, t) ∷ active) id track all e = elim (Bool-cases (j == id)) [
  | inl same ↦ let t≡ : t ≡ track = ground (arith, e, same) in (all.0.0, ap last (sym t≡) ∙ all.0.1)
  | inr other ↦ AllLast-lookup active id track all.1 (ground (arith, e, other))
]

pub Within-AllLast :
    {S : Type 0} (active order : Dict ℕ (Track S))
    → AllLast active
    → Within active order
    → AllLast order
Within-AllLast active [] all within = tt
Within-AllLast active ((id, track) ∷ order) all within =
    (AllLast-lookup active id track all within.0, Within-AllLast active order all within.1)

pub Within-contains :
    {S : Type 0} (active order : Dict ℕ (Track S)) (i id : ℕ)
    → Within active order
    → get_elem? (keys order) i ≡ some id
    → contains (keys active) id ≡ true
Within-contains active [] i id within e = cc
Within-contains active ((j, track) ∷ order) zero id within e =
    let j≡ : j ≡ id = cc in
    subst (λ k. contains (keys active) k ≡ true) j≡ (lookup-keys j active track within.0)
Within-contains active ((j, track) ∷ order) (suc i) id within e =
    Within-contains active order i id within.1 e

module _ {S : Type 0} (o : Outside S) (params : Params S) where
  length-row_scores :
      (d : Detection S) (dlist : List (Detection S))
      → length (row_scores o params d dlist) ≡ length dlist
  unfolding row_scores
  length-row_scores d [] = refl
  length-row_scores d (e ∷ dlist) = ap suc (length-row_scores d dlist)

  estimate_some :
      (n : ℕ) (track : Track S) (end : TrackedDetection S)
      → last track ≡ some end
      → (estimate : Detection S) × (estimate_position o params n track ≡ some estimate)
  unfolding estimate_position
  estimate_some n track end e =
      let best = closest (pos end.frame_idx -ℤ get_velocity_steps params) (init track) none in
      (estimate_from o params n end best, rw e refl)

  pub compute_scores-IsWide :
      (n : ℕ) (order : Dict ℕ (Track S)) (dlist : List (Detection S))
      → AllLast order
      → (matrix : List (List S)) × (compute_scores o params n (values order) dlist ≡ some matrix)
        × IsWide (length dlist) matrix
        × (length matrix ≡ length (keys order))
  unfolding compute_scores
  compute_scores-IsWide n [] dlist all = ([], refl, tt, refl)
  compute_scores-IsWide n ((id, track) ∷ order) dlist all =
      let (estimate, e) = estimate_some n track all.0.0 all.0.1 in
      let (matrix, run, wide, len) = compute_scores-IsWide n order dlist all.1 in
      (
        row_scores o params estimate dlist ∷ matrix,
        rw (e, run) refl,
        (length-row_scores estimate dlist, wide),
        ap suc len,
      )
