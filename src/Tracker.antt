-- ===== src/Tracker.antt =====
-- exec_ops/simple_tracker/tracker.go: the simple tracker. The floats of the source are a type S with its
-- comparison; the motion of a track and the overlap of rectangles, which are computed in floats, are
-- arguments, and so is the order in which Go ranges over the active tracks. `none` is a panic.
pub mod Matches
pub mod Columns
pub mod OneToOne
pub mod Frames
pub mod Adding
pub mod Result
pub mod Steps
mod Tests
use skyhookml.Prelude.{
  Dict, lookup_or, insert, keys, nat_eq, text_eq, pair_eq, ℕ, ◌+◌, Bool, true, false, Option, none,
  some, List, [], ◌∷◌, ◌++◌, ltb, eqb, if◌then◌else◌, ◌>>=◌, length, get_elem?, set, replicate,
}
use skyhookml.Prelude.Int.{ℤ, pos, ◌+ℤ◌, ◌-ℤ◌, abs, ltb_ℤ, eqb_ℤ}
use skyhookml.Data.Detection.{Detection}

pub record Params (S : Type 0) : Type 0 where
  pub velocity_steps : ℤ
  pub min_iou : S
  pub max_age : ℤ

pub record TrackedDetection (S : Type 0) : Type 0 where
  pub detection : Detection S
  pub frame_idx : ℕ

-- A cell of the matrix with its score; no cell is -1, -1.
pub record Candidate (S : Type 0) : Type 0 where
  pub cell : Option (ℕ × ℕ)
  pub score : S

pub record Outside (S : Type 0) : Type 0 where
  -- `a > b`
  pub gt : S → S → Bool
  pub zero_score : S
  pub is_zero : S → Bool
  -- 0.1
  pub default_iou : S
  -- From the frame, the last detection and the one that the speed is estimated from.
  pub motion : ℕ → TrackedDetection S → TrackedDetection S → ℤ × ℤ
  pub iou : Detection S → Detection S → S
  pub range_tracks : ℕ → Dict ℕ (List (TrackedDetection S)) → Dict ℕ (List (TrackedDetection S))

pub get_velocity_steps : {S : Type 0} → Params S → ℤ
get_velocity_steps params =
    if eqb_ℤ params.velocity_steps (pos 0) then pos 5 else params.velocity_steps

pub get_max_age : {S : Type 0} → Params S → ℤ
get_max_age params = if eqb_ℤ params.max_age (pos 0) then pos 10 else params.max_age

abbrev pub last {ℓ} : {A : Type ℓ} → List A → Option A
last [] = none
last (a ∷ []) = some a
last (a ∷ b ∷ xs) = last (b ∷ xs)

abbrev pub init {ℓ} : {A : Type ℓ} → List A → List A
init [] = []
init (a ∷ []) = []
init (a ∷ b ∷ xs) = a ∷ init (b ∷ xs)

abbrev pub Track : Type 0 → Type 0
Track S = List (TrackedDetection S)

-- The loop over the earlier detections, with the best one and its offset.
pub closest :
    {S : Type 0} → ℤ → Track S → Option (TrackedDetection S × ℕ) → Option (TrackedDetection S × ℕ)
closest target [] best = best
closest target (d ∷ track) none = closest target track (some (d, abs (pos d.frame_idx -ℤ target)))
closest target (d ∷ track) (some (b, offset)) =
    let offset' = abs (pos d.frame_idx -ℤ target) in
    closest target track (if ltb offset' offset then some (d, offset') else some (b, offset))

module _ {S : Type 0} (o : Outside S) (params : Params S) where
  pub get_min_iou : S
  get_min_iou = if o.is_zero params.min_iou then o.default_iou else params.min_iou

  pub moved : Detection S → ℤ × ℤ → Detection S
  moved d (x, y) = record {
    left = d.left +ℤ x;
    top = d.top +ℤ y;
    right = d.right +ℤ x;
    bottom = d.bottom +ℤ y;
    category = [];
    track_id = 0;
    score = o.zero_score;
    metadata = [];
  }

  -- The last detection moved on at the speed since the best one, if there is one.
  pub estimate_from : ℕ → TrackedDetection S → Option (TrackedDetection S × ℕ) → Detection S
  estimate_from cur_frame end none = end.detection
  estimate_from cur_frame end (some (best, offset)) =
      moved end.detection (o.motion cur_frame end best)

  pub estimate_position : ℕ → Track S → Option (Detection S)
  estimate_position cur_frame track = do
    end ← last track
    some (
        estimate_from cur_frame end
          (closest (pos end.frame_idx -ℤ get_velocity_steps params) (init track) none))

  pub row_scores : Detection S → List (Detection S) → List S
  row_scores estimate [] = []
  row_scores estimate (d ∷ dlist) = o.iou estimate d ∷ row_scores estimate dlist

  pub compute_scores : ℕ → List (Track S) → List (Detection S) → Option (List (List S))
  compute_scores cur_frame [] dlist = some []
  compute_scores cur_frame (track ∷ tracks) dlist = do
    estimate ← estimate_position cur_frame track
    matrix ← compute_scores cur_frame tracks dlist
    some (row_scores estimate dlist ∷ matrix)

  -- The best column of row i, from column j on.
  pub best_in_row : ℕ → ℕ → List S → Candidate S → Candidate S
  best_in_row i j [] best = best
  best_in_row i j (prob ∷ row) best =
      best_in_row i (j + 1) row
        (if o.gt prob best.score then record { cell = some (i, j); score = prob } else best)

  pub row_max : ℕ → List (List S) → List (Candidate S)
  row_max i [] = []
  row_max i (row ∷ matrix) =
      best_in_row i 0 row (record { cell = none; score = get_min_iou }) ∷ row_max (i + 1) matrix

  -- A candidate takes its column if it is better than the one that has it.
  pub place : Option (ℕ × ℕ) → Candidate S → List (Candidate S) → Option (List (Candidate S))
  place none c cols = some cols
  place (some (i, j)) c cols = do
    old ← get_elem? cols j
    some (if o.gt c.score old.score then set cols j c else cols)

  -- The best candidate of each column.
  pub col_max : List (Candidate S) → List (Candidate S) → Option (List (Candidate S))
  col_max [] cols = some cols
  col_max (c ∷ candidates) cols = do cols' ← place c.cell c cols; col_max candidates cols'

  pub cell_list : Option (ℕ × ℕ) → List (ℕ × ℕ)
  cell_list none = []
  cell_list (some cell) = cell ∷ []

  pub cells : List (Candidate S) → List (ℕ × ℕ)
  cells [] = []
  cells (c ∷ cols) = cell_list c.cell ++ cells cols

  pub extract_matches : List (List S) → Option (List (ℕ × ℕ))
  extract_matches [] = some []
  extract_matches (row ∷ matrix) = if eqb (length row) 0 then some [] else (do
    cols ←
        col_max (row_max 0 (row ∷ matrix))
          (replicate (length row) (record { cell = none; score = o.zero_score }))
    some (cells cols))

-- What the loop over the frames changes, and what it has for the current frame.
pub record State (S : Type 0) : Type 0 where
  pub active_tracks : Dict ℕ (Track S)
  pub next_track_id : ℕ
  pub ndetections : List (Detection S)
  pub matched : List Bool

pub tracked : {S : Type 0} → ℕ → Detection S → TrackedDetection S
tracked frame_idx d = record { detection = d; frame_idx = frame_idx }

pub add_match : {S : Type 0} → ℕ → List ℕ → List (Detection S) → ℕ × ℕ → State S → Option (State S)
add_match frame_idx active_ids dlist (track_idx, detection_idx) s = do
  track_id ← get_elem? active_ids track_idx
  d ← get_elem? dlist detection_idx
  let detection = record d { track_id = track_id } in
      some (record s {
        active_tracks =
            insert track_id
              (lookup_or [] track_id s.active_tracks ++ tracked frame_idx detection ∷ [])
              s.active_tracks;
        ndetections = s.ndetections ++ detection ∷ [];
        matched = set s.matched detection_idx true;
      })

pub add_matches :
    {S : Type 0} → ℕ → List ℕ → List (Detection S) → List (ℕ × ℕ) → State S → Option (State S)
add_matches frame_idx active_ids dlist [] s = some s
add_matches frame_idx active_ids dlist (m ∷ matches) s = do
  s' ← add_match frame_idx active_ids dlist m s
  add_matches frame_idx active_ids dlist matches s'

pub new_track : {S : Type 0} → ℕ → Detection S → State S → State S
new_track frame_idx d s =
    let detection = record d { track_id = s.next_track_id } in
    record s {
      active_tracks = insert s.next_track_id (tracked frame_idx detection ∷ []) s.active_tracks;
      next_track_id = s.next_track_id + 1;
      ndetections = s.ndetections ++ detection ∷ [];
    }

-- The detections with whether they have been matched.
pub new_tracks : {S : Type 0} → ℕ → List (Detection S) → List Bool → State S → State S
new_tracks frame_idx (d ∷ dlist) (true ∷ matched) s = new_tracks frame_idx dlist matched s
new_tracks frame_idx (d ∷ dlist) (false ∷ matched) s =
    new_tracks frame_idx dlist matched (new_track frame_idx d s)
new_tracks frame_idx [] matched s = s
new_tracks frame_idx dlist [] s = s

pub remove_old : {S : Type 0} → Params S → ℕ → Dict ℕ (Track S) → Option (Dict ℕ (Track S))
remove_old params frame_idx [] = some []
remove_old params frame_idx ((id, track) ∷ tracks) = do
  end ← last track
  rest ← remove_old params frame_idx tracks
  some (
      if ltb_ℤ (pos frame_idx -ℤ pos end.frame_idx) (get_max_age params)
      then (id, track) ∷ rest
      else rest)

abbrev pub values {ℓ κ} : {K : Type ℓ} {V : Type κ} → Dict K V → List V
values [] = []
values ((k, v) ∷ m) = v ∷ values m

module _ {S : Type 0} (o : Outside S) (params : Params S) where
  -- One frame.
  pub track_frame : ℕ → List (Detection S) → Dict ℕ (Track S) → ℕ → Option (State S)
  track_frame frame_idx dlist active next_id =
      let active_list = o.range_tracks frame_idx active in
      do
        matrix ← compute_scores o params frame_idx (values active_list) dlist
        matches ← extract_matches o params matrix
        s ← add_matches frame_idx (keys active_list) dlist matches (record {
          active_tracks = active;
          next_track_id = next_id;
          ndetections = [];
          matched = replicate (length dlist) false;
        })
        let s' = new_tracks frame_idx dlist s.matched s in
            do
              left ← remove_old params frame_idx s'.active_tracks
              some (record s' { active_tracks = left })

  -- The loop over the frames, with the frames so far.
  pub track_frames :
      ℕ → List (List (Detection S)) → Dict ℕ (Track S) → ℕ → Option (List (List (Detection S)))
  track_frames frame_idx [] active next_id = some []
  track_frames frame_idx (dlist ∷ detections) active next_id = do
    s ← track_frame frame_idx dlist active next_id
    rest ← track_frames (frame_idx + 1) detections s.active_tracks s.next_track_id
    some (s.ndetections ∷ rest)

  pub track : List (List (Detection S)) → Option (List (List (Detection S)))
  track detections = track_frames 0 detections [] 1
