-- ===== src/Tracker/Frames.antt =====
-- exec_ops/simple_tracker/tracker.go: the detections of one frame, matched and new.
use skyhookml.Prelude.{
  Dict, lookup_or, insert, keys, contains, Distinct, contains-append, Distinct-append,
  contains-keys-insert, keys-insert-Distinct, ◌==◌, nat_eq, text_eq, pair_eq, ℕ, zero, suc, ◌+◌,
  ◌<◌, ◌≡◌, refl, sym, ap, subst, ◌∙◌, inl, inr, Bool, true, false, some, List, [], ◌∷◌, ◌++◌,
  arith, Bool-cases, length, get_elem?, set, length-append, length-set,
}
use skyhookml.Data.Detection.{Detection}
use skyhookml.Tracker.{TrackedDetection, Track, last, State, tracked, add_match}
use skyhookml.Tracker.Matches.{get_elem?-lt, get_elem?-some}

abbrev pub track_ids : {S : Type 0} → List (Detection S) → List ℕ
track_ids [] = []
track_ids (d ∷ dlist) = d.track_id ∷ track_ids dlist

abbrev pub unmatched : List Bool → ℕ
unmatched [] = 0
unmatched (true ∷ matched) = unmatched matched
unmatched (false ∷ matched) = suc (unmatched matched)

-- No track is empty.
abbrev pub AllLast : {S : Type 0} → Dict ℕ (Track S) → Type 0
AllLast [] = Unit
AllLast {S = S} ((id, track) ∷ tracks) =
    ((end : TrackedDetection S) × (last track ≡ some end)) × AllLast tracks

-- The active tracks have distinct ids below the next one, and are not empty.
pub record IsLive {S : Type 0} (next_id : ℕ) (active : Dict ℕ (Track S)) : Type 0 where
  pub distinct : Distinct (keys active)
  pub below : (id : ℕ) → contains (keys active) id ≡ true → id < next_id
  pub lasts : AllLast active

-- What holds while the detections of a frame are handled.
pub record IsFrame {S : Type 0} (dlist : List (Detection S)) (s : State S) : Type 0 where
  pub live : IsLive s.next_track_id s.active_tracks
  pub distinct : Distinct (track_ids s.ndetections)
  pub below : (id : ℕ) → contains (track_ids s.ndetections) id ≡ true → id < s.next_track_id
  pub count : length s.ndetections + unmatched s.matched ≡ length dlist
  pub flags : length s.matched ≡ length dlist

last-append :
    {S : Type 0} (track : Track S) (d : TrackedDetection S) → last (track ++ d ∷ []) ≡ some d
last-append [] d = refl
last-append (a ∷ []) d = refl
last-append (a ∷ b ∷ track) d = last-append (b ∷ track) d

AllLast-insert :
    {S : Type 0} (id : ℕ) (track : Track S) (end : TrackedDetection S) (active : Dict ℕ (Track S))
    → last track ≡ some end
    → AllLast active
    → AllLast (insert id track active)
AllLast-insert id track end [] e all = ((end, e), tt)
AllLast-insert id track end ((j, t) ∷ active) e all = elim (Bool-cases (j == id)) [
  | inl same ↦ rw same ((end, e), all.1)
  | inr other ↦ rw other (all.0, AllLast-insert id track end active e all.1)
]

pub IsLive-insert :
    {S : Type 0} (id next_id : ℕ) (track : Track S) (d : TrackedDetection S)
    (active : Dict ℕ (Track S))
    → id < next_id
    → IsLive next_id active
    → IsLive next_id (insert id (track ++ d ∷ []) active)
IsLive-insert id next_id track d active lt live = record {
  distinct = keys-insert-Distinct id (track ++ d ∷ []) active live.distinct;
  below = λ j c. ground (
    arith,
    c,
    contains-keys-insert id j (track ++ d ∷ []) active,
    live.below j,
    lt,
    nat_eq.test_iff id j,
  );
  lasts = AllLast-insert id (track ++ d ∷ []) d active (last-append track d) live.lasts;
}

pub track_ids-append :
    {S : Type 0} (xs : List (Detection S)) (d : Detection S)
    → track_ids (xs ++ d ∷ []) ≡ track_ids xs ++ d.track_id ∷ []
track_ids-append [] d = refl
track_ids-append (x ∷ xs) d = ap (◌∷◌ x.track_id) (track_ids-append xs d)

-- A new detection in the frame's output.
pub outputs-Distinct :
    {S : Type 0} (xs : List (Detection S)) (d : Detection S)
    → Distinct (track_ids xs)
    → contains (track_ids xs) d.track_id ≡ false
    → Distinct (track_ids (xs ++ d ∷ []))
outputs-Distinct xs d distinct fresh = subst Distinct (sym (track_ids-append xs d)) (
    Distinct-append (track_ids xs) (d.track_id ∷ []) distinct (refl, tt)
      (λ k c. ground (arith, c, fresh, nat_eq.test_iff d.track_id k)))

pub outputs-below :
    {S : Type 0} (xs : List (Detection S)) (d : Detection S) (n : ℕ)
    → ((id : ℕ) → contains (track_ids xs) id ≡ true → id < n)
    → d.track_id < n
    → (id : ℕ) → contains (track_ids (xs ++ d ∷ [])) id ≡ true
    → id < n
outputs-below xs d n below lt id c =
    let split =
      ap (λ ids. contains ids id) (track_ids-append xs d)
      ∙ contains-append (track_ids xs) (d.track_id ∷ []) id in
    ground (arith, split, c, below id, lt, nat_eq.test_iff d.track_id id)

unmatched-set :
    (matched : List Bool) (j : ℕ)
    → get_elem? matched j ≡ some false
    → suc (unmatched (set matched j true)) ≡ unmatched matched
unmatched-set [] j e = cc
unmatched-set (true ∷ matched) zero e = cc
unmatched-set (false ∷ matched) zero e = refl
unmatched-set (true ∷ matched) (suc j) e = unmatched-set matched j e
unmatched-set (false ∷ matched) (suc j) e = ap suc (unmatched-set matched j e)

-- A match of a track and a detection that have no match yet.
pub add_match-IsFrame :
    {S : Type 0} (frame_idx : ℕ) (ids : List ℕ) (dlist : List (Detection S)) (i j id : ℕ)
    (s : State S)
    → IsFrame dlist s
    → get_elem? ids i ≡ some id
    → id < s.next_track_id
    → contains (track_ids s.ndetections) id ≡ false
    → get_elem? s.matched j ≡ some false
    → (d : Detection S) × (t : State S) × (add_match frame_idx ids dlist (i, j) s ≡ some t)
      × IsFrame dlist t
      × (d.track_id ≡ id)
      × (t.ndetections ≡ s.ndetections ++ d ∷ [])
      × (t.matched ≡ set s.matched j true)
      × (t.next_track_id ≡ s.next_track_id)
unfolding add_match
add_match-IsFrame frame_idx ids dlist i j id s f found lt fresh free =
    let (d, e) =
      get_elem?-some dlist j (omega (arith, get_elem?-lt s.matched j false free, f.flags)) in
    let d' = record d { track_id = id } in
    let track = lookup_or [] id s.active_tracks in
    (
      d',
      record s {
        active_tracks = insert id (track ++ tracked frame_idx d' ∷ []) s.active_tracks;
        ndetections = s.ndetections ++ d' ∷ [];
        matched = set s.matched j true;
      },
      rw (found, e) refl,
      record {
        live =
            IsLive-insert id s.next_track_id track (tracked frame_idx d') s.active_tracks lt f.live;
        distinct = outputs-Distinct s.ndetections d' f.distinct fresh;
        below = outputs-below s.ndetections d' s.next_track_id f.below lt;
        count =
            omega (
              arith,
              f.count,
              unmatched-set s.matched j free,
              length-append s.ndetections (d' ∷ []),
            );
        flags = length-set s.matched j true ∙ f.flags;
      },
      refl,
      refl,
      refl,
      refl,
    )
