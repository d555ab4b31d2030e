-- ===== src/Tracker/Result.antt =====
-- exec_ops/simple_tracker/tracker.go: every frame keeps its detections, with distinct track ids.
use skyhookml.Prelude.{
  Dict, keys, Distinct, nat_eq, text_eq, pair_eq, ℕ, zero, suc, ◌+◌, ◌<◌, ◌≡◌, refl, ap, false,
  some, List, [], ◌∷◌, arith, length, get_elem?, replicate, length-replicate,
}
use skyhookml.Data.Detection.{Detection}
use skyhookml.Tracker.{Params, Outside, Track, State, new_tracks, track_frame, track_frames, track}
use skyhookml.Tracker.Matches.{IsTransitive, IsWide, get_elem?-some, get_elem?-lt, IsWide-get_elem?}
use skyhookml.Tracker.OneToOne.{AllScored, extract_matches_lem}
use skyhookml.Tracker.Frames.{track_ids, unmatched, IsLive}
use skyhookml.Tracker.Adding.{AllFree, add_matches-IsFrame}
use skyhookml.Tracker.Steps.{
  new_tracks-IsFrame, remove_old-AllLast, IsRange, Within, Within-AllLast, Within-contains,
  compute_scores-IsWide,
}

unmatched-replicate : (n : ℕ) → unmatched (replicate n false) ≡ n
unmatched-replicate zero = refl
unmatched-replicate (suc n) = ap suc (unmatched-replicate n)

get_elem?-replicate : (n j : ℕ) → j < n → get_elem? (replicate n false) j ≡ some false
get_elem?-replicate zero j lt = absurd (omega (arith, lt))
get_elem?-replicate (suc n) zero lt = refl
get_elem?-replicate (suc n) (suc j) lt = get_elem?-replicate n j (omega (arith, lt))

-- The output has for every frame as many detections, and no track id twice.
abbrev pub AllTracked :
    {S : Type 0} → List (List (Detection S)) → List (List (Detection S)) → Type 0
AllTracked [] [] = Unit
AllTracked [] (out ∷ outs) = ⊥
AllTracked (dlist ∷ detections) [] = ⊥
AllTracked (dlist ∷ detections) (out ∷ outs) =
    (length out ≡ length dlist) × Distinct (track_ids out) × AllTracked detections outs

module _ {S : Type 0} (o : Outside S) (params : Params S) (trans : IsTransitive o.gt)
    (range : IsRange o) where
  scored-AllFree :
      (n next wide : ℕ) (active order : Dict ℕ (Track S)) (matrix : List (List S))
      (matches : List (ℕ × ℕ))
      → IsLive next active
      → Within active order
      → IsWide wide matrix
      → length matrix ≡ length (keys order)
      → AllScored o params matrix matches
      → AllFree (keys order) [] (replicate wide false) next matches
  scored-AllFree n next wide active order matrix [] live within is_wide len all = tt
  scored-AllFree n next wide active order matrix ((i, j) ∷ matches) live within is_wide len all =
      let (score, (row, found, in_row, above)) = all.0 in
      let (id, e) =
        get_elem?-some (keys order) i (omega (arith, len, get_elem?-lt matrix i row found)) in
      (
        (id, e, live.below id (Within-contains active order i id within e), refl),
        get_elem?-replicate wide j (
            omega (
              arith,
              get_elem?-lt row j score in_row,
              IsWide-get_elem? wide matrix i row is_wide found,
            )),
        scored-AllFree n next wide active order matrix matches live within is_wide len all.1,
      )

  track_frame-IsLive :
      (n next : ℕ) (dlist : List (Detection S)) (active : Dict ℕ (Track S))
      → IsLive next active
      → (s : State S) × (track_frame o params n dlist active next ≡ some s)
        × IsLive s.next_track_id s.active_tracks
        × (length s.ndetections ≡ length dlist)
        × Distinct (track_ids s.ndetections)
  unfolding track_frame
  track_frame-IsLive n next dlist active live =
      let order = o.range_tracks n active in
      let (distinct, within) = range n active live.distinct in
      let (matrix, scores, wide, len) =
        compute_scores-IsWide o params n order dlist
          (Within-AllLast active order live.lasts within) in
      let (matches, found, scored, rows, cols) =
        extract_matches_lem o params matrix (length dlist) trans wide in
      let begin : State S = record {
        active_tracks = active;
        next_track_id = next;
        ndetections = [];
        matched = replicate (length dlist) false;
      } in
      let (s, added, f) =
        add_matches-IsFrame n (keys order) dlist matches begin
          (record {
            live = live;
            distinct = tt;
            below = λ id c. cc;
            count = omega (arith, unmatched-replicate (length dlist));
            flags = length-replicate (length dlist) false;
          })
          distinct rows cols
          (scored-AllFree n next (length dlist) active order matrix matches live within wide len
            scored) in
      let (live', distinct', count) =
        new_tracks-IsFrame n dlist s.matched s f.flags f.live f.below f.distinct in
      let end = new_tracks n dlist s.matched s in
      let (left, removed, lasts, left_distinct, inside) =
        remove_old-AllLast params n end.active_tracks live'.lasts live'.distinct in
      (
        record end { active_tracks = left },
        rw (scores, found, added, removed) refl,
        record {
          distinct = left_distinct;
          below = λ id c. live'.below id (inside id c);
          lasts = lasts;
        },
        omega (arith, count, f.count),
        distinct',
      )

  track_frames-AllTracked :
      (n next : ℕ) (detections : List (List (Detection S))) (active : Dict ℕ (Track S))
      → IsLive next active
      → (outs : List (List (Detection S))) × (track_frames o params n detections active next
          ≡ some outs)
        × AllTracked detections outs
  unfolding track_frames
  track_frames-AllTracked n next [] active live = ([], refl, tt)
  track_frames-AllTracked n next (dlist ∷ detections) active live =
      let (s, run, live', len, distinct) = track_frame-IsLive n next dlist active live in
      let (outs, rest, all) =
        track_frames-AllTracked (n + 1) s.next_track_id detections s.active_tracks live' in
      (s.ndetections ∷ outs, rw (run, rest) refl, (len, distinct, all))

  -- The simple tracker does not panic, and its output has for every frame as many detections as
  -- the input, no two of which have one track id, whatever the orders in which Go ranges over the
  -- active tracks, each once. The comparison of scores is transitive.
  pub track_lem :
      (detections : List (List (Detection S)))
      → (outs : List (List (Detection S))) × (track o params detections ≡ some outs)
        × AllTracked detections outs
  unfolding track
  track_lem detections =
      track_frames-AllTracked 0 1 detections []
        (record { distinct = tt; below = λ id c. cc; lasts = tt })
