-- ===== src/Tracker/Adding.antt =====
-- exec_ops/simple_tracker/tracker.go: the matched detections of one frame.
use skyhookml.Prelude.{
  contains, Distinct, contains-append, ◌==◌, nat_eq, text_eq, pair_eq, ℕ, zero, suc, ◌<◌, ◌≡◌, refl,
  sym, ap, ◌∙◌, inl, inr, Bool, true, false, some, List, [], ◌∷◌, ◌++◌, arith, Bool-cases, ◌>>=◌,
  get_elem?, set, get_elem?-set_ne,
}
use skyhookml.Data.Detection.{Detection}
use skyhookml.Tracker.{State, add_matches}
use skyhookml.Tracker.Columns.{match_rows, match_cols}
use skyhookml.Tracker.Frames.{track_ids, IsFrame, track_ids-append, add_match-IsFrame}

-- The rows have tracks and the columns detections, of which none has a match yet.
abbrev pub AllFree : List ℕ → List ℕ → List Bool → ℕ → List (ℕ × ℕ) → Type 0
AllFree ids out matched next [] = Unit
AllFree ids out matched next ((i, j) ∷ matches) =
    ((id : ℕ) × (get_elem? ids i ≡ some id) × (id < next) × (contains out id ≡ false))
    × (get_elem? matched j ≡ some false)
    × AllFree ids out matched next matches

get_elem?-contains : (ids : List ℕ) (i id : ℕ) → get_elem? ids i ≡ some id → contains ids id ≡ true
get_elem?-contains [] i id e = cc
get_elem?-contains (j ∷ ids) zero id e = ground (arith, e, nat_eq.test_iff j id)
get_elem?-contains (j ∷ ids) (suc i) id e = ground (arith, get_elem?-contains ids i id e)

get_elem?-Distinct :
    (ids : List ℕ) (i k id : ℕ)
    → Distinct ids
    → get_elem? ids i ≡ some id
    → get_elem? ids k ≡ some id
    → i ≡ k
get_elem?-Distinct [] i k id d e f = cc
get_elem?-Distinct (j ∷ ids) zero zero id d e f = refl
get_elem?-Distinct (j ∷ ids) (suc i) (suc k) id d e f =
    ap suc (get_elem?-Distinct ids i k id d.1 e f)
get_elem?-Distinct (j ∷ ids) zero (suc k) id d e f =
    absurd (ground (arith, e, d.0, get_elem?-contains ids k id f))
get_elem?-Distinct (j ∷ ids) (suc i) zero id d e f =
    absurd (ground (arith, f, d.0, get_elem?-contains ids i id e))

-- The other matches stay free after a match.
AllFree-step :
    (ids out : List ℕ) (matched : List Bool) (next i j id : ℕ) (matches : List (ℕ × ℕ))
    → Distinct ids
    → get_elem? ids i ≡ some id
    → contains (match_rows matches) i ≡ false
    → contains (match_cols matches) j ≡ false
    → AllFree ids out matched next matches
    → AllFree ids (out ++ id ∷ []) (set matched j true) next matches
AllFree-step ids out matched next i j id [] d e row col all = tt
AllFree-step ids out matched next i j id ((r, c) ∷ matches) d e row col all =
    let (other, found, lt, fresh) = all.0 in
    (
      (
        other,
        found,
        lt,
        ground (
          arith,
          contains-append out (id ∷ []) other,
          fresh,
          nat_eq.test_iff id other,
          different other found,
        ),
      ),
      get_elem?-set_ne matched true
            (λ same. absurd (ground (arith, col, same, nat_eq.test_iff c j)))
          ∙ all.1,
      AllFree-step ids out matched next i j id matches d e (ground (arith, row))
          (ground (arith, col)) all.2,
    )
  where
    different : (other : ℕ) → get_elem? ids r ≡ some other → (id == other) ≡ false
    different other found = elim (Bool-cases (id == other)) [
      | inr unequal ↦ unequal
      | inl equal ↦
          let id≡ = (nat_eq.test_iff id other).0 equal in
          let same = get_elem?-Distinct ids i r id d e (found ∙ ap some (sym id≡)) in
          absurd (ground (arith, row, same, nat_eq.test_iff r i))
    ]

pub add_matches-IsFrame :
    {S : Type 0} (frame_idx : ℕ) (ids : List ℕ) (dlist : List (Detection S))
    (matches : List (ℕ × ℕ)) (s : State S)
    → IsFrame dlist s
    → Distinct ids
    → Distinct (match_rows matches)
    → Distinct (match_cols matches)
    → AllFree ids (track_ids s.ndetections) s.matched s.next_track_id matches
    → (t : State S) × (add_matches frame_idx ids dlist matches s ≡ some t) × IsFrame dlist t
unfolding add_matches
add_matches-IsFrame frame_idx ids dlist [] s f d rows cols all = (s, refl, f)
add_matches-IsFrame frame_idx ids dlist ((i, j) ∷ matches) s f d rows cols all =
    let (id, found, lt, fresh) = all.0 in
    let (det, t, run, f', id≡, out≡, matched≡, next≡) =
      add_match-IsFrame frame_idx ids dlist i j id s f found lt fresh all.1 in
    let free =
      AllFree-step ids (track_ids s.ndetections) s.matched s.next_track_id i j id matches d found
        rows.0 cols.0 all.2 in
    let outs : track_ids t.ndetections ≡ track_ids s.ndetections ++ id ∷ [] =
      ap track_ids out≡
      ∙ track_ids-append s.ndetections det
      ∙ ap (λ n. track_ids s.ndetections ++ n ∷ []) id≡ in
    let free' : AllFree ids (track_ids t.ndetections) t.matched t.next_track_id matches =
      rw (outs, matched≡, next≡) free in
    let (end, rest, g) =
      add_matches-IsFrame frame_idx ids dlist matches t f' d rows.1 cols.1 free' in
    (end, ap (λ r. r >>= λ x. add_matches frame_idx ids dlist matches x) run ∙ rest, g)
