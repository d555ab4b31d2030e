-- ===== src/Data/Synchronized/Frames.antt =====
-- skyhook/data_synchronized_reader.go: PerFrame goes through the inputs element by element.
use skyhookml.Prelude.{
  nat_eq, text_eq, pair_eq, ℕ, zero, suc, ◌+◌, ◌-◌, ◌≤◌, ◌<◌, ◌≡◌, refl, sym, ap, ◌∙◌, none, some,
  List, [], ◌∷◌, map, arith, ◌>>=◌, length, take, drop, length-take, drop-drop, slice_lem,
}
use skyhookml.Data.Synchronized.{Outcome, after_callback, slices_at, frame_loop}
use skyhookml.Data.Synchronized.Chunks.{AllLength, taken}

pub bind_same :
    {W : Type 0} (m : Outcome W) (g h : W → Outcome W)
    → ((w : W) → g w ≡ h w)
    → (m >>= after_callback g) ≡ (m >>= after_callback h)
unfolding after_callback
bind_same none g h same = refl
bind_same (some (none, w)) g h same = same w
bind_same (some (some err, w)) g h same = refl

bind_assoc :
    {W : Type 0} (m : Outcome W) (g h : W → Outcome W)
    → ((m >>= after_callback g) >>= after_callback h)
      ≡ (m >>= after_callback (λ w. g w >>= after_callback h))
unfolding after_callback
bind_assoc none g h = refl
bind_assoc (some (none, w)) g h = refl
bind_assoc (some (some err, w)) g h = refl

drop-take {ℓ} :
    {A : Type ℓ} (i n : ℕ) (xs : List A) → i < n → take 1 (drop i (take n xs)) ≡ take 1 (drop i xs)
drop-take i zero xs lt = absurd (omega (arith, lt))
drop-take zero (suc n) [] lt = refl
drop-take (suc i) (suc n) [] lt = refl
drop-take zero (suc n) (x ∷ xs) lt = refl
drop-take (suc i) (suc n) (x ∷ xs) lt = drop-take i n xs (omega (arith, lt))

drops {ℓ} :
    {A : Type ℓ} (m n : ℕ) (xss : List (List A))
    → map (drop m) (map (drop n) xss) ≡ map (drop (n + m)) xss
drops m n [] = refl
drops m n (xs ∷ xss) = rw (drop-drop m n xs, drops m n xss) refl

pub map_same {ℓ} : {A : Type ℓ} (xss : List (List A)) → map (drop 0) xss ≡ xss
map_same [] = refl
map_same (xs ∷ xss) = ap (◌∷◌ xs) (map_same xss)

slices_at-taken :
    {A : Type 0} (i n size : ℕ) (xss : List (List A))
    → i < n
    → i < size
    → AllLength size xss
    → slices_at i (map (taken n) xss) ≡ some (map (take 1) (map (drop i) xss))
unfolding slices_at
slices_at-taken i n size [] lt inside all = refl
slices_at-taken i n size (xs ∷ xss) lt inside all =
    let bound : i + 1 ≤ length (take n xs) = omega (arith, length-take n xs, all.0, lt, inside) in
    let here = slice_lem (take n xs) i (i + 1) (omega arith) bound in
    let one : i + 1 - i ≡ 1 = omega arith in
    rw (here, slices_at-taken i n size xss lt inside all.1, one, drop-take i n xs lt) refl

module _ {A W : Type 0} (f : W → ℕ → List (List A) → Outcome W) where
  -- The first k elements of all lists in turn, up to the first error.
  unfoldable pub run_frames : ℕ → ℕ → List (List A) → W → Outcome W
  run_frames pos zero xss w = some (none, w)
  run_frames pos (suc k) xss w =
      f w pos (map (take 1) xss) >>= after_callback (run_frames (pos + 1) k (map (drop 1) xss))

  pub run_frames_add :
      (pos k m : ℕ) (xss : List (List A)) (w : W)
      → run_frames pos (k + m) xss w
        ≡ (run_frames pos k xss w >>= after_callback (run_frames (pos + k) m (map (drop k) xss)))
  unfolding run_frames after_callback
  run_frames_add pos zero m xss w =
      let m≡ : 0 + m ≡ m = omega arith in
      let pos≡ : pos + 0 ≡ pos = omega arith in rw (m≡, pos≡, map_same xss) refl
  run_frames_add pos (suc k) m xss w =
      let sum : suc k + m ≡ suc (k + m) = omega arith in
      let pos≡ : pos + suc k ≡ pos + 1 + k = omega arith in
      let rest≡ : map (drop (suc k)) xss ≡ map (drop k) (map (drop 1) xss) =
        sym (drops k 1 xss ∙ ap (λ n. map (drop n) xss) (add_one k)) in
      rw (sum, pos≡, rest≡)
        (bind_same (f w pos (map (take 1) xss)) _ _
            (run_frames_add (pos + 1) k m (map (drop 1) xss))
          ∙ sym (bind_assoc (f w pos (map (take 1) xss)) _ _))
    where
      add_one : (n : ℕ) → 1 + n ≡ suc n
      add_one n = omega arith

  pub frame_loop-run_frames :
      (pos i k n size : ℕ) (xss : List (List A)) (w : W)
      → i + k ≤ n
      → i + k ≤ size
      → AllLength size xss
      → frame_loop f pos i k (map (taken n) xss) w ≡ run_frames (pos + i) k (map (drop i) xss) w
  unfolding frame_loop run_frames
  frame_loop-run_frames pos i zero n size xss w le inside all = refl
  frame_loop-run_frames pos i (suc k) n size xss w le inside all =
      let here = slices_at-taken i n size xss (omega (arith, le)) (omega (arith, inside)) all in
      let pos≡ : pos + i + 1 ≡ pos + (i + 1) = omega arith in
      let rest≡ : map (drop 1) (map (drop i) xss) ≡ map (drop (i + 1)) xss = drops 1 i xss in
      rw (here, pos≡, rest≡)
        (bind_same (f w (pos + i) (map (take 1) (map (drop i) xss))) _ _ (λ w'.
          frame_loop-run_frames pos (i + 1) k n size xss w' (omega (arith, le))
            (omega (arith, inside)) all))
