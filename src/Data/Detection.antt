-- ===== src/Data/Detection.antt =====
-- skyhook/data_detection.go: detections, with the floats of the source as a type S.
use skyhookml.Prelude.{Dict, Text, nat_eq, text_eq, pair_eq, ℕ}
use skyhookml.Prelude.Int.{ℤ}

pub record Detection (S : Type 0) : Type 0 where
  pub left : ℤ
  pub top : ℤ
  pub right : ℤ
  pub bottom : ℤ
  pub category : Text
  pub track_id : ℕ
  pub score : S
  pub metadata : Dict Text Text
