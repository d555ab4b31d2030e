-- ===== src/Image.antt =====
-- skyhook/image.go and skyhook/bresenham.go: drawing.
pub mod Line
use skyhookml.Prelude.{nat_eq, text_eq, pair_eq}
