-- ===== src/Data/Synchronized/Result.antt =====
-- skyhook/data_synchronized_reader.go: PerFrame is the loop over all elements of its inputs.
use skyhookml.Prelude.{nat_eq, text_eq, pair_eq}
