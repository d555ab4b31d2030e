-- ===== src/Data/Synchronized/SameLength.antt =====
-- skyhook/data_synchronized_reader.go: SynchronizedReader succeeds on inputs of one length only.
use skyhookml.Prelude.{nat_eq, text_eq, pair_eq}
