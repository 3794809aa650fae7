-- ===== src/SizeMap/Index.antt =====
-- `ClassIndex`: how the flattened array of classes is indexed.
use gperftools.Base.{ℕ, ◌+◌, ◌*◌, ◌/◌, ◌≤◌, ◌<◌, ◌≡◌, arith, some, none}
use gperftools.SizeMap.{max_size, class_index, class_index_maybe, class_array_size}
use gperftools.SizeMap.Classes.{IsBoundary}

-- Sizes up to a boundary have indices up to that of the boundary.
pub class_index-le : (s b : ℕ) → b ≤ max_size → IsBoundary b → s ≤ b → class_index s ≤ class_index b
unfolding class_index
class_index-le s b small bound h = ground arith

-- Sizes past a boundary have larger indices.
pub class_index-lt : (b s : ℕ) → s ≤ max_size → IsBoundary b → b < s → class_index b < class_index s
unfolding class_index
class_index-lt b s small bound h = ground arith

-- A size has the index of the next multiple of 8.
pub class_index-eights : (s : ℕ) → s ≤ max_size → class_index s ≡ class_index ((s + 7) / 8 * 8)
unfolding class_index
class_index-eights s h = ground arith

pub class_index-in_array : (s : ℕ) → s ≤ max_size → class_index s < class_array_size
unfolding class_index
class_index-in_array s h = ground arith

pub class_index_maybe-small : (s : ℕ) → s ≤ max_size → class_index_maybe s ≡ some (class_index s)
unfolding class_index class_index_maybe
class_index_maybe-small s h = ground arith

pub class_index_maybe-large : (s : ℕ) → max_size < s → class_index_maybe s ≡ none
unfolding class_index_maybe
class_index_maybe-large s h = ground arith
