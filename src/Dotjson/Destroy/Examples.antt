-- ===== src/Dotjson/Destroy/Examples.antt =====
-- `dotjson_destroy` of c/dotjson at an object with one entry, in the second of its two slots.
use model_lib.Common.{◌+◌, ◌≡◌, refl, [], ◌∷◌, some}
use model_lib.Dotjson.Node.{Node, null, object, free, used, no_slots}
use model_lib.Dotjson.Destroy.{dotjson_destroy, blocks, lost, dotjson_destroy-lost}

abbrev one_entry : Node
one_entry = object 2 1 (free (used 0 (0x61 ∷ []) null no_slots))

dotjson_destroy-lost_example : dotjson_destroy (some one_entry) + lost one_entry ≡ blocks one_entry
dotjson_destroy-lost_example = dotjson_destroy-lost one_entry

-- The entry and its value are not freed.
two_lost : lost one_entry ≡ 2
unfolding lost blocks
two_lost = refl
