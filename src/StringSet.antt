-- ===== src/StringSet.antt =====
-- Sets of strings, which in the code are Go maps with the strings as keys: a set is the list of its
-- elements, each once. The order of the list stands for Go's order of the map.
pub mod Membership
use x_mesh.Prelude.{Bool, false, ◌||◌, List, [], ◌∷◌, ◌++◌, if◌then◌else◌}
use x_mesh.Db.Escape.{Bytes}
use x_mesh.Db.Ldb.{same_bytes}

unfoldable pub contains : List Bytes → Bytes → Bool
contains [] id = false
contains (x ∷ xs) id = same_bytes x id || contains xs id

unfoldable pub add_to_set : Bytes → List Bytes → List Bytes
add_to_set id ids = if contains ids id then ids else ids ++ id ∷ []

unfoldable pub remove_from_set : Bytes → List Bytes → List Bytes
remove_from_set id [] = []
remove_from_set id (x ∷ xs) =
    let rest = remove_from_set id xs in if same_bytes x id then rest else x ∷ rest
