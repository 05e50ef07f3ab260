-- ===== src/Arrays/Examples.antt =====
-- Nine pushes from an empty array.
use b1cc.Common.{ℕ, ◌≡◌, refl, List, [], ◌∷◌}
use b1cc.Arrays.{DynArray, array_push, array_push_all}

abbrev nine : List ℕ
nine = 1 ∷ 2 ∷ 3 ∷ 4 ∷ 5 ∷ 6 ∷ 7 ∷ 8 ∷ 9 ∷ []

abbrev empty : DynArray ℕ
empty = record { elements = []; capacity = 0 }

grown : (array_push_all empty nine).capacity ≡ 24
unfolding array_push_all array_push
grown = refl
