-- ===== src/Arrays/Growth.antt =====
-- The arrays never write past their capacity, and waste little.
use b1cc.Common.{
  ◌+◌, ◌*◌, ◌≤◌, ◌≡◌, sym, ◌∙◌, List, [], ◌∷◌, ◌++◌, append_assoc, append-nil, arith, length,
  length-append,
}
use b1cc.Arrays.{DynArray, array_push, array_push_all}

module _ {ℓ} {A : Type ℓ} where
  -- The elements fit, and the capacity is at most twice their number and eight.
  abbrev IsArray : DynArray A → Type 0
  IsArray arr = (length arr.elements ≤ arr.capacity) × (arr.capacity ≤ 2 * length arr.elements + 8)

  array_push-IsArray : (arr : DynArray A) (x : A) → IsArray arr → IsArray (array_push arr x)
  unfolding array_push
  array_push-IsArray arr x w =
      let more = length-append arr.elements (x ∷ []) in ground (arith, more)

  -- However many elements are pushed, they are all there behind the old ones in their order, and
  -- the array stays within its capacity, which is at most twice the count and eight.
  array_push_all-IsArray :
      (arr : DynArray A) (xs : List A)
      → IsArray arr
      → ((array_push_all arr xs).elements ≡ arr.elements ++ xs) × IsArray (array_push_all arr xs)
  unfolding array_push_all array_push
  array_push_all-IsArray arr [] w = (sym (append-nil arr.elements), w)
  array_push_all-IsArray arr (x ∷ xs) w =
      let (same, w') = array_push_all-IsArray (array_push arr x) xs (array_push-IsArray arr x w) in
      (same ∙ append_assoc arr.elements (x ∷ []) xs, w')
