-- ===== src/Arrays.antt =====
-- The growing arrays of src/common.c and src/ast.c: StringArray, IntArray, LongArray, TokenArray and
-- NodeArray have the same operations over different elements. The count is the length.
pub mod Growth
mod Examples
use b1cc.Common.{ℕ, Bytes, ◌+◌, ◌*◌, leb, if◌then◌else◌, List, [], ◌∷◌, ◌++◌, length}

pub record DynArray {ℓ} (A : Type ℓ) : Type ℓ where
  pub elements : List A
  pub capacity : ℕ

module _ {ℓ} {A : Type ℓ} where
  unfoldable pub array_init : DynArray A
  array_init = record { elements = []; capacity = 0 }

  unfoldable pub array_push : DynArray A → A → DynArray A
  array_push arr val = record {
    elements = arr.elements ++ val ∷ [];
    capacity =
        if leb arr.capacity (length arr.elements) then arr.capacity * 2 + 8 else arr.capacity;
  }

  unfoldable pub array_free : DynArray A → DynArray A
  array_free arr = record { elements = []; capacity = 0 }

  -- A loop of pushes.
  pub array_push_all : DynArray A → List A → DynArray A
  unfolding array_push
  array_push_all arr [] = arr
  array_push_all arr (x ∷ xs) = array_push_all (array_push arr x) xs

-- The five arrays of the source. A string is its bytes, an int and a long are their bit patterns,
-- a node is its number.
pub record Token : Type 0 where
  pub text : Bytes
  pub line : ℕ
  pub col : ℕ

abbrev string_array_init : DynArray Bytes
string_array_init = array_init

abbrev string_array_push : DynArray Bytes → Bytes → DynArray Bytes
string_array_push arr val = array_push arr val

abbrev string_array_free : DynArray Bytes → DynArray Bytes
string_array_free arr = array_free arr

abbrev int_array_init : DynArray ℕ
int_array_init = array_init

abbrev int_array_push : DynArray ℕ → ℕ → DynArray ℕ
int_array_push arr val = array_push arr val

abbrev int_array_free : DynArray ℕ → DynArray ℕ
int_array_free arr = array_free arr

abbrev long_array_init : DynArray ℕ
long_array_init = array_init

abbrev long_array_push : DynArray ℕ → ℕ → DynArray ℕ
long_array_push arr val = array_push arr val

abbrev long_array_free : DynArray ℕ → DynArray ℕ
long_array_free arr = array_free arr

abbrev token_array_init : DynArray Token
token_array_init = array_init

abbrev token_array_push : DynArray Token → Token → DynArray Token
token_array_push arr val = array_push arr val

abbrev token_array_free : DynArray Token → DynArray Token
token_array_free arr = array_free arr

abbrev node_array_init : DynArray ℕ
node_array_init = array_init

abbrev node_array_push : DynArray ℕ → ℕ → DynArray ℕ
node_array_push arr val = array_push arr val

abbrev node_array_free : DynArray ℕ → DynArray ℕ
node_array_free arr = array_free arr
