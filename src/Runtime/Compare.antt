-- ===== src/Runtime/Compare.antt =====
-- strcmp and strncmp of runtime/runtime.c. A pointer into a C string is the list of the bytes from
-- there to the terminating zero, which reads as the head of the empty list.
use b1cc.Common.{
  ℕ, zero, suc, ◌<◌, ◌≡◌, refl, ◌↔◌, Bool, true, false, [], ◌∷◌, arith, ltb, ◌==◌, if◌then◌else◌,
  take, All, Bytes,
}
use b1cc.Common.Int.{ℤ, pos, negsuc, sub_ℕ}

abbrev pub head : Bytes → ℕ
head [] = 0
head (c ∷ s) = c

abbrev pub tail : Bytes → Bytes
tail [] = []
tail (c ∷ s) = s

-- The bytes of a C string: none is zero.
abbrev pub IsCString : Bytes → Type 0
IsCString = All (λ c. 0 < c)

strcmp : Bytes → Bytes → ℤ
strcmp [] b = sub_ℕ 0 (head b)
strcmp (x ∷ a) b = elim (x == head b) [ true ↦ strcmp a (tail b) | false ↦ sub_ℕ x (head b) ]

strncmp : Bytes → Bytes → ℕ → ℤ
strncmp a b zero = pos 0
strncmp a b (suc n) = elim (head a == head b) [
  | false ↦ sub_ℕ (head a) (head b)
  | true ↦ elim (head a == 0) [ true ↦ pos 0 | false ↦ strncmp (tail a) (tail b) n ]
]

-- The order of a dictionary, by unsigned bytes.
abbrev lex_lt : Bytes → Bytes → Bool
lex_lt [] [] = false
lex_lt [] (y ∷ b) = true
lex_lt (x ∷ a) [] = false
lex_lt (x ∷ a) (y ∷ b) = if x == y then lex_lt a b else ltb x y

abbrev is_negative : ℤ → Bool
is_negative (pos n) = false
is_negative (negsuc n) = true

-- `strcmp` of two C strings is 0 exactly if they are equal, and negative exactly if the first
-- comes first in the order of a dictionary over unsigned bytes.
strcmp_lem :
    (a b : Bytes)
    → IsCString a
    → IsCString b
    → ((strcmp a b ≡ pos 0) ↔ (a ≡ b)) × (is_negative (strcmp a b) ≡ lex_lt a b)
unfolding strcmp
strcmp_lem [] [] ca cb = ground arith
strcmp_lem [] (y ∷ b) ca cb = ground arith
strcmp_lem (x ∷ a) [] ca cb = ground arith
strcmp_lem (x ∷ a) (y ∷ b) (hx, ca) (hy, cb) = ground (arith, strcmp_lem a b ca cb)

-- `strncmp` compares the first `n` bytes as `strcmp` does.
strncmp-take :
    (a b : Bytes) (n : ℕ) → IsCString a → IsCString b → strncmp a b n ≡ strcmp (take n a) (take n b)
unfolding strcmp strncmp
strncmp-take a b zero ca cb = refl
strncmp-take [] [] (suc n) ca cb = ground arith
strncmp-take [] (y ∷ b) (suc n) ca cb = ground arith
strncmp-take (x ∷ a) [] (suc n) ca cb = ground arith
strncmp-take (x ∷ a) (y ∷ b) (suc n) (hx, ca) (hy, cb) = ground (arith, strncmp-take a b n ca cb)
