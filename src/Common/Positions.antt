-- ===== src/Common/Positions.antt =====
-- Where a text ends: its newlines, and the bytes behind the last one.
use Prim.Native.Nat.{ℕ, suc, ◌+◌}
use mathlib.Core.Path.{◌≡◌, refl}
use mathlib.Core.Bool.{false}
use mathlib.Core.List.{List, [], ◌∷◌}
use native.Mathlib.Omega.{arith}
use b1cc.Common.Tests.{◌==◌, if◌then◌else◌}
use b1cc.Common.Lists.{length}

unfoldable pub newlines : List ℕ → ℕ
newlines [] = 0
newlines (c ∷ s) = if c == 10 then suc (newlines s) else newlines s

unfoldable pub since_newline : List ℕ → ℕ
since_newline [] = 0
since_newline (c ∷ s) = if newlines (c ∷ s) == 0 then suc (length s) else since_newline s

-- The column behind a text that starts at the column `col`.
unfoldable pub column_behind : ℕ → List ℕ → ℕ
column_behind col s = if newlines s == 0 then col + length s else 1 + since_newline s

pub column_behind-newline : (col : ℕ) (s : List ℕ) → column_behind 1 s ≡ column_behind col (10 ∷ s)
unfolding column_behind newlines since_newline
column_behind-newline col [] = refl
column_behind-newline col (c ∷ s) = ground arith

pub column_behind-other :
    (col c : ℕ) (s : List ℕ)
    → (c == 10) ≡ false
    → column_behind (col + 1) s ≡ column_behind col (c ∷ s)
unfolding column_behind newlines since_newline
column_behind-other col c s h = ground arith

pub column_behind-start : (s : List ℕ) → column_behind 1 s ≡ 1 + since_newline s
unfolding column_behind newlines since_newline
column_behind-start [] = refl
column_behind-start (c ∷ s) = ground arith
