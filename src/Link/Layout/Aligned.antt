-- ===== src/Link/Layout/Aligned.antt =====
-- Rounding an address up, src/linker.c.
use b1cc.Common.{ℕ, zero, suc, ◌+◌, ◌-◌, ◌*◌, ◌/◌, ◌%◌, ◌^◌, ◌≤◌, ◌<◌, ◌≡◌, ap, ◌∙◌, arith}
use native.Mathlib.Nat.{one-le-pow, mod-lt, mod-add-div', lt_of_mul-lt-mul_right}
use b1cc.Common.Bits.{bit_and-clear, two_pow-add}
use b1cc.Link.Layout.{align_va}

-- A power of two that fits in 64 bits.
abbrev pub IsPower : ℕ → Type 0
IsPower al = (k : ℕ) × (j : ℕ) × (k + j ≡ 64) × (al ≡ 2 ^ k)

abbrev pub Aligned : ℕ → ℕ → Type 0
Aligned al v = (q : ℕ) × (v ≡ q * al)

-- The next multiple of the alignment.
abbrev RoundsUp : ℕ → ℕ → ℕ → Type 0
RoundsUp va al r = Aligned al r × (va ≤ r) × (r < va + al)

times-pred : (n b : ℕ) → 0 < n → n * b ≡ (n - 1) * b + b
times-pred zero b h = absurd (omega arith)
times-pred (suc n) b h = let pred : suc n - 1 ≡ n = omega arith in rw pred (grind arith)

mask-value : (k j : ℕ) → k + j ≡ 64 → 2 ^ 64 - 2 ^ k ≡ (2 ^ j - 1) * 2 ^ k
mask-value k j whole =
    let product = two_pow-add j k ∙ ap (λ x. 2 ^ x) whole in
    let one = one-le-pow j 2 in
    let split : 2 ^ j * 2 ^ k ≡ (2 ^ j - 1) * 2 ^ k + 2 ^ k =
      times-pred (2 ^ j) (2 ^ k) (omega (arith, one)) in
    omega arith

align_va-power :
    (k j va : ℕ)
    → k + j ≡ 64
    → va + (2 ^ k - 1) < 2 ^ 64
    → RoundsUp va (2 ^ k) (align_va va (2 ^ k))
unfolding align_va
align_va-power k j va whole room =
    let x = va + (2 ^ k - 1) in
    let q = x / 2 ^ k in
    let r = x % 2 ^ k in
    let split : r + q * 2 ^ k ≡ x = mod-add-div' x (2 ^ k) in
    let small : r < 2 ^ k = mod-lt x (omega (arith, one-le-pow k 2)) in
    let product = two_pow-add j k ∙ ap (λ y. 2 ^ y) whole in
    let short : q < 2 ^ j = lt_of_mul-lt-mul_right (2 ^ k) (omega arith) in
    let cut : x % 2 ^ 64 ≡ q * 2 ^ k + r = omega arith in
    let value : align_va va (2 ^ k) ≡ q * 2 ^ k =
      rw (cut, align_va) (rw (mask-value k j whole) (bit_and-clear k j q r short small)) in
    ((q, value), omega arith, omega (arith, one-le-pow k 2))

pub align_va-RoundsUp :
    (va al : ℕ) → IsPower al → va + al ≤ 2 ^ 64 → RoundsUp va al (align_va va al)
align_va-RoundsUp va al (k, j, whole, power) room =
    rw power (align_va-power k j va whole (omega (arith, one-le-pow k 2)))
