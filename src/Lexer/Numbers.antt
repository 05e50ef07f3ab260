-- ===== src/Lexer/Numbers.antt =====
-- How far the lexer goes in a number, src/lexer.c.
use b1cc.Common.{
  ℕ, suc, ◌+◌, ◌≡◌, refl, ap, ◌∙◌, Bool, true, false, ◌||◌, not, [], ◌∷◌, ◌++◌, ◌==◌, if◌then◌else◌,
  arith, length, drop, drop-prefix, Bytes,
}
use b1cc.Preproc.{is_digit}
use b1cc.Preproc.Tokens.{span}
use b1cc.Preproc.Tokens.Render.{every, span-append}
use b1cc.Lexer.Scan.{
  digits_tail, number_tail, fraction_width, exponent_width, suffix_width, first, is_int_suffix,
  is_float_suffix, is_dec_mark,
}

abbrev is_gap : ℕ → Bool
is_gap g = g == b' ' || g == 10

pub span-stops :
    (p : ℕ → Bool) (t u : Bytes)
    → every p t ≡ true
    → p (first u) ≡ false
    → span p (t ++ u) ≡ length t
unfolding span
span-stops p t [] h g = omega (arith, span-append p t [] h)
span-stops p t (c ∷ u) h g = ground (arith, span-append p t (c ∷ u) h)

-- The first byte behind bytes of one kind is of that kind or the next one.
pub first-either :
    (p q : ℕ → Bool) (t u : Bytes)
    → ((c : ℕ) → p c ≡ true → q c ≡ false)
    → every p t ≡ true
    → q (first u) ≡ false
    → q (first (t ++ u)) ≡ false
unfolding every
first-either p q [] u away h g = g
first-either p q (c ∷ t) u away h g = away c (ground arith)

number_tail-parts :
    (p mark : ℕ → Bool) (s : Bytes) (f e : ℕ)
    → fraction_width p s ≡ f
    → exponent_width mark (drop f s) ≡ e
    → number_tail p mark s ≡ f + e + suffix_width (not (f + e == 0)) (drop e (drop f s))
unfolding number_tail
number_tail-parts p mark s f e hf he = rw (hf, number_tail) (rw he refl)

digits_tail-parts :
    (p mark : ℕ → Bool) (d u : Bytes)
    → every p d ≡ true
    → p (first u) ≡ false
    → digits_tail p mark (d ++ u) ≡ length d + number_tail p mark u
unfolding digits_tail
digits_tail-parts p mark d u h g =
    rw (span-stops p d u h g, digits_tail) (rw (drop-prefix d u) refl)

fraction_width-none :
    (p : ℕ → Bool) (u : Bytes) → (first u == b'.') ≡ false → fraction_width p u ≡ 0
unfolding fraction_width
fraction_width-none p u h = rw (h, if◌then◌else◌) refl

exponent_width-none :
    (mark : ℕ → Bool) (u : Bytes) → mark (first u) ≡ false → exponent_width mark u ≡ 0
unfolding exponent_width
exponent_width-none mark u h = rw (h, if◌then◌else◌) refl

float_suffix-width :
    (s u : Bytes)
    → every is_float_suffix s ≡ true
    → is_float_suffix (first u) || first u == b'i' || first u == b'I' ≡ false
    → suffix_width true (s ++ u) ≡ length s
unfolding suffix_width
float_suffix-width s u h last =
    let letters = span-stops is_float_suffix s u h (ground arith) in
    let none_i : first u == b'i' || first u == b'I' ≡ false = ground arith in
    rw (letters, suffix_width) (rw (drop-prefix s u) (rw (none_i, if◌then◌else◌) (omega arith)))

int_suffix-width :
    (s u : Bytes)
    → every is_int_suffix s ≡ true
    → is_int_suffix (first u) ≡ false
    → suffix_width false (s ++ u) ≡ length s
unfolding suffix_width
int_suffix-width s u h last = span-stops is_int_suffix s u h last

pub digits_tail-integer :
    (p mark : ℕ → Bool) (d s u : Bytes)
    → every p d ≡ true
    → every is_int_suffix s ≡ true
    → p (first (s ++ u)) || mark (first (s ++ u)) || first (s ++ u) == b'.' ≡ false
    → is_int_suffix (first u) ≡ false
    → digits_tail p mark (d ++ (s ++ u)) ≡ length d + length s
digits_tail-integer p mark d s u hd hs ends last =
    let fraction = fraction_width-none p (s ++ u) (ground arith) in
    let exponent = exponent_width-none mark (s ++ u) (ground arith) in
    let letters = int_suffix-width s u hs last in
    digits_tail-parts p mark d (s ++ u) hd (ground arith)
    ∙ ap (λ n. length d + n) (number_tail-parts p mark (s ++ u) 0 0 fraction exponent ∙ omega arith)

pub digits_tail-floating :
    (d f s u : Bytes)
    → every is_digit d ≡ true
    → every is_digit f ≡ true
    → every is_float_suffix s ≡ true
    → is_digit (first (s ++ u)) || is_dec_mark (first (s ++ u)) ≡ false
    → is_float_suffix (first u) || first u == b'i' || first u == b'I' ≡ false
    → digits_tail is_digit is_dec_mark (d ++ (b'.' ∷ (f ++ (s ++ u))))
      ≡ length d + (suc (length f) + length s)
unfolding fraction_width
digits_tail-floating d f s u hd hf hs ends last =
    let behind = b'.' ∷ (f ++ (s ++ u)) in
    let fraction : fraction_width is_digit behind ≡ suc (length f) =
      ap suc (span-stops is_digit f (s ++ u) hf (ground arith)) in
    let rest = drop-prefix f (s ++ u) in
    let exponent : exponent_width is_dec_mark (drop (suc (length f)) behind) ≡ 0 =
      ap (exponent_width is_dec_mark) rest
      ∙ exponent_width-none is_dec_mark (s ++ u) (ground arith) in
    let letters : suffix_width true (drop (length f) (f ++ (s ++ u))) ≡ length s =
      ap (suffix_width true) rest ∙ float_suffix-width s u hs last in
    let float : not (suc (length f) + 0 == 0) ≡ true = ground arith in
    digits_tail-parts is_digit is_dec_mark d behind hd refl
    ∙ ap (λ n. length d + n)
        (number_tail-parts is_digit is_dec_mark behind (suc (length f)) 0 fraction exponent
          ∙ rw float (omega arith))
