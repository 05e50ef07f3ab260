-- ===== src/Elf/Memory/Decode.antt =====
-- A decoder of memory operands, from the processor's manual, and what it reads from the bytes of
-- src/elf_writer.c.
use Prim.Native.Nat.{bit_and}
use b1cc.Common.{
  ℕ, zero, suc, ◌+◌, ◌-◌, ◌*◌, ◌/◌, ◌%◌, ◌^◌, ◌<◌, ◌≡◌, ◌≢◌, refl, ◌∙◌, Bool, true, false, ◌&&◌,
  ◌||◌, not, Option, none, some, [], ◌∷◌, ◌==◌, ==_iff, if◌then◌else◌, ltb, leb, arith, Bytes, inl,
  inr, Bool-cases,
}
use b1cc.Elf.Memory.{rex, modrm_rr, modrm_r0, modrm_r8, modrm_r32, mem_rex, mem_modrm, sib_byte}

-- What the processor reads: an operation between a register and base + index * scale + displacement.
pub record MemAccess : Type 0 where
  pub wide : Bool
  opcode : ℕ
  pub reg : ℕ
  pub base : ℕ
  pub index : ℕ
  pub scale : ℕ
  disp : ℕ

-- Behind the prefix, whose four low bits are `prefix`. A SIB byte follows where the low field of ModRM
-- is 4; index 4 stands for no index, and base 5 with mode 0 for no base.
unfoldable pub finish : ℕ → ℕ → ℕ → ℕ → (ℕ → MemAccess) → Bytes → Option (MemAccess × Bytes)
finish mode rm index low access rest =
    if not (rm == 4) || index == 4
    then none
    else if mode == 0
    then (if low == 5 then none else some (access 0, rest))
    else if mode == 1
    then elim rest [ [] ↦ none | d ∷ behind ↦ some (access d, behind) ]
    else none

unfoldable pub decode_access : ℕ → Bytes → Option (MemAccess × Bytes)
decode_access prefix (op ∷ m ∷ s ∷ rest) =
    finish (m / 64) (m % 8) (s / 8 % 8 + prefix / 2 % 2 * 8) (s % 8)
      (λ disp. record {
        wide = prefix / 8 % 2 == 1;
        opcode = op;
        reg = m / 8 % 8 + prefix / 4 % 2 * 8;
        base = s % 8 + prefix % 2 * 8;
        index = s / 8 % 8 + prefix / 2 % 2 * 8;
        scale = 2 ^ (s / 64);
        disp = disp;
      })
      rest
decode_access prefix _ = none

unfoldable pub decode_memory : Bytes → Option (MemAccess × Bytes)
unfolding decode_access finish
decode_memory [] = none
decode_memory (b ∷ s) =
    if leb 64 b && ltb b 80 then decode_access (b - 64) s else decode_access 0 (b ∷ s)

-- Tables over small ranges.
unfoldable pub all_below : ℕ → (ℕ → Bool) → Bool
all_below zero p = true
all_below (suc n) p = p n && all_below n p

pub all_below_sound : (n : ℕ) (p : ℕ → Bool) (x : ℕ) → all_below n p ≡ true → x < n → p x ≡ true
unfolding all_below
all_below_sound zero p x h less = absurd (omega arith)
all_below_sound (suc n) p x h less = ground (arith, all_below_sound n p x)

modrm_ok : Bool → ℕ → Bool
modrm_ok d reg =
    let m = mem_modrm d reg in
    m / 64 == (if d then 1 else 0) && m / 8 % 8 == reg % 8 && m % 8 == 4 && m % 256 == m

sib_ok : ℕ → ℕ → ℕ → Bool
sib_ok l idx base =
    let s = sib_byte l idx base in
    s / 64 == l && s / 8 % 8 == idx % 8 && s % 8 == base % 8 && s % 256 == s

mem_modrm-fields : (d : Bool) (reg : ℕ) → reg < 16 → modrm_ok d reg ≡ true
unfolding all_below modrm_ok mem_modrm
mem_modrm-fields true reg h = all_below_sound 16 (modrm_ok true) reg refl h
mem_modrm-fields false reg h = all_below_sound 16 (modrm_ok false) reg refl h

sib_byte-fields : (l idx base : ℕ) → l < 4 → idx < 16 → base < 16 → sib_ok l idx base ≡ true
unfolding all_below sib_ok sib_byte
sib_byte-fields l idx base hl hi hb =
    all_below_sound 16 (sib_ok l idx) base
      (all_below_sound 16 (λ i. all_below 16 (sib_ok l i)) idx
        (all_below_sound 4 (λ k. all_below 16 (λ i. all_below 16 (sib_ok k i))) l refl hl) hi)
      hb

-- The tables read as equations.
pub modrm_facts :
    (d : Bool) (reg : ℕ)
    → reg < 16
    → (mem_modrm d reg / 64 ≡ (if d then 1 else 0))
      × (mem_modrm d reg / 8 % 8 ≡ reg % 8)
      × (mem_modrm d reg % 8 ≡ 4)
      × (mem_modrm d reg % 256 ≡ mem_modrm d reg)
unfolding modrm_ok
modrm_facts d reg h = let all = mem_modrm-fields d reg h in grind arith

pub sib_facts :
    (l idx base : ℕ)
    → l < 4
    → idx < 16
    → base < 16
    → (sib_byte l idx base / 64 ≡ l)
      × (sib_byte l idx base / 8 % 8 ≡ idx % 8)
      × (sib_byte l idx base % 8 ≡ base % 8)
      × (sib_byte l idx base % 256 ≡ sib_byte l idx base)
unfolding sib_ok
sib_facts l idx base hl hi hb = let all = sib_byte-fields l idx base hl hi hb in grind arith

unfoldable pub bit : Bool → ℕ
bit b = if b then 1 else 0

pub mem_rex_lem :
    (w r x b : Bool) → mem_rex w r x b ≡ 64 + (bit w * 8 + bit r * 4 + bit x * 2 + bit b)
unfolding mem_rex bit
mem_rex_lem true true true true = refl
mem_rex_lem true true true false = refl
mem_rex_lem true true false true = refl
mem_rex_lem true true false false = refl
mem_rex_lem true false true true = refl
mem_rex_lem true false true false = refl
mem_rex_lem true false false true = refl
mem_rex_lem true false false false = refl
mem_rex_lem false true true true = refl
mem_rex_lem false true true false = refl
mem_rex_lem false true false true = refl
mem_rex_lem false true false false = refl
mem_rex_lem false false true true = refl
mem_rex_lem false false true false = refl
mem_rex_lem false false false true = refl
mem_rex_lem false false false false = refl

base_table : all_below 16 (λ b. bit_and b 7 == b % 8) ≡ true
unfolding all_below
base_table = refl

pub bit_and_seven : (b : ℕ) → b < 16 → bit_and b 7 ≡ b % 8
bit_and_seven b h = (==_iff _ _).0 (all_below_sound 16 (λ b. bit_and b 7 == b % 8) b base_table h)

abbrev pub access_at : Bool → ℕ → ℕ → ℕ → ℕ → ℕ → ℕ → MemAccess
access_at w op reg base idx l disp = record {
  wide = w;
  opcode = op;
  reg = reg;
  base = base;
  index = idx;
  scale = 2 ^ l;
  disp = disp;
}

access_eq :
    {w w' : Bool} {reg reg' base base' idx idx' l l' : ℕ} (op disp : ℕ)
    → w ≡ w'
    → reg ≡ reg'
    → base ≡ base'
    → idx ≡ idx'
    → l ≡ l'
    → access_at w op reg base idx l disp ≡ access_at w' op reg' base' idx' l' disp
access_eq op disp a b c d e = cc

finish-ok :
    (low idx : ℕ) (access : ℕ → MemAccess) (rest : Bytes)
    → idx ≢ 4
    → finish (if low == 5 then 1 else 0) 4 idx low access (if low == 5 then 0 ∷ rest else rest)
      ≡ some (access 0, rest)
unfolding finish
finish-ok low idx access rest ne =
    let other : idx == 4 ≡ false = ground arith in
    elim (Bool-cases (low == 5)) [
      | inl e ↦ rw (other, e, if◌then◌else◌) refl
      | inr e ↦ rw (other, e, if◌then◌else◌) refl
    ]

finish_eq :
    (mode mode' rm rm' index index' low low' : ℕ) (access access' : ℕ → MemAccess) (rest : Bytes)
    → mode ≡ mode'
    → rm ≡ rm'
    → index ≡ index'
    → low ≡ low'
    → ((d : ℕ) → access d ≡ access' d)
    → finish mode rm index low access rest ≡ finish mode' rm' index' low' access' rest
finish_eq mode mode' rm rm' index index' low low' access access' rest a b c d e =
    let same : access ≡ access' = λ i k. e k i in cc

-- The bytes behind the prefix decode, with the fourth bits of the registers from it.
pub decode_access-bytes :
    (w : Bool) (op reg base idx l : ℕ) (rest : Bytes)
    → reg < 16
    → base < 16
    → idx < 16
    → idx ≢ 4
    → l < 4
    → (p : ℕ) → p ≡ bit w * 8 + bit (leb 8 reg) * 4 + bit (leb 8 idx) * 2 + bit (leb 8 base)
    → decode_access p (
        op
        ∷ mem_modrm (base % 8 == 5) reg
        ∷ sib_byte l idx base
        ∷ (if base % 8 == 5 then 0 ∷ rest else rest))
      ≡ some (access_at w op reg base idx l 0, rest)
unfolding decode_access bit
decode_access-bytes w op reg base idx l rest hr hb hi ne hl p e =
    let d = base % 8 == 5 in
    let (mode, field, rm, m_byte) = modrm_facts d reg hr in
    let (log, index, low, s_byte) = sib_facts l idx base hl hi hb in
    let wide : p / 8 % 2 == 1 ≡ w = ground arith in
    let reg_all : mem_modrm d reg / 8 % 8 + p / 4 % 2 * 8 ≡ reg = ground arith in
    let base_all : sib_byte l idx base % 8 + p % 2 * 8 ≡ base = ground arith in
    let index_all : sib_byte l idx base / 8 % 8 + p / 2 % 2 * 8 ≡ idx = ground arith in
    finish_eq _ _ _ _ _ _ _ _ _ (access_at w op reg base idx l) _ mode rm index_all low
      (λ disp. access_eq op disp wide reg_all base_all index_all log)
    ∙ finish-ok (base % 8) idx (access_at w op reg base idx l) rest ne

register_ok : ℕ → ℕ → Bool
register_ok r m =
    let fields = r % 8 * 8 + m % 8 in
    let high = leb 8 r in
    modrm_rr r m == 192 + fields
    && modrm_r0 r m == fields
    && modrm_r8 r m == 64 + fields
    && modrm_r32 r m == 128 + fields
    && rex true r m == 72 + bit (leb 8 r) * 4 + bit (leb 8 m)
    && rex false r m == 64 + bit (leb 8 r) * 4 + bit (leb 8 m)

register_table : all_below 16 (λ r. all_below 16 (register_ok r)) ≡ true
unfolding all_below register_ok modrm_rr modrm_r0 modrm_r8 modrm_r32 rex bit
register_table = refl

-- For all pairs of registers, the four ModRM bytes have the mode (3, 0, 1 and 2), the low bits of the
-- first register and those of the second one in their fields, and the REX prefix has the width and
-- the fourth bits.
modrm_rr-fields :
    (wide : Bool) (r m : ℕ)
    → r < 16
    → m < 16
    → (modrm_rr r m ≡ 3 * 64 + (r % 8 * 8 + m % 8))
      × (modrm_r0 r m ≡ 0 * 64 + (r % 8 * 8 + m % 8))
      × (modrm_r8 r m ≡ 1 * 64 + (r % 8 * 8 + m % 8))
      × (modrm_r32 r m ≡ 2 * 64 + (r % 8 * 8 + m % 8))
      × (rex wide r m ≡ 64 + bit wide * 8 + bit (leb 8 r) * 4 + bit (leb 8 m))
unfolding register_ok bit
modrm_rr-fields wide r m hr hm =
    let checked =
      all_below_sound 16 (register_ok r) m
        (all_below_sound 16 (λ k. all_below 16 (register_ok k)) r register_table hr) hm in
    by_width wide checked
  where
    by_width :
        (wide : Bool)
        → register_ok r m ≡ true
        → (modrm_rr r m ≡ 3 * 64 + (r % 8 * 8 + m % 8))
          × (modrm_r0 r m ≡ 0 * 64 + (r % 8 * 8 + m % 8))
          × (modrm_r8 r m ≡ 1 * 64 + (r % 8 * 8 + m % 8))
          × (modrm_r32 r m ≡ 2 * 64 + (r % 8 * 8 + m % 8))
          × (rex wide r m ≡ 64 + bit wide * 8 + bit (leb 8 r) * 4 + bit (leb 8 m))
    by_width true checked = grind arith
    by_width false checked = grind arith
