-- ===== src/Elf/Memory/Encoded.antt =====
-- enc_mem_idx of src/elf_writer.c writes what the decoder reads.
use b1cc.Common.{
  ℕ, ◌+◌, ◌-◌, ◌*◌, ◌%◌, ◌^◌, ◌≤◌, ◌<◌, ◌≡◌, ◌≢◌, refl, ap, ◌∙◌, Bool, true, false, ◌&&◌, ◌||◌,
  some, [], ◌∷◌, ◌++◌, append_assoc, ◌==◌, ==_iff, if◌then◌else◌, ltb, leb, arith, Bytes, inl, inr,
  Bool-cases,
}
use b1cc.Elf.Buffer.{ByteBuf, bb_write8, bb_reserve-cap}
use b1cc.Elf.Memory.{mem_rex, mem_modrm, sib_byte, scale_log2_of, write_access, enc_mem_idx}
use b1cc.Elf.Memory.Decode.{
  decode_access, decode_memory, all_below, all_below_sound, modrm_facts, sib_facts, bit,
  mem_rex_lem, bit_and_seven, access_at, decode_access-bytes,
}

-- The bytes that enc_mem_idx appends.
mem_bytes : Bool → ℕ → ℕ → ℕ → ℕ → ℕ → Bytes
mem_bytes w op reg base idx l =
    let access =
      op
      ∷ mem_modrm (base % 8 == 5) reg
      ∷ sib_byte l idx base
      ∷ (if base % 8 == 5 then 0 ∷ [] else []) in
    if w || leb 8 reg || leb 8 base || leb 8 idx
    then mem_rex w (leb 8 reg) (leb 8 idx) (leb 8 base) ∷ access
    else access

bb_write8-bytes : (b : ByteBuf) (v : ℕ) → (bb_write8 b v).bytes ≡ b.bytes ++ (v % 256) ∷ []
unfolding bb_write8
bb_write8-bytes b v = ap (λ s. s ++ (v % 256) ∷ []) (bb_reserve-cap b 1).0

scale_log2_of-pow : (l : ℕ) → l < 4 → scale_log2_of (2 ^ l) ≡ l
unfolding all_below scale_log2_of
scale_log2_of-pow l h =
    (==_iff _ _).0 (all_below_sound 4 (λ k. scale_log2_of (2 ^ k) == k) l refl h)

decode-prefixed :
    (b : ℕ) (s : Bytes)
    → (leb 64 b && ltb b 80) ≡ true
    → decode_memory (b ∷ s) ≡ decode_access (b - 64) s
unfolding decode_memory
decode-prefixed b s h = rw (h, if◌then◌else◌) refl

decode-plain :
    (b : ℕ) (s : Bytes)
    → (leb 64 b && ltb b 80) ≡ false
    → decode_memory (b ∷ s) ≡ decode_access 0 (b ∷ s)
unfolding decode_memory
decode-plain b s h = rw (h, if◌then◌else◌) refl

disp-append :
    (d : Bool) (rest : Bytes) → (if d then 0 ∷ [] else []) ++ rest ≡ (if d then 0 ∷ rest else rest)
disp-append true rest = refl
disp-append false rest = refl

bit_bound : (b : Bool) → bit b ≤ 1
unfolding bit
bit_bound true = omega arith
bit_bound false = omega arith

mem_rex-range : (w r x b : Bool) → (leb 64 (mem_rex w r x b) && ltb (mem_rex w r x b) 80) ≡ true
mem_rex-range w r x b =
    let value = mem_rex_lem w r x b in
    ground (arith, value, bit_bound w, bit_bound r, bit_bound x, bit_bound b)

no_bits :
    (w : Bool) (reg base idx : ℕ)
    → w || leb 8 reg || leb 8 base || leb 8 idx ≡ false
    → 0 ≡ bit w * 8 + bit (leb 8 reg) * 4 + bit (leb 8 idx) * 2 + bit (leb 8 base)
unfolding bit
no_bits w reg base idx h = ground arith

-- The bytes of an operand and others behind them decode as the operand.
decode_memory-bytes :
    (w : Bool) (op reg base idx l : ℕ) (rest : Bytes)
    → (leb 64 op && ltb op 80) ≡ false
    → reg < 16
    → base < 16
    → idx < 16
    → idx ≢ 4
    → l < 4
    → decode_memory (mem_bytes w op reg base idx l ++ rest)
      ≡ some (access_at w op reg base idx l 0, rest)
unfolding decode_memory mem_bytes
decode_memory-bytes w op reg base idx l rest plain hr hb hi ne hl =
    elim (Bool-cases (w || leb 8 reg || leb 8 base || leb 8 idx)) [
      | inl prefixed ↦
          let pre = mem_rex w (leb 8 reg) (leb 8 idx) (leb 8 base) in
          let value = mem_rex_lem w (leb 8 reg) (leb 8 idx) (leb 8 base) in
          let m = mem_modrm (base % 8 == 5) reg in
          let s = sib_byte l idx base in
          let more = (if base % 8 == 5 then 0 ∷ [] else []) ++ rest in
          rw (prefixed, if◌then◌else◌)
            (decode-prefixed pre (op ∷ m ∷ s ∷ more)
                (mem_rex-range w (leb 8 reg) (leb 8 idx) (leb 8 base))
              ∙ ap (λ t. decode_access (pre - 64) (op ∷ m ∷ s ∷ t))
                  (disp-append (base % 8 == 5) rest)
              ∙ decode_access-bytes w op reg base idx l rest hr hb hi ne hl (pre - 64)
                  (omega arith))
      | inr short ↦
          let m = mem_modrm (base % 8 == 5) reg in
          let s = sib_byte l idx base in
          let more = (if base % 8 == 5 then 0 ∷ [] else []) ++ rest in
          rw (short, if◌then◌else◌)
            (decode-plain op (m ∷ s ∷ more) plain
              ∙ ap (λ t. decode_access 0 (op ∷ m ∷ s ∷ t)) (disp-append (base % 8 == 5) rest)
              ∙ decode_access-bytes w op reg base idx l rest hr hb hi ne hl 0
                  (no_bits w reg base idx short))
    ]

three_writes :
    (start : ByteBuf) (op m s : ℕ)
    → (bb_write8 (bb_write8 (bb_write8 start op) m) s).bytes
      ≡ start.bytes ++ (op % 256 ∷ m % 256 ∷ s % 256 ∷ [])
three_writes start op m s =
    let first = bb_write8 start op in
    bb_write8-bytes (bb_write8 first m) s
    ∙ ap (λ t. t ++ s % 256 ∷ []) (bb_write8-bytes first m)
    ∙ append_assoc first.bytes (m % 256 ∷ []) (s % 256 ∷ [])
    ∙ ap (λ t. t ++ (m % 256 ∷ s % 256 ∷ [])) (bb_write8-bytes start op)
    ∙ append_assoc start.bytes (op % 256 ∷ []) (m % 256 ∷ s % 256 ∷ [])

write_access-bytes :
    (start : ByteBuf) (op m s : ℕ) (d : Bool)
    → (write_access start op m s d).bytes
      ≡ start.bytes ++ (op % 256 ∷ m % 256 ∷ s % 256 ∷ (if d then 0 ∷ [] else []))
unfolding write_access
write_access-bytes start op m s false = three_writes start op m s
write_access-bytes start op m s true =
    bb_write8-bytes (bb_write8 (bb_write8 (bb_write8 start op) m) s) 0
    ∙ ap (λ t. t ++ 0 ∷ []) (three_writes start op m s)
    ∙ append_assoc start.bytes (op % 256 ∷ m % 256 ∷ s % 256 ∷ []) (0 ∷ [])

bytes_eq :
    {a a' b b' c c' : ℕ} (start more : Bytes)
    → a ≡ a'
    → b ≡ b'
    → c ≡ c'
    → start ++ (a ∷ b ∷ c ∷ more) ≡ start ++ (a' ∷ b' ∷ c' ∷ more)
bytes_eq start more p q r = cc

start-bytes :
    (text : ByteBuf) (need : Bool) (p : ℕ) (access : Bytes)
    → p % 256 ≡ p
    → (if need then bb_write8 text p else text).bytes ++ access
      ≡ text.bytes ++ (if need then p ∷ access else access)
start-bytes text false p access h = refl
start-bytes text true p access h =
    ap (λ t. t ++ access) (bb_write8-bytes text p)
    ∙ append_assoc text.bytes (p % 256 ∷ []) access
    ∙ ap (λ c. text.bytes ++ c ∷ access) h

enc_mem_idx-bytes :
    (text : ByteBuf) (w : Bool) (op reg base idx l : ℕ)
    → op < 256
    → reg < 16
    → base < 16
    → idx < 16
    → l < 4
    → (enc_mem_idx text op w reg base idx (2 ^ l)).bytes
      ≡ text.bytes ++ mem_bytes w op reg base idx l
unfolding enc_mem_idx mem_bytes
enc_mem_idx-bytes text w op reg base idx l ho hr hb hi hl =
    let pre = mem_rex w (leb 8 reg) (leb 8 idx) (leb 8 base) in
    let need = w || leb 8 reg || leb 8 base || leb 8 idx in
    let start = if need then bb_write8 text pre else text in
    let d = base % 8 == 5 in
    let low = bit_and_seven base hb in
    let scale = scale_log2_of-pow l hl in
    let (mode, field, rm, m_byte) = modrm_facts d reg hr in
    let (log, index, base_low, s_byte) = sib_facts l idx base hl hi hb in
    let op_byte : op % 256 ≡ op = omega arith in
    let range = mem_rex-range w (leb 8 reg) (leb 8 idx) (leb 8 base) in
    let pre_byte : pre % 256 ≡ pre = ground arith in
    ap
      (λ k.
        (write_access start op (mem_modrm (k == 5) reg) (sib_byte (scale_log2_of (2 ^ l)) idx base)
          (k == 5)).bytes)
      low
    ∙ ap (λ k. (write_access start op (mem_modrm d reg) (sib_byte k idx base) d).bytes) scale
    ∙ write_access-bytes start op (mem_modrm d reg) (sib_byte l idx base) d
    ∙ bytes_eq start.bytes (if d then 0 ∷ [] else []) op_byte m_byte s_byte
    ∙ start-bytes text need pre
        (op ∷ mem_modrm d reg ∷ sib_byte l idx base ∷ (if d then 0 ∷ [] else [])) pre_byte

-- enc_mem_idx appends bytes that the processor reads as the operation with the registers, the index
-- and the scale that it was given and no displacement: for all sixteen registers, an index that is
-- not the stack pointer, the four scales and an opcode that is no prefix.
pub decode_memory-enc_mem_idx :
    (text : ByteBuf) (w : Bool) (op reg base idx l : ℕ) (rest : Bytes)
    → op < 256
    → (leb 64 op && ltb op 80) ≡ false
    → reg < 16
    → base < 16
    → idx < 16
    → idx ≢ 4
    → l < 4
    → (code : Bytes) × ((enc_mem_idx text op w reg base idx (2 ^ l)).bytes ≡ text.bytes ++ code)
      × (decode_memory (code ++ rest) ≡ some (access_at w op reg base idx l 0, rest))
decode_memory-enc_mem_idx text w op reg base idx l rest ho plain hr hb hi ne hl = (
  mem_bytes w op reg base idx l,
  enc_mem_idx-bytes text w op reg base idx l ho hr hb hi hl,
  decode_memory-bytes w op reg base idx l rest plain hr hb hi ne hl,
)
