-- ===== src/Link/Reloc/Section.antt =====
-- All relocations of a section of src/linker.c.
use b1cc.Common.{
  ℕ, zero, suc, ◌+◌, ◌%◌, ◌^◌, ◌≤◌, ◌<◌, ◌≡◌, ◌≢◌, refl, ◌∙◌, true, false, none, codes, str_eq,
  ◌==◌, some, some_injective, List, [], ◌∷◌, ◌++◌, arith, inl, inr, All, length, get_elem?, Bytes,
}
use b1cc.Link.{Rela, Sym, Obj, Linker}
use b1cc.Link.Resolve.{Dictionary, Holds}
use b1cc.Link.Winner.{globals_of}
use b1cc.Link.Address.{sym_addr-undefined}
use b1cc.Link.Reloc.{ok, undefined_symbol, apply_rela, symbol_value, relocate}
use b1cc.Link.Reloc.Field.{byte}
use b1cc.Link.Reloc.Meaning.{width, meaning, fits, apply_rela-meaning}
use b1cc.Link.Reloc.Holds.{
  bind-ok, Away, Separated, Separate, IsGood, apply_rela-kept, apply_rela-returns, meaning-same,
}

-- The bytes that no relocation writes.
relocate-kept :
    (lk : Linker) (o : Obj) (va : ℕ) (rels : List Rela) (bytes w : Bytes) (j : ℕ)
    → relocate lk o va rels bytes ≡ ok w
    → All (Away j) rels
    → byte w j ≡ byte bytes j
unfolding relocate
relocate-kept lk o va [] bytes w j e away = let same : bytes ≡ w = cc in rw same refl
relocate-kept lk o va (r ∷ rels) bytes w j e (one, away) =
    let (s, value, rest) = bind-ok (symbol_value lk o r.sym) _ e in
    let (written, step, more) = bind-ok (apply_rela s ((va + r.off) % 2 ^ 64) r bytes) _ rest in
    relocate-kept lk o va rels written w j more away
    ∙ apply_rela-kept s ((va + r.off) % 2 ^ 64) r bytes written j step one

-- A byte of one field is in no field that is separate from it.
Separated-Away :
    (r : Rela) (rels : List Rela) (j : ℕ)
    → r.off ≤ j
    → j < r.off + width r
    → All (Separated r) rels
    → All (Away j) rels
Separated-Away r [] j low high h = tt
Separated-Away r (q ∷ rels) j low high (inl one, h) =
    (inl (omega arith), Separated-Away r rels j low high h)
Separated-Away r (q ∷ rels) j low high (inr one, h) =
    (inr (omega arith), Separated-Away r rels j low high h)

relocate-returns :
    (lk : Linker) (o : Obj) (va : ℕ) (rels : List Rela) (bytes : Bytes)
    → All (IsGood lk o (length bytes)) rels
    → (w : Bytes) × (relocate lk o va rels bytes ≡ ok w) × (length w ≡ length bytes)
unfolding relocate
relocate-returns lk o va [] bytes h = (bytes, refl, refl)
relocate-returns lk o va (r ∷ rels) bytes ((known, room, (s, value)), h) =
    let (written, step, size) = apply_rela-returns s ((va + r.off) % 2 ^ 64) r bytes known room in
    let good : All (IsGood lk o (length written)) rels = rw size h in
    let (w, run, same) = relocate-returns lk o va rels written good in
    (w, rw (value, relocate) (rw step run), same ∙ size)

relocate-means :
    (lk : Linker) (o : Obj) (va : ℕ) (rels : List Rela) (bytes w : Bytes) (i : ℕ) (r : Rela) (s : ℕ)
    → relocate lk o va rels bytes ≡ ok w
    → Separate rels
    → get_elem? rels i ≡ some r
    → symbol_value lk o r.sym ≡ ok s
    → fits r ((va + r.off) % 2 ^ 64) ((s + r.add) % 2 ^ 64) ≡ true
    → meaning r ((va + r.off) % 2 ^ 64) w ≡ (s + r.add) % 2 ^ 64
unfolding relocate
relocate-means lk o va [] bytes w i r s e apart g value fit = absurd cc
relocate-means lk o va (q ∷ rels) bytes w zero r s e (away, apart) g value fit =
    let same : q ≡ r = some_injective g in
    let p = (va + r.off) % 2 ^ 64 in
    let (s', value', rest) = bind-ok (symbol_value lk o q.sym) _ e in
    let (written, step, more) = bind-ok (apply_rela s' ((va + q.off) % 2 ^ 64) q bytes) _ rest in
    let value'' : symbol_value lk o r.sym ≡ ok s' = rw same at value' in
    let is : s' ≡ s = cc in
    let step' : apply_rela s p r bytes ≡ ok written = rw is at (rw same at step) in
    let away' : All (Separated r) rels = rw same at away in
    meaning-same r p written w (λ j low high.
      relocate-kept lk o va rels written w j more (Separated-Away r rels j low high away'))
    ∙ apply_rela-meaning s p r bytes written (omega arith) fit step'
relocate-means lk o va (q ∷ rels) bytes w (suc i) r s e (away, apart) g value fit =
    let (s', value', rest) = bind-ok (symbol_value lk o q.sym) _ e in
    let (written, step, more) = bind-ok (apply_rela s' ((va + q.off) % 2 ^ 64) q bytes) _ rest in
    relocate-means lk o va rels written w i r s more apart g value fit

-- The relocations of a section whose types are known, whose fields are inside it and have no byte
-- in common, and whose symbols have values, are all applied; the section keeps its length, and a
-- field that its value fits means, to the processor, the symbol's value plus the addend, also
-- behind the relocations that are applied later.
pub relocate-meaning :
    (lk : Linker) (o : Obj) (va : ℕ) (rels : List Rela) (bytes : Bytes) (i : ℕ) (r : Rela) (s : ℕ)
    → All (IsGood lk o (length bytes)) rels
    → Separate rels
    → get_elem? rels i ≡ some r
    → symbol_value lk o r.sym ≡ ok s
    → fits r ((va + r.off) % 2 ^ 64) ((s + r.add) % 2 ^ 64) ≡ true
    → (w : Bytes) × (relocate lk o va rels bytes ≡ ok w)
      × (length w ≡ length bytes)
      × (meaning r ((va + r.off) % 2 ^ 64) w ≡ (s + r.add) % 2 ^ 64)
relocate-meaning lk o va rels bytes i r s good apart g value fit =
    let (w, run, size) = relocate-returns lk o va rels bytes good in
    (w, run, size, relocate-means lk o va rels bytes w i r s run apart g value fit)

module _ (lk : Linker) (o : Obj) (va : ℕ) (later : List Rela) (r : Rela) where
  stops_at :
      (rels : List Rela) (bytes name : Bytes)
      → All (IsGood lk o (length bytes)) rels
      → symbol_value lk o r.sym ≡ undefined_symbol name
      → relocate lk o va (rels ++ (r ∷ later)) bytes ≡ undefined_symbol name
  unfolding relocate
  stops_at [] bytes name good e = rw (e, relocate) refl
  stops_at (q ∷ rels) bytes name ((known, room, (s, value)), good) e =
      let (written, step, size) = apply_rela-returns s ((va + q.off) % 2 ^ 64) q bytes known room in
      let good' : All (IsGood lk o (length written)) rels = rw size good in
      rw (value, relocate) (rw step (stops_at rels written name good' e))

module _ (lk : Linker) (o : Obj) (f : Dictionary) (w : Holds (globals_of lk) f) (index : ℕ)
    (y : Sym) (there : get_elem? o.syms index ≡ some y) (outside : y.shndx ≡ 0)
    (global : y.bind ≢ 0) (plain : y.type ≢ 3)
    (start : str_eq y.name (codes "__init_array_start") ≡ false)
    (stop : str_eq y.name (codes "__init_array_end") ≡ false) (missing : f y.name ≡ none) where
  undefined-value : y.bind ≢ 2 → symbol_value lk o index ≡ undefined_symbol y.name
  unfolding symbol_value
  undefined-value strong =
      let none_found = sym_addr-undefined lk o y f w global plain start stop missing outside in
      let not_weak : y.bind == 2 ≡ false = ground arith in
      rw (there, symbol_value) (rw none_found (rw not_weak refl))

-- A relocation to an undefined symbol, which is not weak, not local, no section and no boundary of
-- the constructors, and whose name no definition stands for, ends the run with the symbol's name,
-- where the relocations before it can be applied, whatever follows.
pub relocate-undefined :
    (lk : Linker) (o : Obj) (f : Dictionary) (va : ℕ) (rels later : List Rela) (r : Rela)
    (bytes : Bytes) (y : Sym)
    → Holds (globals_of lk) f
    → All (IsGood lk o (length bytes)) rels
    → get_elem? o.syms r.sym ≡ some y
    → y.shndx ≡ 0
    → y.bind ≢ 0
    → y.bind ≢ 2
    → y.type ≢ 3
    → str_eq y.name (codes "__init_array_start") ≡ false
    → str_eq y.name (codes "__init_array_end") ≡ false
    → f y.name ≡ none
    → relocate lk o va (rels ++ (r ∷ later)) bytes ≡ undefined_symbol y.name
relocate-undefined lk o f va rels later r bytes y w good there outside global strong plain start
      stop missing =
    stops_at lk o va later r rels bytes y.name good
      (undefined-value lk o f w r.sym y there outside global plain start stop missing strong)
