-- ===== src/Elf/Rela/Names.antt =====
-- Which symbol a relocation of src/elf_writer.c names.
use b1cc.Common.{
  ℕ, zero, suc, ◌+◌, ◌≡◌, refl, ◌∙◌, ◌⊎◌, true, false, ◌||◌, some, some_injective, List, [], ◌∷◌,
  ◌++◌, arith, inl, inr, Bool-cases, length, get_elem?, Bytes, str_eq, str_eq_refl,
}
use b1cc.Elf.Rela.{
  ElfSym, ElfReloc, is_local, locals, others, found, add_undefined, local_index, global_index,
  symbol_index,
}

-- The `i`-th symbol has the name.
abbrev pub NamedAt : Bytes → List ElfSym → ℕ → Type 0
NamedAt name syms i = (s : ElfSym) × (get_elem? syms i ≡ some s) × (str_eq s.name name ≡ true)

NamedAt-append :
    (name : Bytes) (xs ys : List ElfSym) (i j : ℕ)
    → j ≡ length xs + i
    → NamedAt name ys i
    → NamedAt name (xs ++ ys) j
NamedAt-append name [] ys i j e h = let same : j ≡ i = omega arith in rw same h
NamedAt-append name (x ∷ xs) ys i zero e h = absurd (omega arith)
NamedAt-append name (x ∷ xs) ys i (suc j) e h = NamedAt-append name xs ys i j (omega arith) h

NamedAt-prefix :
    (name : Bytes) (xs ys : List ElfSym) (i : ℕ) → NamedAt name xs i → NamedAt name (xs ++ ys) i
NamedAt-prefix name [] ys i (s, g, e) = absurd cc
NamedAt-prefix name (x ∷ xs) ys zero h = h
NamedAt-prefix name (x ∷ xs) ys (suc i) h = NamedAt-prefix name xs ys i h

-- What a loop over `xs` that counts from `base` gives.
abbrev Answer : Bytes → List ElfSym → ℕ → ℕ → Type 0
Answer name xs base n =
    ((n ≡ 0) × (found name xs ≡ false)) ⊎ ((i : ℕ) × (n ≡ base + i) × NamedAt name xs i)

Answer-later :
    (name : Bytes) (s : ElfSym) (xs : List ElfSym) (base n m : ℕ)
    → n ≡ m
    → str_eq s.name name ≡ false
    → Answer name xs (base + 1) m
    → Answer name (s ∷ xs) base n
Answer-later name s xs base n m at differs (inl (e, absent)) = inl (at ∙ e, rw differs absent)
Answer-later name s xs base n m at differs (inr (i, e, named)) = inr (suc i, omega arith, named)

local_index-Answer :
    (name : Bytes) (syms : List ElfSym) (sym_num : ℕ)
    → Answer name (locals syms) sym_num (local_index name syms sym_num)
unfolding local_index
local_index-Answer name [] sym_num = inl (refl, refl)
local_index-Answer name (s ∷ syms) sym_num = elim (Bool-cases (is_local s)) [
  | inr other ↦ rw (other, local_index, locals) (local_index-Answer name syms sym_num)
  | inl near ↦
      rw (near, local_index, locals)
        (elim (Bool-cases (str_eq s.name name)) [
          | inl same ↦ rw same (inr (0, omega arith, (s, refl, same)))
          | inr differs ↦
              Answer-later name s (locals syms) sym_num _ (local_index name syms (sym_num + 1))
                (rw differs refl) differs (local_index-Answer name syms (sym_num + 1))
        ])
]

global_index-Answer :
    (name : Bytes) (syms : List ElfSym) (sym_num : ℕ)
    → Answer name (others syms) sym_num (global_index name syms sym_num)
unfolding global_index
global_index-Answer name [] sym_num = inl (refl, refl)
global_index-Answer name (s ∷ syms) sym_num = elim (Bool-cases (is_local s)) [
  | inl near ↦ rw (near, global_index, others) (global_index-Answer name syms sym_num)
  | inr other ↦
      rw (other, global_index, others)
        (elim (Bool-cases (str_eq s.name name)) [
          | inl same ↦ rw same (inr (0, omega arith, (s, refl, same)))
          | inr differs ↦
              Answer-later name s (others syms) sym_num _ (global_index name syms (sym_num + 1))
                (rw differs refl) differs (global_index-Answer name syms (sym_num + 1))
        ])
]

found-split :
    (name : Bytes) (syms : List ElfSym)
    → found name (locals syms) ≡ false
    → found name (others syms) ≡ false
    → found name syms ≡ false
found-split name [] h k = refl
found-split name (s ∷ syms) h k = elim (Bool-cases (is_local s)) [
  | inl near ↦
      let h' = rw (near, locals) at h in
      let k' = rw (near, others) at k in
      elim (Bool-cases (str_eq s.name name)) [
        | inl same ↦ let clash = rw same at h' in absurd cc
        | inr differs ↦ rw differs (found-split name syms (rw differs at h') k')
      ]
  | inr other ↦
      let h' = rw (other, locals) at h in
      let k' = rw (other, others) at k in
      elim (Bool-cases (str_eq s.name name)) [
        | inl same ↦ let clash = rw same at k' in absurd cc
        | inr differs ↦ rw differs (found-split name syms h' (rw differs at k'))
      ]
]

found-append :
    (name : Bytes) (xs ys : List ElfSym) → found name (xs ++ ys) ≡ found name xs || found name ys
found-append name [] ys = refl
found-append name (x ∷ xs) ys = rw (found-append name xs ys) (ground arith)

-- A name that a symbol has is the name of the symbol at the index.
symbol_index-named :
    (syms : List ElfSym) (name : Bytes)
    → found name syms ≡ true
    → (i : ℕ) × (symbol_index syms name ≡ suc i) × NamedAt name (locals syms ++ others syms) i
unfolding symbol_index
symbol_index-named syms name h = elim (local_index-Answer name syms 1) [
  | inr (i, e, named) ↦ (
    i,
    rw (e, symbol_index) (ground arith),
    NamedAt-prefix name (locals syms) (others syms) i named,
  )
  | inl (e, absent) ↦ elim (global_index-Answer name syms (length (locals syms) + 1)) [
    | inl (e', absent') ↦ let clash = found-split name syms absent absent' in absurd cc
    | inr (i, e', named) ↦ (
      length (locals syms) + i,
      rw (e, symbol_index) (e' ∙ omega arith),
      NamedAt-append name (locals syms) (others syms) i _ refl named,
    )
  ]
]

-- The symbols that are there stay found, and each relocation's name is found in the end.
add_undefined-kept :
    (rels : List ElfReloc) (syms : List ElfSym) (name : Bytes)
    → found name syms ≡ true
    → found name (add_undefined rels syms) ≡ true
unfolding add_undefined
add_undefined-kept [] syms name h = h
add_undefined-kept (r ∷ rels) syms name h =
    add_undefined-kept rels _ name (elim (Bool-cases (found r.sym_name syms)) [
      | inl there ↦ rw there h
      | inr new ↦ rw new (found-append name syms _ ∙ rw h refl)
    ])

add_undefined-found :
    (rels : List ElfReloc) (syms : List ElfSym) (k : ℕ) (r : ElfReloc)
    → get_elem? rels k ≡ some r
    → found r.sym_name (add_undefined rels syms) ≡ true
unfolding add_undefined
add_undefined-found [] syms k r g = absurd cc
add_undefined-found (q ∷ rels) syms (suc k) r g = add_undefined-found rels _ k r g
add_undefined-found (q ∷ rels) syms zero r g =
    let same : q ≡ r = some_injective g in
    add_undefined-kept rels _ r.sym_name (
      rw same (elim (Bool-cases (found r.sym_name syms)) [
        | inl there ↦ rw there there
        | inr new ↦
            rw new (found-append r.sym_name syms _ ∙ rw (str_eq_refl r.sym_name) (ground arith))
      ]))

-- Once the undefined symbols are there, every relocation gets the index of a symbol of its name.
pub relocation-named :
    (rels : List ElfReloc) (syms : List ElfSym) (k : ℕ) (r : ElfReloc)
    → get_elem? rels k ≡ some r
    → (i : ℕ) × (symbol_index (add_undefined rels syms) r.sym_name ≡ suc i)
      × NamedAt r.sym_name (locals (add_undefined rels syms) ++ others (add_undefined rels syms)) i
relocation-named rels syms k r g =
    symbol_index-named (add_undefined rels syms) r.sym_name (add_undefined-found rels syms k r g)
