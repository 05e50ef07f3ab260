-- ===== src/Link/Resolve.antt =====
-- What include_object makes of the global names: each name stands for one definition, and a later
-- strong definition takes the place of a weak one.
use mathlib.Core.Path.{subst}
use b1cc.Common.{some_injective, Option-cases}
use b1cc.Common.{
  ℕ, ◌+◌, ◌≡◌, ◌≢◌, ◌⊎◌, refl, sym, ap, ◌∙◌, true, false, ◌&&◌, Option, none, some, List, [], ◌∷◌,
  ◌++◌, arith, inl, inr, Bool-cases, ◌==◌, if◌then◌else◌, length, get_elem?, set, Bytes, str_eq,
  str_eq_iff,
}
use b1cc.HashMap.{HashMap}
use b1cc.HashMap.Resize.{Models}
use b1cc.HashMap.Laws.{hashmap_get-Models, hashmap_put-Models}
use b1cc.Link.{
  Sym, Obj, GlobalDef, Globals, stb_global, is_weak, is_definition, register_symbol, register_loop,
}
use b1cc.Link.Places.{
  get-append_old, get-append_new, get-length, get-set_same, get-set_other, set-same,
}

-- The definition that a name keeps when another one with the binding `bind` comes.
abbrev pub choose : List Obj → ℕ → Option GlobalDef → GlobalDef → GlobalDef
choose heap bind none g = g
choose heap bind (some d) g = if bind == stb_global && is_weak heap d then g else d

abbrev pub Dictionary : Type 0
Dictionary = Bytes → Option GlobalDef

abbrev pub with_symbol : List Obj → GlobalDef → Sym → Dictionary → Dictionary
with_symbol heap g y f q =
    if is_definition y && str_eq y.name q then some (choose heap y.bind (f q) g) else f q

abbrev pub with_symbols : List Obj → ℕ → List Sym → ℕ → Dictionary → Dictionary
with_symbols heap o [] i f = f
with_symbols heap o (y ∷ syms) i f =
    with_symbols heap o syms (i + 1) (with_symbol heap (record { obj = o; symidx = i }) y f)

-- The hash map and the definitions stand for a dictionary: each name has a place of its own in
-- the definitions.
pub record Holds (t : Globals) (f : Dictionary) : Type 0 where
  pub place : Bytes → Option ℕ
  pub stored : Models place t.map
  pub points :
      (q : Bytes) (d : ℕ)
      → place q ≡ some d
      → (x : GlobalDef) × (get_elem? t.defs d ≡ some x) × (f q ≡ some x)
  pub absent : (q : Bytes) → place q ≡ none → f q ≡ none
  pub apart : (q q' : Bytes) (d : ℕ) → place q ≡ some d → place q' ≡ some d → q ≡ q'

module _ (heap : List Obj) (g : GlobalDef) (y : Sym) (f : Dictionary) where
  with_symbol-passed : is_definition y ≡ false → with_symbol heap g y f ≡ f
  with_symbol-passed pass = λ i q. (go q) i
    where
      go : (q : Bytes) → with_symbol heap g y f q ≡ f q
      go q = rw (pass, with_symbol)

  with_symbol-here :
      (q : Bytes)
      → is_definition y ≡ true
      → str_eq y.name q ≡ true
      → with_symbol heap g y f q ≡ some (choose heap y.bind (f q) g)
  with_symbol-here q defines here = rw (defines, with_symbol) (rw here)

  with_symbol-other : (q : Bytes) → str_eq y.name q ≡ false → with_symbol heap g y f q ≡ f q
  with_symbol-other q other = elim (Bool-cases (is_definition y)) [
    | inl defines ↦ rw (defines, with_symbol) (rw other)
    | inr pass ↦ rw (pass, with_symbol)
  ]

module _ (t : Globals) (f : Dictionary) (w : Holds t f) (heap : List Obj) (g : GlobalDef)
    (y : Sym) where
  -- A name that is not there yet gets the next place.
  abbrev next_place : Bytes → Option ℕ
  next_place q = if str_eq y.name q then some (length t.defs) else w.place q

  next_place-cases :
      (q : Bytes) (d : ℕ)
      → next_place q ≡ some d
      → ((str_eq y.name q ≡ true) × (d ≡ length t.defs))
        ⊎ ((str_eq y.name q ≡ false) × (w.place q ≡ some d))
  next_place-cases q d h = elim (Bool-cases (str_eq y.name q)) [
    | inl here ↦ inl (here, sym (some_injective (rw here at h)))
    | inr other ↦ inr (other, rw other at h)
  ]

  not_past : (q : Bytes) → w.place q ≢ some (length t.defs)
  not_past q h =
      let (x, at, _) = w.points q (length t.defs) h in
      let lt = get-length t.defs x (length t.defs) at in omega arith

  named : (q : Bytes) → str_eq y.name q ≡ true → y.name ≡ q
  named q here = (str_eq_iff y.name q).0 here

  clash : {q : Bytes} → y.name ≡ q → str_eq y.name q ≡ false → ⊥
  clash {q} e other = let yes = (str_eq_iff y.name q).1 e in cc

  new-Holds :
      (r : HashMap ℕ)
      → is_definition y ≡ true
      → w.place y.name ≡ none
      → Models next_place r
      → Holds (record { map = r; defs = t.defs ++ g ∷ [] }) (with_symbol heap g y f)
  new-Holds r defines fresh m = record {
    place = next_place;
    stored = m;
    points = λ q d h. elim (next_place-cases q d h) [
      | inl (here, last) ↦
          let value : f q ≡ none = subst (λ z. f z ≡ none) (named q here) (w.absent y.name fresh) in
          (
            g,
            rw last (get-append_new t.defs g),
            with_symbol-here heap g y f q defines here ∙ rw value,
          )
      | inr (other, old) ↦
          let (x, at, value) = w.points q d old in
          (x, get-append_old t.defs g x d at, with_symbol-other heap g y f q other ∙ value)
    ];
    absent = λ q h. elim (Bool-cases (str_eq y.name q)) [
      | inl here ↦ let h' : some (length t.defs) ≡ none = rw here at h in absurd cc
      | inr other ↦ with_symbol-other heap g y f q other ∙ w.absent q (rw other at h)
    ];
    apart = λ q q' d h h'. elim (next_place-cases q d h) [
      | inl (here, last) ↦ elim (next_place-cases q' d h') [
        | inl (here', _) ↦ sym (named q here) ∙ named q' here'
        | inr (_, old) ↦ absurd (not_past q' (old ∙ ap some last))
      ]
      | inr (_, old) ↦ elim (next_place-cases q' d h') [
        | inl (_, last) ↦ absurd (not_past q (old ∙ ap some last))
        | inr (_, old') ↦ w.apart q q' d old old'
      ]
    ];
  }

  -- A name that is there keeps its place; what stands there changes, or not.
  same-Holds :
      (d : ℕ) (x x' : GlobalDef)
      → is_definition y ≡ true
      → w.place y.name ≡ some d
      → f y.name ≡ some x
      → get_elem? t.defs d ≡ some x
      → choose heap y.bind (some x) g ≡ x'
      → Holds (record { map = t.map; defs = set t.defs d x' }) (with_symbol heap g y f)
  same-Holds d x x' defines there old at e = record {
    place = w.place;
    stored = w.stored;
    points = λ q d' h. elim (Bool-cases (str_eq y.name q)) [
      | inl here ↦
          let name = named q here in
          let same : d ≡ d' = some_injective (sym there ∙ ap w.place name ∙ h) in
          let value : f q ≡ some x = subst (λ z. f z ≡ some x) name old in
          (
            x',
            subst (λ k. get_elem? (set t.defs d x') k ≡ some x') same
                (get-set_same t.defs x' x d at),
            with_symbol-here heap g y f q defines here ∙ rw value (ap some e),
          )
      | inr other ↦
          let (z, at', value) = w.points q d' h in
          let differs : d ≢ d' =
            λ k. clash (w.apart y.name q d there (h ∙ ap some (sym k))) other in
          (
            z,
            get-set_other t.defs x' d d' differs ∙ at',
            with_symbol-other heap g y f q other ∙ value,
          )
    ];
    absent = λ q h. elim (Bool-cases (str_eq y.name q)) [
      | inl here ↦ let gone : some d ≡ none = sym there ∙ ap w.place (named q here) ∙ h in absurd cc
      | inr other ↦ with_symbol-other heap g y f q other ∙ w.absent q h
    ];
    apart = w.apart;
  }

  unchanged-Holds :
      (t' : Globals) → t' ≡ t → Holds t' (with_symbol heap g y f) → Holds t (with_symbol heap g y f)
  unchanged-Holds t' e h = subst (λ z. Holds z (with_symbol heap g y f)) e h

  -- One symbol more: the step succeeds.
  register_symbol-Holds :
      (t' : Globals) × (register_symbol heap g y t ≡ some t') × Holds t' (with_symbol heap g y f)
  unfolding register_symbol
  register_symbol-Holds = elim (Bool-cases (is_definition y)) [
    | inr pass ↦ (t, rw (pass, register_symbol), rw (with_symbol-passed heap g y f pass) w)
    | inl defines ↦
        let found = (hashmap_get-Models w.stored y.name).0 in
        elim (Option-cases (w.place y.name)) [
          | inl fresh ↦
              let (r, run, m, _) = hashmap_put-Models w.stored y.name (length t.defs) in
              (
                _,
                rw (defines, register_symbol) (rw (found ∙ fresh) (rw run)),
                new-Holds r defines fresh m,
              )
          | inr (d, there) ↦
              let (x, at, old) = w.points y.name d there in
              elim (Bool-cases (y.bind == stb_global && is_weak heap x)) [
                | inl stronger ↦ (
                  _,
                  rw (defines, register_symbol) (rw (found ∙ there) (rw at (rw stronger))),
                  same-Holds d x g defines there old at (rw stronger),
                )
                | inr weaker ↦ (
                  t,
                  rw (defines, register_symbol) (rw (found ∙ there) (rw at (rw weaker))),
                  unchanged-Holds _ (λ i. record { map = t.map; defs = set-same t.defs x d at i })
                      (same-Holds d x x defines there old at (rw weaker)),
                )
              ]
        ]
  ]

pub register_loop-Holds :
    (heap : List Obj) (o : ℕ) (syms : List Sym) (i : ℕ) (t : Globals) (f : Dictionary)
    → Holds t f
    → (t' : Globals) × (register_loop heap o syms i t ≡ some t')
      × Holds t' (with_symbols heap o syms i f)
unfolding register_loop
register_loop-Holds heap o [] i t f w = (t, refl, w)
register_loop-Holds heap o (y ∷ syms) i t f w =
    let g : GlobalDef = record { obj = o; symidx = i } in
    let (t', run, w') = register_symbol-Holds t f w heap g y in
    let (t'', run', w'') = register_loop-Holds heap o syms (i + 1) t' (with_symbol heap g y f) w' in
    (t'', rw (run, register_loop) run', w'')
