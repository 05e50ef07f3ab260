-- ===== src/Link/Winner.antt =====
-- The definition that wins a name: the first strong one, and the first of all where none is strong.
use mathlib.Core.Path.{subst}
use b1cc.Common.{
  ℕ, Bool, ◌+◌, ◌≡◌, refl, sym, ap, ◌∙◌, true, false, ◌&&◌, ◌||◌, not, All, Option, none, some,
  List, [], ◌∷◌, ◌++◌, inl, inr, Bool-cases, ◌==◌, if◌then◌else◌, arith, length, get_elem?, set,
  Bytes, str_eq,
}
use b1cc.Link.{
  Sym, Obj, GlobalDef, Linker, Globals, stb_global, is_weak, is_empty, is_definition,
  include_object,
}
use b1cc.Link.Resolve.{choose, Dictionary, with_symbol, with_symbols, Holds, register_loop-Holds}

-- A definition of a name, with its binding.
abbrev pub Candidate : Type 0
Candidate = ℕ × GlobalDef

-- A symbol defines its name if it is not local (binding 0), not undefined (section 0), and has a name.
abbrev pub defines : Sym → Bool
defines y = not (y.bind == 0 || y.shndx == 0 || length y.name == 0)

is_empty-length : (name : Bytes) → is_empty name ≡ (length name == 0)
unfolding is_empty
is_empty-length [] = refl
is_empty-length (c ∷ s) = ground arith

is_definition-defines : (y : Sym) → is_definition y ≡ defines y
unfolding is_definition
is_definition-defines y =
    rw (is_empty-length y.name) (rearrange (y.bind == 0) (y.shndx == 0) (length y.name == 0))
  where
    rearrange : (a b c : Bool) → not a && not b && not c ≡ not (a || b || c)
    rearrange true b c = refl
    rearrange false true c = refl
    rearrange false false c = refl

abbrev pub candidates : ℕ → List Sym → ℕ → Bytes → List Candidate
candidates o [] i q = []
candidates o (y ∷ syms) i q =
    if defines y && str_eq y.name q
    then (y.bind, record { obj = o; symidx = i }) ∷ candidates o syms (i + 1) q
    else candidates o syms (i + 1) q

-- The first strong definition, and the first of all where none is strong.
abbrev first_strong : List Candidate → Option GlobalDef
first_strong [] = none
first_strong ((bind, g) ∷ cs) = if bind == stb_global then some g else first_strong cs

abbrev pub or_else : Option GlobalDef → Option GlobalDef → Option GlobalDef
or_else none b = b
or_else (some a) b = some a

abbrev pub first : List Candidate → Option GlobalDef
first [] = none
first ((bind, g) ∷ cs) = some g

abbrev pub winner : List Candidate → Option GlobalDef
winner cs = or_else (first_strong cs) (first cs)

-- The binding is global or weak, and it is that of the symbol in the objects.
abbrev pub Agrees : List Obj → Candidate → Type 0
Agrees heap (bind, g) = is_weak heap g ≡ not (bind == stb_global)

settle : List Obj → Option GlobalDef → List Candidate → Option GlobalDef
settle heap d [] = d
settle heap d ((bind, g) ∷ cs) = settle heap (some (choose heap bind d g)) cs

choose-strong :
    (heap : List Obj) (bind : ℕ) (d g : GlobalDef)
    → is_weak heap d ≡ false
    → choose heap bind (some d) g ≡ d
choose-strong heap bind d g strong = elim (Bool-cases (bind == stb_global)) [
  | inl b ↦ rw (b, choose) (rw strong)
  | inr b ↦ rw (b, choose)
]

settle-strong :
    (heap : List Obj) (d : GlobalDef) (cs : List Candidate)
    → is_weak heap d ≡ false
    → settle heap (some d) cs ≡ some d
unfolding settle
settle-strong heap d [] strong = refl
settle-strong heap d ((bind, g) ∷ cs) strong =
    ap (λ z. settle heap (some z) cs) (choose-strong heap bind d g strong)
    ∙ settle-strong heap d cs strong

settle-weak :
    (heap : List Obj) (d : GlobalDef) (cs : List Candidate)
    → is_weak heap d ≡ true
    → All (Agrees heap) cs
    → settle heap (some d) cs ≡ or_else (first_strong cs) (some d)
unfolding settle
settle-weak heap d [] weak h = refl
settle-weak heap d ((bind, g) ∷ cs) weak (e, h) = elim (Bool-cases (bind == stb_global)) [
  | inl strong ↦
      rw (strong, choose, first_strong) (rw weak (settle-strong heap g cs (rw strong at e)))
  | inr other ↦ rw (other, choose, first_strong) (settle-weak heap d cs weak h)
]

settle-winner :
    (heap : List Obj) (cs : List Candidate) → All (Agrees heap) cs → settle heap none cs ≡ winner cs
unfolding settle
settle-winner heap [] h = refl
settle-winner heap ((bind, g) ∷ cs) (e, h) = elim (Bool-cases (bind == stb_global)) [
  | inl strong ↦ rw (strong, first_strong) (settle-strong heap g cs (rw strong at e))
  | inr other ↦ rw (other, first_strong) (settle-weak heap g cs (rw other at e) h)
]

settle-append :
    (heap : List Obj) (d : Option GlobalDef) (cs ds : List Candidate)
    → settle heap d (cs ++ ds) ≡ settle heap (settle heap d cs) ds
unfolding settle
settle-append heap d [] ds = refl
settle-append heap d ((bind, g) ∷ cs) ds = settle-append heap (some (choose heap bind d g)) cs ds

with_symbols-settle :
    (heap : List Obj) (o : ℕ) (syms : List Sym) (i : ℕ) (f : Dictionary) (q : Bytes)
    → with_symbols heap o syms i f q ≡ settle heap (f q) (candidates o syms i q)
unfolding settle
with_symbols-settle heap o [] i f q = refl
with_symbols-settle heap o (y ∷ syms) i f q =
    let g : GlobalDef = record { obj = o; symidx = i } in
    let ih = with_symbols-settle heap o syms (i + 1) (with_symbol heap g y f) q in
    let same = is_definition-defines y in
    elim (Bool-cases (defines y && str_eq y.name q)) [
      | inl here ↦ ih ∙ rw (same, with_symbol) (rw (here, candidates))
      | inr other ↦ ih ∙ rw (same, with_symbol) (rw (other, candidates))
    ]

All-append_left : {A : Type 0} (P : A → Type 0) (xs ys : List A) → All P (xs ++ ys) → All P xs
All-append_left P [] ys h = tt
All-append_left P (x ∷ xs) ys (p, h) = (p, All-append_left P xs ys h)

abbrev pub globals_of : Linker → Globals
globals_of lk = record { map = lk.globals; defs = lk.defs }

abbrev pub mark_included : List Obj → ℕ → Obj → List Obj
mark_included heap o obj = set heap o (record obj { included = true })

-- A linker whose names stand for the winners of the definitions so far includes one more object:
-- include_object succeeds, the object is appended to the list, and every name stands for the
-- winner of all definitions, those of the object behind the others: the first strong one, and the
-- first of all where none is strong. The definitions are global or weak.
pub include_object-winner :
    (lk : Linker) (o : ℕ) (obj : Obj) (cs : Bytes → List Candidate)
    → Holds (globals_of lk) (λ q. winner (cs q))
    → get_elem? lk.heap o ≡ some obj
    → obj.included ≡ false
    → ((q : Bytes) → All (Agrees (mark_included lk.heap o obj)) (cs q ++ candidates o obj.syms 0 q))
    → (lk' : Linker) × (include_object lk o ≡ some lk')
      × Holds (globals_of lk') (λ q. winner (cs q ++ candidates o obj.syms 0 q))
      × (lk'.objs ≡ lk.objs ++ o ∷ [])
unfolding include_object
include_object-winner lk o obj cs w there fresh agree =
    let heap = mark_included lk.heap o obj in
    let (t', run, w') =
      register_loop-Holds heap o obj.syms 0 (globals_of lk) (λ q. winner (cs q)) w in
    let same : (q : Bytes)
        → with_symbols heap o obj.syms 0 (λ q'. winner (cs q')) q
          ≡ winner (cs q ++ candidates o obj.syms 0 q) =
      λ q.
        with_symbols-settle heap o obj.syms 0 (λ q'. winner (cs q')) q
        ∙ ap (λ z. settle heap z (candidates o obj.syms 0 q))
            (sym (settle-winner heap (cs q) (All-append_left _ (cs q) _ (agree q))))
        ∙ sym (settle-append heap none (cs q) (candidates o obj.syms 0 q))
        ∙ settle-winner heap (cs q ++ candidates o obj.syms 0 q) (agree q) in
    (
      record lk { heap = heap; objs = lk.objs ++ o ∷ []; globals = t'.map; defs = t'.defs },
      rw (there, include_object) (rw (fresh, include_object) (rw run)),
      subst (Holds t') (λ i q. same q i) w',
      refl,
    )
