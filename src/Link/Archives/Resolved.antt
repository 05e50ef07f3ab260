-- ===== src/Link/Archives/Resolved.antt =====
-- The loop of elf_link_static of src/linker.c around resolve_pass.
use b1cc.Common.{
  ℕ, zero, suc, ◌+◌, ◌<◌, ◌≡◌, ◌≢◌, ◌==◌, refl, sym, ap, ◌∙◌, Bool, true, false, none, some,
  some_injective, List, [], ◌∷◌, arith, inl, inr, All, length, get_elem?, Bytes,
}
use b1cc.Common.Int.{ℤ}
use b1cc.HashMap.{hashmap_init, hashmap_get}
use b1cc.HashMap.Resize.{hashmap_init-Models}
use b1cc.Link.{Sym, Obj, Linker}
use b1cc.Link.Parse.{Parsed, parsed, fatal, unread}
use b1cc.Link.Parse.Inverse.{parsed_injective, Parsed-cases}
use b1cc.Link.Archives.{Archive, Search, offers, resolve_pass, resolve_loop, resolve}
use b1cc.Link.Archives.Offers.{remaining, remaining-offers}
use b1cc.Link.Archives.Steps.{Ready}
use b1cc.Link.Archives.Pass.{Settled, Provided, Outcome}
use b1cc.Link.Archives.Objects.{SettledFrom, objs_step}

-- No member is parsed yet.
abbrev IsLoaded : Archive → Type 0
IsLoaded ar = ar.done ≡ hashmap_init 256

IsLoaded-Ready : (lk : Linker) (ar : Archive) → IsLoaded ar → Ready lk ar
IsLoaded-Ready lk ar e = record {
  cache = λ q. none;
  stored = rw e (hashmap_init-Models 256 (omega arith));
  inside = λ q m h. absurd cc;
}

All-Ready : (lk : Linker) (ars : List Archive) → All IsLoaded ars → All (Ready lk) ars
All-Ready lk [] h = tt
All-Ready lk (ar ∷ ars) (e, h) = (IsLoaded-Ready lk ar e, All-Ready lk ars h)

branch-false : {A : Type 0} (b : Bool) (x y : A) → b ≡ false → elim b [ true ↦ x | false ↦ y ] ≡ y
branch-false false x y e = refl
branch-false true x y e = absurd cc

named-length : (name : Bytes) → name ≢ [] → length name == 0 ≡ false
named-length [] h = absurd (h refl)
named-length (c ∷ s) h = ground arith

module _ (strtol : Bytes → ℤ) (decimal : ℕ → Bytes) where
  abbrev Start : Linker → List Archive → Search
  Start lk ars = record { linker = lk; archives = ars; progress = false }

  pass_step :
      (lk : Linker) (ars : List Archive)
      → All (Ready lk) ars
      → (r : Parsed Search) × (resolve_pass strtol decimal lk ars ≡ some r)
        × ((s : Search)
            → r ≡ parsed s
            → Outcome strtol decimal (SettledFrom strtol decimal 0 (Start lk ars)) (Start lk ars) s)
  unfolding resolve_pass
  pass_step lk ars h =
      let le = remaining-offers decimal ars in
      objs_step strtol decimal (length lk.objs + offers ars) 0 (Start lk ars) h (omega arith)

  -- With fuel for the entries that are left, the loop ends, and then all symbols are settled.
  loop_step :
      (n : ℕ) (lk : Linker) (ars : List Archive)
      → All (Ready lk) ars
      → remaining decimal ars < n
      → (r : Parsed Search) × (resolve_loop strtol decimal n lk ars ≡ some r)
        × ((s : Search) → r ≡ parsed s → SettledFrom strtol decimal 0 s)
  unfolding resolve_loop
  loop_step zero lk ars h fuel = absurd (omega arith)
  loop_step (suc n) lk ars h fuel =
      let (r, run, outcome) = pass_step lk ars h in
      elim (Parsed-cases r) [
        | inr (inl bad) ↦ (fatal, rw (run, resolve_loop) (rw bad refl), λ s e. absurd cc)
        | inr (inr bad) ↦ (unread, rw (run, resolve_loop) (rw bad refl), λ s e. absurd cc)
        | inl (s, good) ↦ elim (outcome s good) [
          | inl (same, settled) ↦
              let stop : s.progress ≡ false = ap (λ x. x.progress) same in
              (
                parsed s,
                rw (run, resolve_loop) (rw good (branch-false s.progress _ _ stop)),
                λ s' e. rw (sym (parsed_injective e)) (rw same settled),
              )
          | inr (moved, a) ↦
              let less = a.less in
              let (r', run', settled) = loop_step n s.linker s.archives a.ready (omega arith) in
              (r', rw (run, resolve_loop) (rw good (rw moved run')), settled)
        ]
      ]

  module _ (lk : Linker) (ars : List Archive) (loaded : All IsLoaded ars) where
    -- With archives of which no member is parsed yet, the passes come to an end, whatever the
    -- objects and the archives are.
    pub resolve-returns : (r : Parsed Search) × (resolve strtol decimal lk ars ≡ some r)
    unfolding resolve
    resolve-returns =
        let le = remaining-offers decimal ars in
        let (r, run, settled) =
          loop_step (suc (offers ars)) lk ars (All-Ready lk ars loaded) (omega arith) in
        (r, run)

    resolve-Settled :
        (s : Search) (i o : ℕ) (obj : Obj) (j : ℕ) (y : Sym)
        → resolve strtol decimal lk ars ≡ some (parsed s)
        → get_elem? s.linker.objs i ≡ some o
        → get_elem? s.linker.heap o ≡ some obj
        → get_elem? obj.syms j ≡ some y
        → Settled strtol decimal s y
    unfolding resolve
    resolve-Settled s i o obj j y h at there sy =
        let le = remaining-offers decimal ars in
        let (r, run, settled) =
          loop_step (suc (offers ars)) lk ars (All-Ready lk ars loaded) (omega arith) in
        let e : r ≡ parsed s = some_injective (sym run ∙ h) in
        pick obj.syms j y (settled s e i o obj (omega arith) at there) sy
      where
        pick :
            (syms : List Sym) (j : ℕ) (y : Sym)
            → All (Settled strtol decimal s) syms
            → get_elem? syms j ≡ some y
            → Settled strtol decimal s y
        pick [] j y h e = absurd cc
        pick (z ∷ syms) zero y (p, h) e = let same : z ≡ y = some_injective e in rw (← same) p
        pick (z ∷ syms) (suc j) y (p, h) e = pick syms j y h e

    -- Where no member is parsed yet and the passes end without an error, each symbol of an object
    -- that is included then, whose section is 0, whose binding is not local, which has a name, and
    -- for whose name there is no global definition: no archive has its name, or the first archive
    -- that has it has given the member, which is included.
    pub resolve-Provided :
        (s : Search) (i o : ℕ) (obj : Obj) (j : ℕ) (y : Sym)
        → resolve strtol decimal lk ars ≡ some (parsed s)
        → get_elem? s.linker.objs i ≡ some o
        → get_elem? s.linker.heap o ≡ some obj
        → get_elem? obj.syms j ≡ some y
        → y.shndx ≡ 0
        → y.bind ≢ 0
        → y.name ≢ []
        → hashmap_get s.linker.globals y.name ≡ none
        → Provided strtol decimal s.linker y.name s.archives
    resolve-Provided s i o obj j y h at there sy undefined global named missing =
        elim (resolve-Settled s i o obj j y h at there sy) [
          | inr provided ↦ provided
          | inl satisfied ↦
              let has_name : length y.name == 0 ≡ false = named-length y.name named in
              let outside : y.shndx == 0 ≡ true = ground arith in
              let not_local : y.bind == 0 ≡ false = ground arith in
              let clash =
                rw missing at (rw has_name at (rw not_local at (rw outside at satisfied))) in
              absurd cc
        ]
