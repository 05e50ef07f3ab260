-- ===== src/Link/Archives/Pass.antt =====
-- The undefined symbols of one object, src/linker.c: nothing changes, or members are pulled in.
use b1cc.Common.{
  ℕ, zero, suc, some_injective, ◌-◌, ◌==◌, ◌+◌, ◌≤◌, ◌<◌, ◌≡◌, ◌⊎◌, refl, sym, ap, ◌∙◌, Bool, true,
  false, ◌||◌, none, some, List, [], ◌∷◌, arith, inl, inr, Bool-cases, Option-cases, All, length,
  Bytes,
}
use b1cc.Common.Int.{ℤ}
use b1cc.HashMap.{hashmap_get}
use b1cc.Link.{Sym, Linker}
use b1cc.Link.Parse.{parsed}
use b1cc.Link.Parse.Inverse.{bind-parsed, parsed_injective}
use b1cc.Link.Archives.{
  Archive, Search, is_wanted, member_of, room, offers, search_archives, resolve_symbol,
  resolve_symbols,
}
use b1cc.Link.Archives.Offers.{remaining}
use b1cc.Link.Archives.Steps.{Ready, Grows, Ready-Grows, Pulled, Pull, member_step}

-- What the entry of the name is where the archive does not offer it, and where it does.
member_of-none :
    (ar : Archive) (name : Bytes)
    → member_of ar name ≡ none
    → (hashmap_get ar.symmap name ≡ none) ⊎ (hashmap_get ar.symmap name ≡ some 0)
unfolding member_of
member_of-none ar name h = elim (Option-cases (hashmap_get ar.symmap name)) [
  | inl missing ↦ inl missing
  | inr (zero, there) ↦ inr there
  | inr (suc v, there) ↦ let clash = rw (there, member_of) at h in absurd (ground arith)
]

member_of-some :
    (ar : Archive) (name : Bytes) (off : ℕ)
    → member_of ar name ≡ some off
    → hashmap_get ar.symmap name ≡ some (suc off)
unfolding member_of
member_of-some ar name off h = elim (Option-cases (hashmap_get ar.symmap name)) [
  | inl missing ↦ let clash = rw (missing, member_of) at h in absurd cc
  | inr (zero, there) ↦ let clash = rw (there, member_of) at h in absurd cc
  | inr (suc v, there) ↦
      let nonzero : suc v == 0 ≡ false = ground arith in
      let offset : suc v - 1 ≡ off = some_injective (rw nonzero at (rw (there, member_of) at h)) in
      there ∙ ap some (omega arith)
]

module _ (strtol : Bytes → ℤ) (decimal : ℕ → Bytes) where
  -- No archive has the name, or the first one that has it has given its member.
  pub data Provided (lk : Linker) (name : Bytes) : List Archive → Type 0 where
    nowhere : Provided lk name []
    skipped :
        {ar : Archive} {ars : List Archive}
        → (hashmap_get ar.symmap name ≡ none) ⊎ (hashmap_get ar.symmap name ≡ some 0)
        → Provided lk name ars
        → Provided lk name (ar ∷ ars)
    pulled :
        {ar : Archive} {ars : List Archive} {off : ℕ}
        → hashmap_get ar.symmap name ≡ some (suc off)
        → Pulled strtol decimal lk ar off
        → Provided lk name (ar ∷ ars)

  -- What holds of the state where members were pulled in.
  pub record Advance (lk : Linker) (ars : List Archive) (s : Search) : Type 0 where
    pub ready : All (Ready s.linker) s.archives
    pub grows : Grows lk s.linker
    pub same : offers s.archives ≡ offers ars
    pub less : remaining decimal s.archives < remaining decimal ars
    pub bound :
        length s.linker.objs + remaining decimal s.archives ≤ length lk.objs + remaining decimal ars

  All-Grows :
      (lk lk' : Linker) (ars : List Archive)
      → Grows lk lk'
      → All (Ready lk) ars
      → All (Ready lk') ars
  All-Grows lk lk' [] grow h = tt
  All-Grows lk lk' (ar ∷ ars) grow (r, h) = (Ready-Grows ar grow r, All-Grows lk lk' ars grow h)

  Advance-first :
      (lk : Linker) (ar ar' : Archive) (ars : List Archive) (s : Search)
      → All (Ready lk) ars
      → s.archives ≡ ar' ∷ ars
      → Pull strtol decimal lk ar s.linker ar'
      → Advance lk (ar ∷ ars) s
  Advance-first lk ar ar' ars s h e p = record {
    ready = rw e (p.ready, All-Grows lk s.linker ars p.grows h);
    grows = p.grows;
    same = rw e (rw p.symmap refl);
    less = rw e (let less = p.less in omega arith);
    bound = rw e (let less = p.less in let more = p.more in omega arith);
  }

  Advance-later :
      (lk : Linker) (ar : Archive) (ars : List Archive) (s : Search)
      → Ready lk ar
      → Advance lk ars s
      → Advance lk (ar ∷ ars) (record s { archives = ar ∷ s.archives })
  Advance-later lk ar ars s r a = record {
    ready = (Ready-Grows ar a.grows r, a.ready);
    grows = a.grows;
    same = ap (λ n. room ar.symmap + n) a.same;
    less = let less = a.less in omega arith;
    bound = let bound = a.bound in omega arith;
  }

  search_step :
      (name : Bytes) (lk : Linker) (ars : List Archive) (s : Search)
      → All (Ready lk) ars
      → search_archives strtol decimal name lk ars ≡ parsed s
      → ((s ≡ record { linker = lk; archives = ars; progress = false }) × Provided lk name ars)
        ⊎ ((s.progress ≡ true) × Advance lk ars s)
  unfolding search_archives
  search_step name lk [] s h run = inl (sym (parsed_injective run), nowhere)
  search_step name lk (ar ∷ ars) s (r, h) run = elim (Option-cases (member_of ar name)) [
    | inl missing ↦
        let (s', run', step) =
          bind-parsed (search_archives strtol decimal name lk ars) _
            (rw (missing, search_archives) at run) in
        let is : record s' { archives = ar ∷ s'.archives } ≡ s = parsed_injective step in
        elim (search_step name lk ars s' h run') [
          | inl (same, provided) ↦ inl (
            sym is
                ∙ ap {A = Search} {B = Search} (λ x. record x { archives = ar ∷ x.archives }) same,
            skipped (member_of-none _ name missing) provided,
          )
          | inr (moved, a) ↦
              inr
                (ap (λ x. x.progress) (sym is) ∙ moved, rw (← is) (Advance-later lk ar ars s' r a))
        ]
    | inr (off, offered) ↦
        elim (member_step strtol decimal lk ar ars name off s r offered
          (rw (offered, search_archives) at run)) [
            | inl (same, there) ↦ inl (same, pulled (member_of-some _ name _ offered) there)
            | inr (moved, (ar', e, p)) ↦ inr (moved, Advance-first lk ar ar' ars s h e p)
          ]
  ]

  -- Nothing changes and `Q` holds, or members were pulled in.
  abbrev pub Outcome : Type 0 → Search → Search → Type 0
  Outcome Q st s = ((s ≡ st) × Q) ⊎ ((s.progress ≡ true) × Advance st.linker st.archives s)

  -- The symbol needs nothing, or the archives have given what they have.
  abbrev pub Settled : Search → Sym → Type 0
  Settled st y = (is_wanted st.linker y ≡ false) ⊎ Provided st.linker y.name st.archives

  or-true : (b : Bool) → b || true ≡ true
  or-true true = refl
  or-true false = refl

  or-false : (b : Bool) → b || false ≡ b
  or-false true = refl
  or-false false = refl

  symbol_step :
      (y : Sym) (st s : Search)
      → All (Ready st.linker) st.archives
      → resolve_symbol strtol decimal y st ≡ parsed s
      → Outcome (Settled st y) st s
  unfolding resolve_symbol
  symbol_step y st s h run = elim (Bool-cases (is_wanted st.linker y)) [
    | inr satisfied ↦
        inl (sym (parsed_injective (rw (satisfied, resolve_symbol) at run)), inl satisfied)
    | inl wanted ↦
        let (s', run', step) =
          bind-parsed (search_archives strtol decimal y.name st.linker st.archives) _
            (rw (wanted, resolve_symbol) at run) in
        let is : record s' { progress = st.progress || s'.progress } ≡ s = parsed_injective step in
        elim (search_step y.name st.linker st.archives s' h run') [
          | inl (same, provided) ↦ inl (
            sym is
                ∙ ap {A = Search} {B = Search}
                    (λ x. record x { progress = st.progress || x.progress }) same
                ∙ (λ i. record st { progress = or-false st.progress i }),
            inr provided,
          )
          | inr (moved, a) ↦ inr (
            ap (λ x. x.progress) (sym is) ∙ rw moved (or-true st.progress),
            rw (← is) (record {
              ready = a.ready;
              grows = a.grows;
              same = a.same;
              less = a.less;
              bound = a.bound;
            }),
          )
        ]
  ]

  Advance-trans :
      (st s s' : Search)
      → Advance st.linker st.archives s
      → Advance s.linker s.archives s'
      → Advance st.linker st.archives s'
  Advance-trans st s s' a b = record {
    ready = b.ready;
    grows = λ m h. b.grows m (a.grows m h);
    same = b.same ∙ a.same;
    less = let less = a.less in let less' = b.less in omega arith;
    bound = let bound = a.bound in let bound' = b.bound in omega arith;
  }

  -- Two steps behind one another.
  pub Outcome-then :
      (P Q R : Type 0) (st s s' : Search)
      → Outcome P st s
      → Outcome Q s s'
      → (P → Q → s ≡ st → R)
      → Outcome R st s'
  Outcome-then P Q R st s s' (inl (e, p)) (inl (e', q)) both = inl (e' ∙ e, both p q e)
  Outcome-then P Q R st s s' (inl (e, p)) (inr (moved, a)) both = inr (moved, rw (← e) a)
  Outcome-then P Q R st s s' (inr (moved, a)) (inl (e, q)) both =
      inr (ap (λ x. x.progress) e ∙ moved, rw e a)
  Outcome-then P Q R st s s' (inr (moved, a)) (inr (moved', b)) both =
      inr (moved', Advance-trans st s s' a b)

  pub Outcome-Ready :
      (Q : Type 0) (st s : Search)
      → All (Ready st.linker) st.archives
      → Outcome Q st s
      → All (Ready s.linker) s.archives
  Outcome-Ready Q st s h (inl (e, q)) = rw e h
  Outcome-Ready Q st s h (inr (moved, a)) = a.ready

  abbrev pub load : Search → ℕ
  load st = length st.linker.objs + remaining decimal st.archives

  pub Outcome-load : (Q : Type 0) (st s : Search) → Outcome Q st s → load s ≤ load st
  Outcome-load Q st s (inl (e, q)) = rw e (omega arith)
  Outcome-load Q st s (inr (moved, a)) = a.bound

  pub symbols_step :
      (syms : List Sym) (st s : Search)
      → All (Ready st.linker) st.archives
      → resolve_symbols strtol decimal syms st ≡ parsed s
      → Outcome (All (Settled st) syms) st s
  unfolding resolve_symbols
  symbols_step [] st s h run = inl (sym (parsed_injective run), tt)
  symbols_step (y ∷ syms) st s h run =
      let (s', first, rest) = bind-parsed (resolve_symbol strtol decimal y st) _ run in
      let one = symbol_step y st s' h first in
      let others = symbols_step syms s' s (Outcome-Ready (Settled st y) st s' h one) rest in
      Outcome-then (Settled st y) (All (Settled s') syms) (All (Settled st) (y ∷ syms)) st s' s one
        others (λ p q e. (p, rw e at q))
