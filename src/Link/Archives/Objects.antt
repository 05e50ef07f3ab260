-- ===== src/Link/Archives/Objects.antt =====
-- One pass of src/linker.c over the undefined symbols of all objects.
use b1cc.Common.{
  ℕ, zero, suc, ◌+◌, ◌≤◌, ◌≡◌, refl, sym, ◌∙◌, none, some, some_injective, List, [], ◌∷◌, ◌==◌,
  arith, inl, inr, Bool-cases, Option-cases, All, length, get_elem?, Bytes,
}
use b1cc.Common.Int.{ℤ}
use b1cc.Link.{Obj}
use b1cc.Link.Places.{get-length}
use b1cc.Link.Parse.{Parsed, parsed, fatal, unread}
use b1cc.Link.Parse.Inverse.{parsed_injective, Parsed-cases}
use b1cc.Link.Archives.{Search, resolve_symbols, resolve_objs}
use b1cc.Link.Archives.Steps.{Ready}
use b1cc.Link.Archives.Pass.{
  Settled, Outcome, load, Outcome-then, Outcome-Ready, Outcome-load, symbols_step,
}

module _ (strtol : Bytes → ℤ) (decimal : ℕ → Bytes) where
  -- The symbols of the objects from the `oi`-th on are settled.
  abbrev pub SettledFrom : ℕ → Search → Type 0
  SettledFrom oi st =
      (i o : ℕ) (obj : Obj)
      → oi ≤ i
      → get_elem? st.linker.objs i ≡ some o
      → get_elem? st.linker.heap o ≡ some obj
      → All (Settled strtol decimal st) obj.syms

  past-end : {A : Type 0} (xs : List A) (i : ℕ) → get_elem? xs i ≡ none → length xs ≤ i
  past-end [] i h = omega arith
  past-end (x ∷ xs) zero h = absurd cc
  past-end (x ∷ xs) (suc i) h = let le = past-end xs i h in omega arith

  end-SettledFrom : (oi : ℕ) (st : Search) → get_elem? st.linker.objs oi ≡ none → SettledFrom oi st
  end-SettledFrom oi st h i o obj le at there =
      let past = past-end st.linker.objs oi h in
      let inside = get-length st.linker.objs o i at in absurd (omega arith)

  SettledFrom-first :
      (oi o : ℕ) (obj : Obj) (st : Search)
      → get_elem? st.linker.objs oi ≡ some o
      → get_elem? st.linker.heap o ≡ some obj
      → All (Settled strtol decimal st) obj.syms
      → SettledFrom (oi + 1) st
      → SettledFrom oi st
  SettledFrom-first oi o obj st at there now later i o' obj' le at' there' =
      elim (Bool-cases (i == oi)) [
        | inl e ↦
            let same : i ≡ oi = ground arith in
            let one : o ≡ o' = some_injective (sym at ∙ rw same at at') in
            let two : obj ≡ obj' = some_injective (sym there ∙ rw (sym one) at there') in
            rw (← two) now
        | inr ne ↦ later i o' obj' (ground arith) at' there'
      ]

  -- With fuel for the objects that are there and the entries that are left, the loop ends.
  abbrev Ends : ℕ → ℕ → Search → Type 0
  Ends n oi st =
      (r : Parsed Search) × (resolve_objs strtol decimal n oi st ≡ some r)
      × ((s : Search) → r ≡ parsed s → Outcome strtol decimal (SettledFrom oi st) st s)

  end-Ends : (n oi : ℕ) (st : Search) → get_elem? st.linker.objs oi ≡ none → Ends n oi st
  unfolding resolve_objs
  end-Ends zero oi st h = (
    parsed st,
    rw (h, resolve_objs) refl,
    λ s e. inl (sym (parsed_injective e), end-SettledFrom oi st h),
  )
  end-Ends (suc n) oi st h = (
    parsed st,
    rw (h, resolve_objs) refl,
    λ s e. inl (sym (parsed_injective e), end-SettledFrom oi st h),
  )

  pub objs_step :
      (n oi : ℕ) (st : Search)
      → All (Ready st.linker) st.archives
      → load strtol decimal st ≤ oi + n
      → Ends n oi st
  unfolding resolve_objs
  objs_step zero oi st h fuel = elim (Option-cases (get_elem? st.linker.objs oi)) [
    | inl over ↦ end-Ends zero oi st over
    | inr (o, at) ↦ let inside = get-length st.linker.objs o oi at in absurd (omega arith)
  ]
  objs_step (suc n) oi st h fuel = elim (Option-cases (get_elem? st.linker.objs oi)) [
    | inl over ↦ end-Ends (suc n) oi st over
    | inr (o, at) ↦ elim (Option-cases (get_elem? st.linker.heap o)) [
      | inl gone ↦ (unread, rw (at, resolve_objs) (rw gone refl), λ s e. absurd cc)
      | inr (obj, there) ↦ elim (Parsed-cases (resolve_symbols strtol decimal obj.syms st)) [
        | inr (inl bad) ↦ (fatal, rw (at, resolve_objs) (rw there (rw bad refl)), λ s e. absurd cc)
        | inr (inr bad) ↦ (unread, rw (at, resolve_objs) (rw there (rw bad refl)), λ s e. absurd cc)
        | inl (s, good) ↦
            let one = symbols_step strtol decimal obj.syms st s h good in
            let less =
              Outcome-load strtol decimal (All (Settled strtol decimal st) obj.syms) st s one in
            let ready =
              Outcome-Ready strtol decimal (All (Settled strtol decimal st) obj.syms) st s h one in
            let (r, run, rest) = objs_step n (oi + 1) s ready (omega arith) in
            (
              r,
              rw (at, resolve_objs) (rw there (rw good run)),
              λ s' e.
                  Outcome-then strtol decimal (All (Settled strtol decimal st) obj.syms)
                    (SettledFrom (oi + 1) s) (SettledFrom oi st) st s s' one (rest s' e)
                    (λ p q e'. SettledFrom-first oi o obj st at there p (rw e' at q)),
            )
      ]
    ]
  ]
