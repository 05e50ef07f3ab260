-- ===== src/Link/Archives/Offers.antt =====
-- What the archives of src/linker.c still offer: the entries whose member is not parsed yet.
use b1cc.Common.{
  ℕ, ◌+◌, ◌-◌, ◌≤◌, ◌<◌, ◌≡◌, refl, Bool, true, false, none, some, some_injective, List, [], ◌∷◌,
  arith, inl, inr, Bool-cases, Option-cases, ◌==◌, if◌then◌else◌, Bytes, str_eq, str_eq_refl,
}
use b1cc.HashMap.{HashMap, hashmap_get}
use b1cc.HashMap.Values.{pending, pending-le, pending-less, hashmap_get-Listed}
use b1cc.Link.Archives.{Archive, member_of, room, offers}

-- Entry by entry, what a table has that satisfies `p`.
abbrev left_in : (ℕ → Bool) → HashMap ℕ → ℕ
left_in p m = elim m.entries [ none ↦ 0 | some es ↦ pending p es ]

left_in-room : (p : ℕ → Bool) (m : HashMap ℕ) → left_in p m ≤ room m
left_in-room p m = elim (Option-cases m.entries) [
  | inl e ↦ rw (e, left_in, room) (omega arith)
  | inr (es, e) ↦ rw (e, left_in, room) (pending-le p es)
]

member_of-Listed :
    (ar : Archive) (name : Bytes) (off : ℕ)
    → member_of ar name ≡ some off
    → (v : ℕ) × (v - 1 ≡ off) × (hashmap_get ar.symmap name ≡ some v)
unfolding member_of
member_of-Listed ar name off h = elim (Option-cases (hashmap_get ar.symmap name)) [
  | inl e ↦ let h' = rw (e, member_of) at h in absurd cc
  | inr (v, e) ↦
      let h' = rw (e, member_of) at h in
      elim (Bool-cases (v == 0)) [
        | inl z ↦ let h'' = rw z at h' in absurd cc
        | inr nz ↦ (v, some_injective (rw nz at h'), e)
      ]
]

module _ (decimal : ℕ → Bytes) where
  abbrev unparsed : HashMap ℕ → ℕ → Bool
  unparsed done v = elim (hashmap_get done (decimal (v - 1))) [ none ↦ true | some _ ↦ false ]

  abbrev pub remaining_of : Archive → ℕ
  remaining_of ar = left_in (unparsed ar.done) ar.symmap

  abbrev pub remaining : List Archive → ℕ
  remaining [] = 0
  remaining (ar ∷ ars) = remaining_of ar + remaining ars

  pub remaining-offers : (ars : List Archive) → remaining ars ≤ offers ars
  remaining-offers [] = omega arith
  remaining-offers (ar ∷ ars) =
      let le = remaining-offers ars in
      let one = left_in-room (unparsed ar.done) ar.symmap in omega arith

  -- A member that is parsed now, and was not, is one entry less.
  pub remaining_of-less :
      (ar : Archive) (name : Bytes) (off m : ℕ) (done : HashMap ℕ)
      → member_of ar name ≡ some off
      → hashmap_get ar.done (decimal off) ≡ none
      → ((q : Bytes)
          → hashmap_get done q ≡ (if str_eq (decimal off) q then some m else hashmap_get ar.done q))
      → left_in (unparsed done) ar.symmap < remaining_of ar
  remaining_of-less ar name off m done h fresh reads =
      let (v, at, e) = member_of-Listed ar name off h in
      let (es, full, l) = hashmap_get-Listed ar.symmap name v e in
      let before : unparsed ar.done v ≡ true = rw (at, unparsed) (rw fresh refl) in
      let now : unparsed done v ≡ false =
        rw (at, unparsed) (rw (reads (decimal off)) (rw (str_eq_refl (decimal off)) refl)) in
      let kept : (w : ℕ) → unparsed done w ≡ true → unparsed ar.done w ≡ true = λ w u.
        elim (Bool-cases (str_eq (decimal off) (decimal (w - 1)))) [
          | inl same ↦
              let u' = rw (reads (decimal (w - 1)), unparsed) at u in
              let u'' = rw same at u' in absurd cc
          | inr other ↦ let u' = rw (reads (decimal (w - 1)), unparsed) at u in rw other at u'
        ] in
      rw (full, left_in) (pending-less (unparsed ar.done) (unparsed done) es v kept l before now)
