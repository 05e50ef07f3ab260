-- ===== src/Intern/Pool.antt =====
-- Equal strings have one interned copy.
use b1cc.Common.{some_injective, Option-cases}
use b1cc.Common.{
  ℕ, ◌≡◌, refl, sym, ◌∙◌, inl, inr, Bool-cases, if◌then◌else◌, Option, some, List, [], ◌∷◌, ◌++◌,
  append-nil, length, take, get_elem?, Bytes, str_eq, str_eq_iff, str_eq_refl,
}
use b1cc.HashMap.{HashMap}
use b1cc.HashMap.Resize.{Models}
use b1cc.HashMap.Laws.{hashmap_get-Models, hashmap_put-Models}
use b1cc.Link.Places.{get-append_old, get-append_new}
use b1cc.Intern.{InternPool, initialized, intern_string_n}

-- The hash map finds each interned string at its place.
pub record IsPool (p : InternPool) : Type 0 where
  pub place : Bytes → Option ℕ
  pub stored : Models place (initialized p)
  pub points : (q : Bytes) (i : ℕ) → place q ≡ some i → get_elem? p.strings i ≡ some q

module _ (p : InternPool) (w : IsPool p) (s : Bytes) (n : ℕ) where
  abbrev next_place : Bytes → Option ℕ
  next_place q = if str_eq (take n s) q then some (length p.strings) else w.place q

  new-IsPool :
      (m : HashMap ℕ)
      → Models next_place m
      → IsPool (record { intern_map = some m; strings = p.strings ++ take n s ∷ [] })
  unfolding initialized
  new-IsPool m models = record {
    place = next_place;
    stored = models;
    points = λ q i h. elim (Bool-cases (str_eq (take n s) q)) [
      | inl here ↦
          let same : length p.strings ≡ i = some_injective (rw (here, if◌then◌else◌) at h) in
          rw (← same, ← (str_eq_iff (take n s) q).0 here) (get-append_new p.strings (take n s))
      | inr other ↦
          get-append_old p.strings (take n s) q i (w.points q i (rw (other, if◌then◌else◌) at h))
    ];
  }

-- What interning owes: the pointer is to a copy of the first `n` bytes, no interned string moves,
-- and the same bytes interned again give the same pointer and change nothing.
abbrev pub Interned : InternPool → Bytes → ℕ → Option (InternPool × ℕ) → Type 0
Interned p s n out =
    (p' : InternPool) × (i : ℕ) × (out ≡ some (p', i))
    × IsPool p'
    × (get_elem? p'.strings i ≡ some (take n s))
    × ((rest : List Bytes) × (p'.strings ≡ p.strings ++ rest))
    × (intern_string_n p' s n ≡ some (p', i))

-- intern_string_n of `n` bytes, from a pool whose hash map finds each interned string, succeeds
-- and gives such a pool. The pointer is to a copy of the bytes, the strings that were interned
-- before stay where they were, and the same bytes interned again give the same pointer and change
-- nothing.
pub intern_string_n-Interned :
    (p : InternPool) (s : Bytes) (n : ℕ) → IsPool p → Interned p s n (intern_string_n p s n)
unfolding intern_string_n initialized
intern_string_n-Interned p s n w =
    let found = (hashmap_get-Models w.stored (take n s)).0 in
    elim (Option-cases (w.place (take n s))) [
      | inr (i, there) ↦ (
        record { intern_map = some (initialized p); strings = p.strings },
        i,
        rw (found ∙ there, intern_string_n),
        record { place = w.place; stored = w.stored; points = w.points },
        w.points (take n s) i there,
        ([], sym (append-nil p.strings)),
        rw (found ∙ there, intern_string_n),
      )
      | inl fresh ↦
          let (m, run, models, _) = hashmap_put-Models w.stored (take n s) (length p.strings) in
          let again = (hashmap_get-Models models (take n s)).0 in
          let self = str_eq_refl (take n s) in
          (
            record { intern_map = some m; strings = p.strings ++ take n s ∷ [] },
            length p.strings,
            rw (found ∙ fresh, intern_string_n) (rw run),
            new-IsPool p w s n m models,
            get-append_new p.strings (take n s),
            (take n s ∷ [], refl),
            rw (again, intern_string_n) (rw (self, if◌then◌else◌)),
          )
    ]
