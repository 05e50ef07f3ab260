-- ===== src/Link/Archives/Steps.antt =====
-- One search of src/linker.c: nothing changes, or one more member is parsed and included.
use b1cc.Common.{
  ℕ, suc, ◌<◌, ◌≡◌, ◌⊎◌, refl, sym, ap, ◌∙◌, true, false, Option, none, some, some_injective, List,
  [], ◌∷◌, ◌++◌, arith, inl, inr, Bool-cases, Option-cases, if◌then◌else◌, length, length-append,
  get_elem?, set, Bytes, str_eq,
}
use b1cc.Common.Int.{ℤ}
use b1cc.HashMap.{HashMap, hashmap_get, hashmap_put}
use b1cc.HashMap.Resize.{Models}
use b1cc.HashMap.Laws.{hashmap_get-Models, hashmap_put-Models}
use b1cc.Link.{Obj, Linker, register_loop, include_object}
use b1cc.Link.Places.{get-append_old, get-append_new, get-length, get-set_same, get-set_other}
use b1cc.Link.Parse.{parsed, ◌>>=◌}
use b1cc.Link.Parse.Inverse.{bind-parsed, parsed_injective, parse_object-fresh}
use b1cc.Link.Archives.{Archive, Search, member_of, include_member, archive_member_at}
use b1cc.Link.Archives.Offers.{remaining_of, remaining_of-less}

-- The object is there, and it is included.
abbrev IsIncluded : Linker → ℕ → Type 0
IsIncluded lk m = (obj : Obj) × (get_elem? lk.heap m ≡ some obj) × (obj.included ≡ true)

-- Every member that the archive has parsed is included.
pub record Ready (lk : Linker) (ar : Archive) : Type 0 where
  pub cache : Bytes → Option ℕ
  pub stored : Models cache ar.done
  pub inside : (q : Bytes) (m : ℕ) → cache q ≡ some m → IsIncluded lk m

-- Included objects stay.
abbrev pub Grows : Linker → Linker → Type 0
Grows lk lk' = (m : ℕ) → IsIncluded lk m → IsIncluded lk' m

pub Ready-Grows : {lk lk' : Linker} (ar : Archive) → Grows lk lk' → Ready lk ar → Ready lk' ar
Ready-Grows ar grow r = record {
  cache = r.cache;
  stored = r.stored;
  inside = λ q m e. grow m (r.inside q m e);
}

include_object-shape :
    (lk lk' : Linker) (o : ℕ) (obj : Obj)
    → get_elem? lk.heap o ≡ some obj
    → obj.included ≡ false
    → include_object lk o ≡ some lk'
    → (lk'.heap ≡ set lk.heap o (record obj { included = true })) × (lk'.objs ≡ lk.objs ++ o ∷ [])
unfolding include_object
include_object-shape lk lk' o obj there fresh h =
    let h' = rw (fresh, include_object) at (rw (there, include_object) at h) in
    elim (Option-cases (
      register_loop (set lk.heap o (record obj { included = true })) o obj.syms 0
        (record { map = lk.globals; defs = lk.defs }))) [
          | inl e ↦ let h'' = rw e at h' in absurd cc
          | inr (t, e) ↦
              let same = some_injective (rw e at h') in
              (ap (λ x. x.heap) (sym same), ap (λ x. x.objs) (sym same))
        ]

module _ (strtol : Bytes → ℤ) (decimal : ℕ → Bytes) where
  -- The archive has parsed the member, and it is included.
  abbrev pub Pulled : Linker → Archive → ℕ → Type 0
  Pulled lk ar off = (m : ℕ) × (hashmap_get ar.done (decimal off) ≡ some m) × IsIncluded lk m

  -- The archive has one more member, which is included.
  pub record Pull (lk : Linker) (ar : Archive) (lk' : Linker) (ar' : Archive) : Type 0 where
    pub ready : Ready lk' ar'
    pub grows : Grows lk lk'
    pub symmap : ar'.symmap ≡ ar.symmap
    pub less : remaining_of decimal ar' < remaining_of decimal ar
    pub more : length lk'.objs ≡ suc (length lk.objs)

  fresh-Pull :
      (lk lk' : Linker) (ar : Archive) (name : Bytes) (off : ℕ) (o : Obj) (done : HashMap ℕ)
      → Ready lk ar
      → member_of ar name ≡ some off
      → hashmap_get ar.done (decimal off) ≡ none
      → o.included ≡ false
      → hashmap_put ar.done (decimal off) (length lk.heap) ≡ some done
      → include_object (record lk { heap = lk.heap ++ o ∷ [] }) (length lk.heap) ≡ some lk'
      → Pull lk ar lk' (record ar { done = done })
  fresh-Pull lk lk' ar name off o done r h absent fresh put run =
      let there = get-append_new lk.heap o in
      let (heap, objs) = include_object-shape _ lk' (length lk.heap) o there fresh run in
      let (done', put', models, _) = hashmap_put-Models r.stored (decimal off) (length lk.heap) in
      let is : done' ≡ done = some_injective (sym put' ∙ put) in
      let models' = rw is at models in
      let grow : Grows lk lk' = λ m (obj, at, included). (
        obj,
        rw heap (
            get-set_other (lk.heap ++ o ∷ []) _ (length lk.heap) m
              (λ e. let lt = get-length lk.heap obj m at in omega arith)
            ∙ get-append_old lk.heap o obj m at),
        included,
      ) in
      record {
        ready = record {
          cache = λ q. if str_eq (decimal off) q then some (length lk.heap) else r.cache q;
          stored = models';
          inside = λ q m e. elim (Bool-cases (str_eq (decimal off) q)) [
            | inl same ↦
                let here : length lk.heap ≡ m = some_injective (rw same at e) in
                (
                  record o { included = true },
                  rw (← here)
                      (rw heap (get-set_same (lk.heap ++ o ∷ []) _ o (length lk.heap) there)),
                  refl,
                )
            | inr other ↦ grow m (r.inside q m (rw other at e))
          ];
        };
        grows = grow;
        symmap = refl;
        less =
            remaining_of-less decimal ar name off (length lk.heap) done h absent
              (λ q. (hashmap_get-Models models' q).0 ∙ rw ((hashmap_get-Models r.stored q).0) refl);
        more = ap length objs ∙ length-append lk.objs (length lk.heap ∷ []) ∙ omega arith;
      }

  -- The member is included, or it is now.
  pub member_step :
      (lk : Linker) (ar : Archive) (ars : List Archive) (name : Bytes) (off : ℕ) (s : Search)
      → Ready lk ar
      → member_of ar name ≡ some off
      → archive_member_at strtol decimal lk ar off >>= (λ r. include_member r ars) ≡ parsed s
      → ((s ≡ record { linker = lk; archives = ar ∷ ars; progress = false }) × Pulled lk ar off)
        ⊎ ((s.progress ≡ true)
            × ((ar' : Archive) × (s.archives ≡ ar' ∷ ars) × Pull lk ar s.linker ar'))
  unfolding archive_member_at include_member
  member_step lk ar ars name off s r h run =
      let (member, at, step) = bind-parsed (archive_member_at strtol decimal lk ar off) _ run in
      elim (Option-cases (hashmap_get ar.done (decimal off))) [
        | inr (m, known) ↦
            let is = parsed_injective (rw (known, archive_member_at) at at) in
            let cached = sym (hashmap_get-Models r.stored (decimal off)).0 ∙ known in
            let (obj, there, included) = r.inside (decimal off) m cached in
            let step' = rw (sym is) at step in
            let step'' = rw (included, include_member) at (rw (there, include_member) at step') in
            inl (sym (parsed_injective step''), (m, known, (obj, there, included)))
        | inl absent ↦
            let at' = rw (absent, archive_member_at) at at in
            let (head, _, h₁) = bind-parsed _ _ at' in
            let (mname, _, h₂) = bind-parsed _ _ h₁ in
            let (o, is_object, h₃) = bind-parsed _ _ h₂ in
            let fresh = parse_object-fresh _ _ _ o is_object in
            elim (Option-cases (hashmap_put ar.done (decimal off) (length lk.heap))) [
              | inl full ↦ let h₄ = rw full at h₃ in absurd cc
              | inr (done, put) ↦
                  let is = parsed_injective (rw put at h₃) in
                  let step' = rw (sym is) at step in
                  let there = get-append_new lk.heap o in
                  let step'' =
                    rw (fresh, include_member) at (rw (there, include_member) at step') in
                  elim (Option-cases
                    (include_object (record lk { heap = lk.heap ++ o ∷ [] }) (length lk.heap))) [
                      | inl no_room ↦ let h₅ = rw no_room at step'' in absurd cc
                      | inr (lk', included) ↦
                          let pull =
                            fresh-Pull lk lk' ar name off o done r h absent fresh put included in
                          let same = parsed_injective (rw included at step'') in
                          inr (
                            ap (λ x. x.progress) (sym same),
                            (
                              record ar { done = done },
                              ap (λ x. x.archives) (sym same),
                              rw (ap (λ x. x.linker) (sym same)) pull,
                            ),
                          )
                    ]
            ]
      ]
