-- ===== src/Link/Parse/Inverse.antt =====
-- What a parse of src/linker.c went through when it gives a value.
use b1cc.Common.{
  ◌≡◌, ◌⊎◌, refl, false, ◌&&◌, inl, inr, Bool-cases, ◌==◌, get_or, [], ◌∷◌, take, Bytes, str_eq,
  sym, ap,
}
use b1cc.Common.Int.{ℤ, pos, ltb_ℤ}
use b1cc.Link.{Obj}
use b1cc.Link.Parse.{Parsed, parsed, fatal, unread, ◌>>=◌, bytes_at, parse_tables, parse_object}

pub bind-parsed :
    {A B : Type 0} (m : Parsed A) (f : A → Parsed B) {b : B}
    → m >>= f ≡ parsed b
    → (a : A) × (m ≡ parsed a) × (f a ≡ parsed b)
unfolding ◌>>=◌
bind-parsed (parsed a) f h = (a, refl, h)
bind-parsed fatal f h = absurd cc
bind-parsed unread f h = absurd cc

-- The value, or `d`.
abbrev value {ℓ} : {A : Type ℓ} → A → Parsed A → A
value d (parsed a) = a
value d _ = d

pub parsed_injective : {A : Type 0} {a b : A} → parsed a ≡ parsed b → a ≡ b
parsed_injective {a = a} e = ap (value a) e

parse_tables-fresh :
    (name img : Bytes) (o : Obj) → parse_tables name img ≡ parsed o → o.included ≡ false
unfolding parse_tables
parse_tables-fresh name img o h =
    let (header, _, h₁) = bind-parsed (bytes_at img 0 64) _ h in
    let (shstr_hdr, _, h₂) = bind-parsed _ _ h₁ in
    let (secs, _, h₃) = bind-parsed _ _ h₂ in
    let (syms, _, h₄) = bind-parsed _ _ h₃ in
    let (attached, _, h₅) = bind-parsed _ _ h₄ in ap (λ x. x.included) (sym (parsed_injective h₅))

-- An object that is parsed is not included yet.
pub parse_object-fresh :
    (name img : Bytes) (imgsz : ℤ) (o : Obj)
    → parse_object name img imgsz ≡ parsed o
    → o.included ≡ false
unfolding parse_object
parse_object-fresh name img imgsz o h = elim (Bool-cases (ltb_ℤ imgsz (pos 64))) [
  | inl short ↦ let h' = rw (short, parse_object) at h in absurd cc
  | inr long ↦
      let (head, _, h₁) = bind-parsed (bytes_at img 0 5) _ (rw (long, parse_object) at h) in
      elim (Bool-cases
        (str_eq (take 4 head) (0x7f ∷ b'E' ∷ b'L' ∷ b'F' ∷ []) && get_or head 4 0 == 2)) [
          | inl magic ↦ parse_tables-fresh name img o (rw magic at h₁)
          | inr other ↦ let h₂ = rw other at h₁ in absurd cc
        ]
]

pub Parsed-cases :
    {A : Type 0} (r : Parsed A) → ((a : A) × (r ≡ parsed a)) ⊎ ((r ≡ fatal) ⊎ (r ≡ unread))
Parsed-cases (parsed a) = inl (a, refl)
Parsed-cases fatal = inr (inl refl)
Parsed-cases unread = inr (inr refl)
