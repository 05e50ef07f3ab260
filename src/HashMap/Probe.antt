-- ===== src/HashMap/Probe.antt =====
-- The probe sequence of a key in src/common.c, and `hashmap_get` on it.
use mathlib.Core.Path.{subst}
use b1cc.Common.{
  ◌==◌, ==_iff, ltb, ltb→lt, Bool-cases, Option-cases, inl, inr, sym, ap, str_eq_iff, ℕ, zero, suc,
  ◌+◌, ◌-◌, ◌%◌, ◌≤◌, ◌<◌, ◌≡◌, refl, Bool, true, false, none, some, List, arith, leb,
  if◌then◌else◌, length, get_or, Bytes, str_eq,
}
use b1cc.HashMap.{Slot, null, tombstone, entry, get_loop, hash_key}
use b1cc.HashMap.Slots.{slot_val, count, lookup, lookup-zero_count, lookup_at}

probe_wrap : (h i n : ℕ) → h < n → i < n → n ≤ h + i → (h + i) % n ≡ h + i - n
probe_wrap h i n hn hi le = grind arith

probe_plain : (h i n : ℕ) → h + i < n → (h + i) % n ≡ h + i
probe_plain h i n lt = grind arith

pub probe_lt : (h i n : ℕ) → 0 < n → (h + i) % n < n
probe_lt h i n pos = omega arith

-- Different rounds read different slots.
pub probe_injective : (h i j n : ℕ) → h < n → i < n → j < n → (h + i) % n ≡ (h + j) % n → i ≡ j
probe_injective h i j n hn hi hj e =
    ground (arith, probe_wrap h i n, probe_wrap h j n, probe_plain h i n, probe_plain h j n)

-- The round that reads slot `j`.
abbrev pub round_of : ℕ → ℕ → ℕ → ℕ
round_of h j n = if leb h j then j - h else j + n - h

pub round_of-lt : (h j n : ℕ) → h < n → j < n → round_of h j n < n
round_of-lt h j n hn hj = ground arith

pub probe-round_of : (h j n : ℕ) → h < n → j < n → (h + round_of h j n) % n ≡ j
probe-round_of h j n hn hj =
    ground (arith, probe_wrap h (round_of h j n) n, probe_plain h (round_of h j n) n)

module _ {ℓ} {V : Type ℓ} where
  -- What round `i` reads, starting at `h`.
  abbrev pub probe : List (Slot V) → ℕ → ℕ → ℕ → Slot V
  probe es n h i = get_or es ((h + i) % n) null

  abbrev pub is_null : Slot V → Bool
  is_null null = true
  is_null tombstone = false
  is_null (entry k v) = false

  -- Every entry is reached from its home slot before any cleared slot.
  abbrev pub IsPlaced : List (Slot V) → ℕ → Type ℓ
  IsPlaced es n =
      (k : Bytes) (v : V) (d i : ℕ)
      → d < n
      → probe es n (hash_key k % n) d ≡ entry k v
      → i < d
      → is_null (probe es n (hash_key k % n) i) ≡ false

  slot_val-entry : (q : Bytes) (s : Slot V) (v : V) → slot_val q s ≡ some v → s ≡ entry q v
  slot_val-entry q null v h = cc
  slot_val-entry q tombstone v h = cc
  slot_val-entry q (entry k w) v h = ground (arith, str_eq_iff k q)

  pub lookup-probe :
      (q : Bytes) (es : List (Slot V)) (n h : ℕ)
      → length es ≡ n
      → h < n
      → ((d : ℕ) → d < n → slot_val q (probe es n h d) ≡ none)
      → lookup q es ≡ none
  lookup-probe q es n h len hn miss = lookup-zero_count q es λ j lt.
      let r = miss (round_of h j n) (round_of-lt h j n hn (omega arith)) in
      rw (probe-round_of h j n hn (omega arith)) at r

  module _ (q : Bytes) (es : List (Slot V)) (n : ℕ) (len : length es ≡ n) (placed : IsPlaced es n)
      (once : count q es ≤ 1) where
    abbrev pub Missed : ℕ → Type ℓ
    Missed i = (d : ℕ) → d < i → slot_val q (probe es n (hash_key q % n) d) ≡ none

    pub Missed-suc :
        (i : ℕ) → Missed i → slot_val q (probe es n (hash_key q % n) i) ≡ none → Missed (i + 1)
    Missed-suc i m e d lt = elim (Bool-cases (d == i)) [
      | inl same ↦ rw ((==_iff d i).0 same) e
      | inr other ↦ m d (ground arith)
    ]

    -- A cleared slot ends the search: nothing can stand behind it.
    pub stop_at_null :
        (i : ℕ) → Missed i → is_null (probe es n (hash_key q % n) i) ≡ true → Missed n
    stop_at_null i m e d ltd = elim (Option-cases (slot_val q (probe es n (hash_key q % n) d))) [
      | inl none_here ↦ none_here
      | inr (v, hit) ↦
          let p = slot_val-entry q (probe es n (hash_key q % n) d) v hit in
          elim (Bool-cases (ltb d i)) [
            | inl before ↦ m d (ltb→lt d i before)
            | inr after ↦ elim (Bool-cases (d == i)) [
              | inl same ↦
                  let p' =
                    subst (λ x. probe es n (hash_key q % n) x ≡ entry q v) ((==_iff d i).0 same)
                      p in
                  cc (ap is_null p')
              | inr other ↦ cc (placed q v d i ltd p (ground arith))
            ]
          ]
    ]

    pub get_loop_from :
        (rounds i : ℕ)
        → i + rounds ≡ n
        → 0 < n
        → Missed i
        → get_loop es n q (hash_key q % n) rounds i ≡ lookup q es
    unfolding get_loop
    get_loop_from zero i e pos m =
        sym (lookup-probe q es n (hash_key q % n) len (omega arith) (λ d lt. m d (omega arith)))
    get_loop_from (suc rounds) i e pos m =
        go (λ miss. get_loop_from rounds (i + 1) (omega arith) pos (Missed-suc i m miss))
          (probe es n (hash_key q % n) i) refl
      where
        go :
            (slot_val q (probe es n (hash_key q % n) i) ≡ none
              → get_loop es n q (hash_key q % n) rounds (i + 1) ≡ lookup q es)
            → (s : Slot V) → probe es n (hash_key q % n) i ≡ s
            → get_loop es n q (hash_key q % n) (suc rounds) i ≡ lookup q es
        go later null p =
            rw (p, get_loop)
              (sym
                (lookup-probe q es n (hash_key q % n) len (omega arith) (stop_at_null i m (rw p))))
        go later tombstone p = rw (p, get_loop) (later (rw p))
        go later (entry k v) p = elim (Bool-cases (str_eq k q)) [
          | inl same ↦
              rw (p, same, get_loop)
                (sym (lookup_at q es ((hash_key q % n + i) % n) v once (rw (p, same))))
          | inr differ ↦ rw (p, differ, get_loop) (later (rw (p, differ)))
        ]
