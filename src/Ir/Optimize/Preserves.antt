-- ===== src/Ir/Optimize/Preserves.antt =====
-- The pass keeps what a function does. A run is described over an arbitrary machine: labels and
-- jumps are what they say, a return and a trap leave the function, and every other instruction
-- goes on behind itself or leaves, as `exec` says.
use mathlib.Core.Option
use b1cc.Common.{
  ℕ, zero, suc, ◌≡◌, refl, sym, ap, ◌∙◌, Bool, true, false, List, [], ◌∷◌, ◌++◌, append_assoc,
  append-nil, Option, none, some, ◌==◌, Bool-cases, inl, inr,
}
use b1cc.Ir.{IrOp, IrInst, IrFunction}
use b1cc.Ir.Optimize.{is_label, ends_block, still, dce_loop, ir_optimize_function}

-- The code that stays, by recursion.
kept : List IrInst → Bool → List IrInst
kept [] unreachable = []
kept (i ∷ code) unreachable = elim (still unreachable i) [
  | true ↦ kept code true
  | false ↦ i ∷ kept code (ends_block i.op)
]

dce_loop-kept :
    (code : List IrInst) (u : Bool) (out : List IrInst) → dce_loop code u out ≡ out ++ kept code u
unfolding dce_loop kept
dce_loop-kept [] u out = sym (append-nil out)
dce_loop-kept (i ∷ code) u out = elim (Bool-cases (still u i)) [
  | inl skip ↦ rw (skip, dce_loop, kept) (dce_loop-kept code true out)
  | inr keep ↦
      rw (keep, dce_loop, kept)
        (dce_loop-kept code (ends_block i.op) (out ++ i ∷ [])
          ∙ append_assoc out (i ∷ []) (kept code (ends_block i.op)))
]

-- What an instruction other than a label, a jump, a return or a trap does to the state.
pub data Effect {ℓ} (S : Type ℓ) : Type ℓ where
  goes_on : S → Effect S
  leaves : S → Effect S

pub data Kind : Type 0 where
  is_mark is_jump is_branch is_end is_plain : Kind

abbrev pub kind : IrOp → Kind
kind IrOp.label = is_mark
kind IrOp.jmp = is_jump
kind IrOp.jz = is_branch
kind IrOp.jz64 = is_branch
kind IrOp.ret = is_end
kind IrOp.ret64 = is_end
kind IrOp.trap = is_end
kind _ = is_plain

-- How a run ends: it left the function in a state, it jumped to a label that is not there, it ran
-- past the last instruction, or it is still going on after the given number of steps.
pub data Outcome {ℓ} (S : Type ℓ) : Type ℓ where
  left : S → Outcome S
  no_label : S → Outcome S
  fell_off : S → Outcome S
  running : S → Outcome S

-- The code behind a label.
abbrev pub behind : List IrInst → ℕ → Option (List IrInst)
behind [] l = none
behind (i ∷ code) l = elim (is_label i.op) [
  | false ↦ behind code l
  | true ↦ elim (i.arg == l) [ true ↦ some code | false ↦ behind code l ]
]

module _ {ℓ} {S : Type ℓ} (exec : IrInst → S → Effect S) (is_zero : S → Bool) (pop : S → S) where
  -- `steps` steps of the function `code`, of which `rest` is still ahead.
  pub run : List IrInst → ℕ → List IrInst → S → Outcome S
  run code zero rest s = running s
  run code (suc steps) [] s = fell_off s
  run code (suc steps) (i ∷ rest) s = elim (kind i.op) [
    | is_mark ↦ run code steps rest s
    | is_jump ↦ elim (behind code i.arg) [
      | none ↦ no_label s
      | some target ↦ run code steps target s
    ]
    | is_branch ↦ elim (is_zero s) [
      | false ↦ run code steps rest (pop s)
      | true ↦ elim (behind code i.arg) [
        | none ↦ no_label s
        | some target ↦ run code steps target (pop s)
      ]
    ]
    | is_end ↦ elim (exec i s) [ goes_on s' ↦ left s' | leaves s' ↦ left s' ]
    | is_plain ↦ elim (exec i s) [ goes_on s' ↦ run code steps rest s' | leaves s' ↦ left s' ]
  ]

ends_label : (op : IrOp) → is_label op ≡ true → ends_block op ≡ false
unfolding is_label ends_block
ends_label IrOp.label h = refl
ends_label _ h = cc

-- Behind a label of the kept code stands the kept code behind the label: a label is never dropped.
behind-kept :
    (code : List IrInst) (u : Bool) (l : ℕ)
    → behind (kept code u) l ≡ Option.map (λ c. kept c false) (behind code l)
unfolding kept
behind-kept [] u l = refl
behind-kept (i ∷ code) u l = elim (Bool-cases (is_label i.op)) [
  | inl mark ↦
      let e = ends_label i.op mark in
      elim (Bool-cases (i.arg == l)) [
        | inl here ↦ rw (mark, kept) (rw (mark, behind) (rw (here, e)))
        | inr there ↦ rw (mark, kept) (rw (mark, behind) (rw (there, e) (behind-kept code false l)))
      ]
  | inr plain ↦ elim (Bool-cases u) [
    | inl dead ↦ rw (plain, kept) (rw (dead, plain, behind) (behind-kept code true l))
    | inr alive ↦
        rw (plain, kept) (rw (alive, plain, behind) (behind-kept code (ends_block i.op) l))
  ]
]

still-false : (i : IrInst) → still false i ≡ false
still-false i = elim (Bool-cases (is_label i.op)) [ inl h ↦ rw (h, still) | inr h ↦ rw (h, still) ]

optimize-kept : (fn : IrFunction) → (ir_optimize_function fn).code ≡ kept fn.code false
unfolding ir_optimize_function kept
optimize-kept fn = go fn.code refl
  where
    go : (code : List IrInst) → fn.code ≡ code → (ir_optimize_function fn).code ≡ kept fn.code false
    go [] e = rw (e, ir_optimize_function) (rw (e, kept))
    go (i ∷ code) e = rw (e, ir_optimize_function) (dce_loop-kept (i ∷ code) false [])

kept-kept : (code : List IrInst) (u : Bool) → kept (kept code u) u ≡ kept code u
unfolding kept
kept-kept [] u = refl
kept-kept (i ∷ code) u = elim (Bool-cases (still u i)) [
  | inr keep ↦
      rw (keep, kept) (rw (keep, kept) (ap (λ r. i ∷ r) (kept-kept code (ends_block i.op))))
  | inl skip ↦ rw (skip, kept) (kept_skipped u skip (kept-kept code true))
]
  where
    kept_skipped :
        (v : Bool)
        → still v i ≡ true
        → kept (kept code true) true ≡ kept code true
        → kept (kept code true) v ≡ kept code true
    kept_skipped true e ih = ih
    kept_skipped false e ih = cc (still-false i)

-- Nothing is left to drop: the pass does not change its own result.
ir_optimize_function_idem :
    (fn : IrFunction)
    → (ir_optimize_function (ir_optimize_function fn)).code ≡ (ir_optimize_function fn).code
ir_optimize_function_idem fn =
    rw (optimize-kept (ir_optimize_function fn), optimize-kept fn) (kept-kept fn.code false)

-- The kinds that end a block are those behind which the pass drops code.
abbrev ends_kind : Kind → Bool
ends_kind is_mark = false
ends_kind is_jump = true
ends_kind is_branch = false
ends_kind is_end = true
ends_kind is_plain = false

ends_block-kind : (op : IrOp) → ends_block op ≡ ends_kind (kind op)
unfolding ends_block
ends_block-kind IrOp.label = refl
ends_block-kind _ = refl

module _ {ℓ} {S : Type ℓ} (exec : IrInst → S → Effect S) (is_zero : S → Bool) (pop : S → S) where
  abbrev Same : List IrInst → ℕ → Type ℓ
  Same code steps =
      (rest : List IrInst) (s : S)
      → run exec is_zero pop (kept code false) steps (kept rest false) s
        ≡ run exec is_zero pop code steps rest s

  jump-kept :
      (code : List IrInst) (steps l : ℕ) (s s' : S)
      → Same code steps
      → ◌≡◌ {A = Outcome S}
          (elim (behind (kept code false) l) [
            | none ↦ no_label s
            | some target ↦ run exec is_zero pop (kept code false) steps target s'
          ])
          (elim (behind code l) [
            | none ↦ no_label s
            | some target ↦ run exec is_zero pop code steps target s'
          ])
  jump-kept code steps l s s' ih = rw (behind-kept code false l) (go (behind code l))
    where
      go :
          (b : Option (List IrInst))
          → ◌≡◌ {A = Outcome S}
              (elim (Option.map (λ c. kept c false) b) [
                | none ↦ no_label s
                | some target ↦ run exec is_zero pop (kept code false) steps target s'
              ])
              (elim b [
                | none ↦ no_label s
                | some target ↦ run exec is_zero pop code steps target s'
              ])
      go none = refl
      go (some target) = ih target s'

  run-kept : (code : List IrInst) (steps : ℕ) → Same code steps
  unfolding run kept
  run-kept code zero rest s = refl
  run-kept code (suc steps) [] s = refl
  run-kept code (suc steps) (i ∷ rest) s =
      rw (still-false i, kept) (go (kind i.op) refl (run-kept code steps))
    where
      go :
          (k : Kind)
          → kind i.op ≡ k
          → Same code steps
          → run exec is_zero pop (kept code false) (suc steps) (i ∷ kept rest (ends_block i.op)) s
            ≡ run exec is_zero pop code (suc steps) (i ∷ rest) s
      go is_mark e ih =
          let b : ends_block i.op ≡ false = ends_block-kind i.op ∙ ap ends_kind e in
          rw b (rw (e, run) (ih rest s))
      go is_jump e ih = rw (e, run) (jump-kept code steps i.arg s s ih)
      go is_branch e ih =
          let b : ends_block i.op ≡ false = ends_block-kind i.op ∙ ap ends_kind e in
          rw b (elim (Bool-cases (is_zero s)) [
            | inl z ↦ rw (e, run) (rw z (jump-kept code steps i.arg s (pop s) ih))
            | inr nz ↦ rw (e, run) (rw nz (ih rest (pop s)))
          ])
      go is_end e ih = rw (e, run)
      go is_plain e ih =
          let b : ends_block i.op ≡ false = ends_block-kind i.op ∙ ap ends_kind e in
          rw b (rw (e, run) (plain (exec i s) ih))
        where
          plain :
              (x : Effect S)
              → Same code steps
              → ◌≡◌ {A = Outcome S}
                  (elim x [
                    | goes_on s' ↦ run exec is_zero pop (kept code false) steps (kept rest false) s'
                    | leaves s' ↦ left s'
                  ])
                  (elim x [
                    | goes_on s' ↦ run exec is_zero pop code steps rest s'
                    | leaves s' ↦ left s'
                  ])
          plain (goes_on s') ih = ih rest s'
          plain (leaves s') ih = refl

  -- A run of the optimized function from its start is, after any number of steps, where a run of
  -- the function is: the same result, the same failure, or both still going on in the same state;
  -- for any state, and any effect of the instructions that are no labels, jumps or returns.
  pub run-ir_optimize_function :
      (fn : IrFunction) (steps : ℕ) (s : S)
      → run exec is_zero pop (ir_optimize_function fn).code steps (ir_optimize_function fn).code s
        ≡ run exec is_zero pop fn.code steps fn.code s
  run-ir_optimize_function fn steps s = rw (optimize-kept fn) (run-kept fn.code steps fn.code s)
