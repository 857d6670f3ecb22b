-- ===== src/Opt/AddExpr/GenIr/Members.antt =====
-- The code of `genIR` (src/ir/opt/simplify_expr.cpp) for the members of one group, run from a state.
use helesta.Prelude.{
  ℕ, suc, ◌+◌, ◌*◌, ◌≤◌, ◌≡◌, ◌⊎◌, inl, inr, refl, ◌∙◌, Bool, true, false, Option, none, some, List,
  [], ◌∷◌, arith,
}
use helesta.Prelude.Word.{IsWord, add32, sub32, neg32}
use helesta.Prelude.Word.Modular.{◌≈◌}
use helesta.Ir.Scalar.{minus_one, BinaryCompute, compute_unary, compute_binary}
use helesta.Ir.Exec.{Env, State}
use helesta.Ir.CodeGen.{CodeGen, emit, negate, apply}
use helesta.Ir.CodeGen.Run.{Runs, LastDef, Step, Emitted, negate_lem, apply_lem}
use helesta.Opt.AddExpr.GenIr.{Member, add_member, add_members}
use helesta.Opt.AddExpr.GenIr.Groups.{Named, member, members}

pub max-add_member :
    (acc : Option ℕ) (x : Member) (cg : CodeGen)
    → cg.max_reg_id ≤ (add_member acc x cg).1.max_reg_id
unfolding add_member negate apply emit
max-add_member none (x, true) cg = omega arith
max-add_member none (x, false) cg = omega arith
max-add_member (some a) (x, true) cg = omega arith
max-add_member (some a) (x, false) cg = omega arith

pub max-add_members :
    (xs : List Member) (acc : Option ℕ) (cg : CodeGen)
    → cg.max_reg_id ≤ (add_members xs acc cg).1.max_reg_id
unfolding add_members
max-add_members [] acc cg = omega arith
max-add_members (x ∷ xs) acc cg =
    let out = add_member acc x cg in
    omega (arith, max-add_member acc x cg, max-add_members xs (some out.0) out.1)

one_more :
    (a x : ℕ) (sign : Bool) (cg : CodeGen)
    → suc cg.max_reg_id ≤ (add_member (some a) (x, sign) cg).1.max_reg_id
unfolding add_member apply emit
one_more a x true cg = omega arith
one_more a x false cg = omega arith

pub add_members-eq-some :
    (xs : List Member) (a : ℕ) (cg : CodeGen) → (b : ℕ) × ((add_members xs (some a) cg).0 ≡ some b)
unfolding add_members
add_members-eq-some [] a cg = (a, refl)
add_members-eq-some (x ∷ xs) a cg =
    let out = add_member (some a) x cg in add_members-eq-some xs out.0 out.1

module _ (e : Env) (tmps : ℕ → Option ℕ) (cur : ℕ) (s : State) (n : ℕ)
    (words : (r : ℕ) → IsWord (s.regs r)) where
  -- The code runs to `t`, which has the registers of the function as they were.
  pub record Ready (cg : CodeGen) (t : State) : Type 0 where
    pub runs : Runs e tmps cur s cg t
    pub above : n ≤ cg.max_reg_id
    pub kept : (x : ℕ) → x ≤ n → t.regs x ≡ s.regs x

  -- The last instruction is the one that leaves `v` in `a`.
  pub record Ends (cg : CodeGen) (a v : ℕ) : Type 0 where
    pub before : State
    pub last : LastDef e tmps cur s cg before a v
    pub kept : (x : ℕ) → x ≤ n → before.regs x ≡ s.regs x

  -- From `t` the code goes on to leave `v` in `a`, with its last instruction if it grows at all.
  pub record Leaves (cg cg' : CodeGen) (t : State) (a v : ℕ) : Type 0 where
    pub step : Step e tmps cur s cg cg' t a v
    pub fits : IsWord v
    pub last : (cg' ≡ cg) ⊎ Ends cg' a v

  pub Ready-after :
      {cg cg' : CodeGen} {t : State} {a v : ℕ}
      → Ready cg t
      → (l : Step e tmps cur s cg cg' t a v) → Ready cg' l.after
  Ready-after r l = record {
    runs = l.runs;
    above = omega (arith, r.above, l.grows);
    kept = λ x h. l.kept x (omega (arith, r.above)) ∙ r.kept x h;
  }

  abbrev pub chain :
      {cg cg1 cg2 : CodeGen} {t : State} {a v b w : ℕ}
      → (l : Step e tmps cur s cg cg1 t a v) → Step e tmps cur s cg1 cg2 l.after b w
      → Step e tmps cur s cg cg2 t b w
  chain l k = record {
    after = k.after;
    runs = k.runs;
    result = k.result;
    kept = λ x h. k.kept x (omega (arith, l.grows)) ∙ l.kept x h;
    grows = omega (arith, l.grows, k.grows);
    low = k.low;
    high = k.high;
  }

  pub Leaves-emit :
      {cg cg1 : CodeGen} {t : State} {a v : ℕ} {w : ℕ} {out : ℕ × CodeGen}
      → Ready cg t
      → (l : Step e tmps cur s cg cg1 t a v) → Emitted e tmps cur s cg1 l.after out w
      → IsWord w
      → Leaves cg out.1 t out.0 w × Ends out.1 out.0 w
  Leaves-emit {w = w} {out = out} r l k f =
      let ends : Ends out.1 out.0 w = record {
        before = l.after;
        last = k.1;
        kept = (Ready-after r l).kept;
      } in
      (record { step = chain l k.0; fits = f; last = inr ends }, ends)

  -- A register as it is.
  abbrev pub keep :
      {cg : CodeGen} {t : State} (a : ℕ)
      → Ready cg t
      → 1 ≤ a
      → a ≤ cg.max_reg_id
      → Step e tmps cur s cg cg t a (t.regs a)
  keep {cg} {t} a r la ha = record {
    after = t;
    runs = r.runs;
    result = refl;
    kept = λ x h. refl;
    grows = omega arith;
    low = la;
    high = ha;
  }

  extend :
      (x : Member) (cg0 cg : CodeGen) (t : State) (a v : ℕ)
      → Ready cg0 t
      → Leaves cg0 cg t a v
      → Named n (x ∷ [])
      → suc cg.max_reg_id ≤ e.max_reg_id
      → (w : ℕ) × (w ≈ v + member s.regs x)
        × Leaves cg0 (add_member (some a) x cg).1 t (add_member (some a) x cg).0 w
  unfolding add_member compute_binary
  extend (x, true) cg0 cg t a v r l (lx, hx, _) h =
      let ready = Ready-after r l.step in
      let same : l.step.after.regs x ≡ s.regs x = ready.kept x hx in
      let w = add32 (l.step.after.regs a) (l.step.after.regs x) in
      let q : w ≈ v + s.regs x = unfold add32 in omega (arith, l.step.result, same) in
      (
        w,
        q,
        (Leaves-emit r l.step
            (apply_lem e tmps cur s BinaryCompute.add a x w cg l.step.after ready.runs h l.step.low
              l.step.high lx (omega (arith, ready.above)) refl)
            (unfold add32 in omega arith)).0,
      )
  extend (x, false) cg0 cg t a v r l (lx, hx, _) h =
      let ready = Ready-after r l.step in
      let same : l.step.after.regs x ≡ s.regs x = ready.kept x hx in
      let w = sub32 (l.step.after.regs a) (l.step.after.regs x) in
      let q : w ≈ v + minus_one * s.regs x =
        unfold sub32 in omega (arith, l.step.result, same, words x) in
      (
        w,
        q,
        (Leaves-emit r l.step
            (apply_lem e tmps cur s BinaryCompute.sub a x w cg l.step.after ready.runs h l.step.low
              l.step.high lx (omega (arith, ready.above)) refl)
            (unfold sub32 in omega arith)).0,
      )

  -- What is found behind a list of members: the register, and its value.
  abbrev Behind : List Member → CodeGen → CodeGen → State → ℕ → ℕ → Type 0
  Behind xs cg0 cg t a v =
      (b : ℕ) × (w : ℕ) × ((add_members xs (some a) cg).0 ≡ some b)
      × (w ≈ v + members s.regs xs)
      × Leaves cg0 (add_members xs (some a) cg).1 t b w

  extend_all :
      (xs : List Member) (cg0 cg : CodeGen) (t : State) (a v : ℕ)
      → Ready cg0 t
      → Leaves cg0 cg t a v
      → Named n xs
      → (add_members xs (some a) cg).1.max_reg_id ≤ e.max_reg_id
      → Behind xs cg0 cg t a v
  unfolding add_members members
  extend_all [] cg0 cg t a v r l named h = (a, v, refl, omega arith, l)
  extend_all ((x, sign) ∷ xs) cg0 cg t a v r l (lx, hx, named) h =
      let out = add_member (some a) (x, sign) cg in
      let room : suc cg.max_reg_id ≤ e.max_reg_id =
        omega (arith, one_more a x sign cg, max-add_members xs (some out.0) out.1) in
      let (w, q, l1) = extend (x, sign) cg0 cg t a v r l (lx, hx, tt) room in
      let (b, u, p, q', l2) = extend_all xs cg0 out.1 t out.0 w r l1 named h in
      (b, u, p, omega arith, l2)

  -- The code for the members of a group leaves their signed sum.
  pub all_members :
      (x : Member) (xs : List Member) (cg : CodeGen) (t : State)
      → Ready cg t
      → Named n (x ∷ xs)
      → (add_members (x ∷ xs) none cg).1.max_reg_id ≤ e.max_reg_id
      → (b : ℕ) × (w : ℕ) × ((add_members (x ∷ xs) none cg).0 ≡ some b)
        × (w ≈ members s.regs (x ∷ xs))
        × Leaves cg (add_members (x ∷ xs) none cg).1 t b w
  unfolding add_members members add_member compute_unary negate emit
  all_members (x, true) xs cg t r (lx, hx, named) h =
      let same : t.regs x ≡ s.regs x = r.kept x hx in
      let l : Leaves cg cg t x (t.regs x) = record {
        step = keep x r lx (omega (arith, r.above));
        fits = omega (arith, words x, same);
        last = inl refl;
      } in
      let (b, w, p, q, k) = extend_all xs cg cg t x (t.regs x) r l named h in
      (b, w, p, omega arith, k)
  all_members (x, false) xs cg t r (lx, hx, named) h =
      let same : t.regs x ≡ s.regs x = r.kept x hx in
      let out = negate x cg in
      let v = neg32 (t.regs x) in
      let q0 : v ≈ minus_one * s.regs x = unfold neg32 in omega (arith, same, words x) in
      let room : suc cg.max_reg_id ≤ e.max_reg_id =
        omega (arith, max-add_members xs (some out.0) out.1) in
      let id = keep x r lx (omega (arith, r.above)) in
      let emitted = negate_lem e tmps cur s x cg t r.runs room lx (omega (arith, r.above)) in
      let (l, _) = Leaves-emit r id emitted (unfold neg32 in omega arith) in
      let (b, w, p, q, k) = extend_all xs cg out.1 t out.0 v r l named h in
      (b, w, p, omega arith, k)
