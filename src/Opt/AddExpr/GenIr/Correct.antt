-- ===== src/Opt/AddExpr/GenIr/Correct.antt =====
-- The code that `genIR` (src/ir/opt/simplify_expr.cpp) prints for a linear form, run, against the value
-- of the form.
use helesta.Prelude.{
  ℕ, suc, ◌+◌, ◌*◌, ◌≤◌, ◌≡◌, ◌≢◌, ◌⊎◌, inl, inr, refl, sym, ap, subst, ◌∙◌, true, Option, none,
  some, List, [], ◌∷◌, ◌==◌, ==_iff, Bool-cases, arith, update_self, update_ne,
}
use helesta.Prelude.Word.{IsWord}
use helesta.Prelude.Word.Modular.{◌≈◌, ≈_mul}
use helesta.Ir.Scalar.{UnaryCompute, compute_unary}
use helesta.Ir.Exec.{Instr, Env, State, is_reg}
use helesta.Ir.Exec.Lines.{Line, done, then_, wrote, Line-unary_op}
use helesta.Ir.CodeGen.{CodeGen, emit, lc, set_last_def, redirect}
use helesta.Ir.CodeGen.Run.{LastDef, lc_lem, set_last_def_lem, old-is_reg}
use helesta.Opt.AddExpr.{AddExpr, value}
use helesta.Opt.AddExpr.GenIr.{
  Member, Groups, add_member, add_members, positive_first, scale, add_sum, gen_group, gen_groups,
  start_sum, final_sum, group, gen_ir,
}
use helesta.Opt.AddExpr.GenIr.Groups.{
  members, groups, members-positive_first, groups-group, Words, Named, NamedGroups, InRange,
  NamedGroups-group, Named-positive_first,
}
use helesta.Opt.AddExpr.GenIr.Members.{
  Ready, Ends, Ready-after, all_members, add_members-eq-some, max-add_members,
}
use helesta.Opt.AddExpr.GenIr.Sums.{Found, Summed, scale_lem, add_sum_lem, max-scale, max-add_sum}

first-eq-some :
    (y : Member) (ys : List Member) (cg : CodeGen)
    → (b : ℕ) × ((add_members (y ∷ ys) none cg).0 ≡ some b)
unfolding add_members
first-eq-some y ys cg = let out = add_member none y cg in add_members-eq-some ys out.0 out.1

Line_nil :
    (e : Env) (tmps : ℕ → Option ℕ) (cur : ℕ) {is : List Instr} {s t : State}
    → Line e tmps cur is s t
    → is ≡ []
    → s ≡ t
Line_nil e tmps cur done h = refl
Line_nil e tmps cur (then_ _ _) h = cc

group_eq :
    (a b : ℕ) (y : Member) (xs ys : List Member) (sum : Option ℕ) (cg : CodeGen)
    → positive_first xs ≡ y ∷ ys
    → (add_members (y ∷ ys) none cg).0 ≡ some b
    → let k : CodeGen = (add_members (y ∷ ys) none cg).1 in
      gen_group a xs sum cg ≡ some (add_sum sum (scale a b k).0 (scale a b k).1)
unfolding gen_group
group_eq a b y xs ys sum cg p q = rw (p, q) refl

module _ (e : Env) (tmps : ℕ → Option ℕ) (cur : ℕ) (s : State) (n : ℕ)
    (words : (r : ℕ) → IsWord (s.regs r)) where
  -- What the code so far leaves: a sum in its register, if it has one.
  record Total (cg : CodeGen) (sum : Option ℕ) (v : ℕ) : Type 0 where
    state : State
    ready : Ready e tmps cur s n words cg state
    fits : IsWord v
    summed : Summed e tmps cur s n words sum cg state v
    last :
        ((cg.instrs ≡ []) × (state ≡ s))
        ⊎ ((a : ℕ) × (sum ≡ some a) × Ends e tmps cur s n words cg a v)

  Total-Found :
      (sum : Option ℕ) (cg cg' : CodeGen) (y v w : ℕ)
      → (o : Total cg sum v) → (l : Found e tmps cur s n words cg cg' o.state y w)
      → ((sum ≡ none) ⊎ Ends e tmps cur s n words cg' y w)
      → Total cg' (some y) w
  Total-Found sum cg cg' y v w o l k = record {
    state = l.step.after;
    ready = Ready-after e tmps cur s n words o.ready l.step;
    fits = l.fits;
    summed = (l.step.low, l.step.high, l.step.result);
    last = elim k [
      | inr ends ↦ inr (y, refl, ends)
      | inl none_before ↦ elim (l.last) [
        | inr ends ↦ inr (y, refl, ends)
        | inl same ↦ elim (o.last) [
          | inr (a, q, _) ↦ cc
          | inl (nil, _) ↦
              let empty : cg'.instrs ≡ [] = ap (λ (c : CodeGen). c.instrs) same ∙ nil in
              inl (empty, sym (Line_nil e tmps cur l.step.runs empty))
        ]
      ]
    ];
  }

  group_lem :
      (a : ℕ) (xs : List Member) (sum : Option ℕ) (cg : CodeGen)
      → xs ≢ []
      → Named n xs
      → (out : ℕ × CodeGen) × (gen_group a xs sum cg ≡ some out)
        × (cg.max_reg_id ≤ out.1.max_reg_id)
        × ((v : ℕ)
            → Total cg sum v
            → out.1.max_reg_id ≤ e.max_reg_id
            → (w : ℕ) × (w ≈ v + a * members s.regs xs) × Total out.1 (some out.0) w)
  group_lem a xs sum cg ne named =
      let ((y, sign), ys, p, named') = Named-positive_first n xs ne named in
      let k : CodeGen = (add_members ((y, sign) ∷ ys) none cg).1 in
      let (b, q) = first-eq-some (y, sign) ys cg in
      let c = (scale a b k).1 in
      let grown : k.max_reg_id ≤ (add_sum sum (scale a b k).0 c).1.max_reg_id =
        omega (arith, max-scale a b k, max-add_sum sum (scale a b k).0 c) in
      (
        add_sum sum (scale a b k).0 c,
        group_eq a b (y, sign) xs ys sum cg p q,
        omega (arith, grown, max-add_members ((y, sign) ∷ ys) none cg),
        λ v o room.
            let (b', u, q', u_is, l) =
              all_members e tmps cur s n words (y, sign) ys cg o.state o.ready named'
                (omega (arith, grown)) in
            let same : b' ≡ b = ground arith in
            let l1 : Found e tmps cur s n words cg k o.state b u =
              subst (λ r. Found e tmps cur s n words cg k o.state r u) same l in
            let (w, w_is, l2) =
              scale_lem e tmps cur s n words a b u cg k o.state o.ready l1
                (omega (arith, max-add_sum sum (scale a b k).0 c)) in
            let (z, z_is, l3, ends) =
              add_sum_lem e tmps cur s n words sum (scale a b k).0 v w cg c o.state o.ready o.summed
                l2 room in
            let total : members s.regs ((y, sign) ∷ ys) ≡ members s.regs xs =
              ap (members s.regs) (sym p) ∙ members-positive_first s.regs xs in
            let scaled : a * u ≈ a * members s.regs xs =
              ≈_mul a a u (members s.regs xs) refl (omega (arith, u_is, total)) in
            (
              z,
              omega arith,
              Total-Found sum cg (add_sum sum (scale a b k).0 c).1 (add_sum sum (scale a b k).0 c).0
                  v z o l3 ends,
            ),
      )

  groups_lem :
      (mp : Groups) (sum : Option ℕ) (cg : CodeGen)
      → NamedGroups n mp
      → (out : Option ℕ × CodeGen) × (gen_groups mp sum cg ≡ some out)
        × (cg.max_reg_id ≤ out.1.max_reg_id)
        × ((v : ℕ)
            → Total cg sum v
            → out.1.max_reg_id ≤ e.max_reg_id
            → (w : ℕ) × (w ≈ v + groups s.regs mp) × Total out.1 out.0 w)
  unfolding gen_groups groups
  groups_lem [] sum cg h = ((sum, cg), refl, omega arith, λ v o room. (v, omega arith, o))
  groups_lem ((a, xs) ∷ mp) sum cg (ne, named, h) =
      let ((y, cg1), q, grows, one) = group_lem a xs sum cg ne named in
      let (out, q', grows', more) = groups_lem mp (some y) cg1 h in
      (
        out,
        rw (gen_groups, q) q',
        omega arith,
        λ v o room.
            let (w, w_is, o1) = one v o (omega (arith, room)) in
            let (u, u_is, o2) = more w o1 room in (u, omega arith, o2),
      )

  abbrev blank : CodeGen
  blank = record { instrs = []; max_reg_id = n }

  blank-Ready : Ready e tmps cur s n words blank s
  blank-Ready = record { runs = done; above = omega arith; kept = λ x h. refl }

  start_Total : Total blank none 0
  start_Total = record {
    state = s;
    ready = blank-Ready;
    fits = omega arith;
    summed = refl;
    last = inl (refl, refl);
  }

  lc-Total :
      (c : ℕ) → IsWord c → suc n ≤ e.max_reg_id → Total (lc c blank).1 (some (lc c blank).0) c
  lc-Total c w h =
      let (k, l) = lc_lem e tmps cur s c blank s done h in
      record {
        state = k.after;
        ready = Ready-after e tmps cur s n words blank-Ready k;
        fits = w;
        summed = (k.low, k.high, k.result);
        last = inr ((lc c blank).0, refl, record { before = s; last = l; kept = λ x h. refl });
      }

  start_lem :
      (c : ℕ)
      → IsWord c
      → (n ≤ (start_sum c blank).1.max_reg_id)
        × ((start_sum c blank).1.max_reg_id ≤ e.max_reg_id
            → Total (start_sum c blank).1 (start_sum c blank).0 c)
  unfolding start_sum lc emit
  start_lem c w = elim (Bool-cases (c == 0)) [
    | inl q ↦
        let zero_c : c ≡ 0 = (==_iff c 0).0 q in
        rw (start_sum, q)
          (omega arith, λ _. subst (λ v. Total blank none v) (sym zero_c) start_Total)
    | inr q ↦ rw (start_sum, q) (omega arith, λ h. lc-Total c w h)
  ]

  -- The register holds the value, and the others of the function are as they were.
  pub record Sets (is : List Instr) (r v : ℕ) : Type 0 where
    pub state : State
    pub line : Line e tmps cur is s state
    pub result : state.regs r ≡ v
    pub kept : (x : ℕ) → x ≤ n → x ≢ r → state.regs x ≡ s.regs x

  finish :
      (cg : CodeGen) (a r v : ℕ)
      → Total cg (some a) v
      → 1 ≤ r
      → r ≤ n
      → cg.max_reg_id ≤ e.max_reg_id
      → Sets (set_last_def r a cg).instrs r v
  unfolding set_last_def redirect compute_unary
  finish cg a r v o lr hr h =
      let rr : is_reg e r ≡ true = old-is_reg e tmps cur s r lr (omega (arith, o.ready.above)) in
      elim (o.last) [
        | inr (b, q, ends) ↦
            let same : b ≡ a = ground arith in
            let last = subst (λ c. LastDef e tmps cur s cg ends.before c v) same ends.last in
            record {
              state = wrote ends.before r v;
              line = set_last_def_lem e tmps cur s cg ends.before r a v last rr;
              result = update_self ends.before.regs r v;
              kept = λ x hx ne. update_ne ends.before.regs r v x ne ∙ ends.kept x hx;
            }
        | inl (nil, st) ↦
            let (la, ha, ra) = o.summed in
            let held : s.regs a ≡ v = subst (λ t. t.regs a ≡ v) st ra in
            let line =
              Line-unary_op e tmps cur r a UnaryCompute.id s rr
                (old-is_reg e tmps cur s a la (omega arith)) in
            let code : redirect r a cg.instrs ≡ Instr.unary_op r a UnaryCompute.id ∷ [] =
              ap (redirect r a) nil in
            let w = compute_unary e.unit UnaryCompute.id (s.regs a) in
            record {
              state = wrote s r w;
              line = subst (λ is. Line e tmps cur is s (wrote s r w)) (sym code) line;
              result = update_self s.regs r w ∙ held;
              kept = λ x hx ne. update_ne s.regs r w x ne;
            }
      ]

  last_lem :
      (sum : Option ℕ) (cg : CodeGen)
      → (cg.max_reg_id ≤ (final_sum sum cg).1.max_reg_id)
        × ((v : ℕ)
            → Total cg sum v
            → (final_sum sum cg).1.max_reg_id ≤ e.max_reg_id
            → Total (final_sum sum cg).1 (some (final_sum sum cg).0) v)
  unfolding final_sum lc emit
  last_lem (some a) cg = (omega arith, λ v o h. o)
  last_lem none cg = (
    omega arith,
    λ v o h.
        let (k, l) = lc_lem e tmps cur s 0 cg o.state o.ready.runs h in
        record {
          state = k.after;
          ready = Ready-after e tmps cur s n words o.ready k;
          fits = o.fits;
          summed = (k.low, k.high, k.result ∙ sym o.summed);
          last = inr (
            (lc 0 cg).0,
            refl,
            record {
              before = o.state;
              last = subst (LastDef e tmps cur s (lc 0 cg).1 o.state (lc 0 cg).0) (sym o.summed) l;
              kept = o.ready.kept;
            },
          );
        },
  )

  -- `genIR` comes to an end with code for the form: run in a function that has the registers that the
  -- code names, it leaves the value of the form in the register `r`, and keeps every other register
  -- of the `n` that the function had before. Registers hold words, coefficients are words, and the
  -- form names registers of the function.
  pub gen_ir_correct :
      (x : AddExpr) (r : ℕ)
      → IsWord x.c
      → Words x.cs
      → InRange n x.cs
      → 1 ≤ r
      → r ≤ n
      → (cg : CodeGen) × (gen_ir x r n ≡ some cg)
        × (cg.max_reg_id ≤ e.max_reg_id → Sets cg.instrs r (value s.regs x))
  unfolding gen_ir
  gen_ir_correct x r wc ws named lr hr =
      let (first_grows, first) = start_lem x.c wc in
      let start = start_sum x.c blank in
      let ((sum, cg), q, grows, rest) =
        groups_lem (group x.cs []) start.0 start.1 (NamedGroups-group n x.cs [] named tt) in
      let (last_grows, last) = last_lem sum cg in
      let out = final_sum sum cg in
      (
        set_last_def r out.0 out.1,
        rw q refl,
        λ room.
            let room' : out.1.max_reg_id ≤ e.max_reg_id = unfold set_last_def in room in
            let (v, v_is, total_v) =
              rest x.c (first (omega (arith, room', last_grows, grows)))
                (omega (arith, room', last_grows)) in
            let o = last v total_v room' in
            let is_value : v ≡ value s.regs x =
              unfold value groups in omega (arith, v_is, o.fits, groups-group s.regs x.cs [] ws) in
            subst (Sets (set_last_def r out.0 out.1).instrs r) is_value
              (finish out.1 out.0 r v o lr hr room'),
      )
