-- ===== src/Opt/TypeCheck/Rules.antt =====
-- Typing rules for the instructions that src/ir/opt/typecheck.cpp visits, and what its check decides of them.
use helesta.Prelude.{
  ℕ, zero, suc, ◌≡◌, ◌↔◌, refl, sym, ap, subst, ◌∙◌, fun_ext, true, none, some, List, [], ◌∷◌,
  length, All, All-append, arith,
}
use helesta.Ir.Scalar.{UnaryCompute}
use helesta.Ir.Op.{ScalarType, unary_input_type, unary_ret_type, binary_input_type, binary_ret_type}
use helesta.Common.UnionFind.{UnionFind}
use helesta.Common.UnionFind.Forest.{Root, top, Root-unique}
use helesta.Opt.TypeCheck.{
  Instr, Verdict, int_node, float_node, reg_node, scalar_node, float_args, phi_merges, merges,
  all_merges, type_check,
}
use helesta.Opt.TypeCheck.Classes.{Kind}
use helesta.Opt.TypeCheck.Correct.{Labels, check_all_lem}

abbrev pub scalar_kind : ScalarType → Kind
scalar_kind ScalarType.float = Kind.float
scalar_kind _ = Kind.int

-- The rules. An integer argument, a loaded value, a stored value and the integer arguments of a call may be of any
-- kind.
abbrev pub WellTyped : (ℕ → Kind) → Instr → Type 0
WellTyped τ (Instr.load_addr d) = τ d ≡ Kind.addr
WellTyped τ (Instr.load_const_int d) = τ d ≡ Kind.int
WellTyped τ (Instr.load_const_float d) = τ d ≡ Kind.float
WellTyped τ (Instr.load_arg_int d) = Unit {0}
WellTyped τ (Instr.load_arg_float d) = τ d ≡ Kind.float
WellTyped τ (Instr.unary_op d s UnaryCompute.id) = τ d ≡ τ s
WellTyped τ (Instr.unary_op d s op) =
    (τ d ≡ scalar_kind (unary_ret_type op)) × (τ s ≡ scalar_kind (unary_input_type op))
WellTyped τ (Instr.binary_op d a b op) =
    (τ d ≡ scalar_kind (binary_ret_type op))
    × (τ a ≡ scalar_kind (binary_input_type op))
    × (τ b ≡ scalar_kind (binary_input_type op))
WellTyped τ (Instr.array_index d a b) = (τ d ≡ Kind.addr) × (τ a ≡ Kind.addr) × (τ b ≡ Kind.int)
WellTyped τ (Instr.load d a) = τ a ≡ Kind.addr
WellTyped τ (Instr.store a s) = τ a ≡ Kind.addr
WellTyped τ Instr.jump = Unit {0}
WellTyped τ (Instr.branch c) = τ c ≡ Kind.int
WellTyped τ (Instr.return_int s) = τ s ≡ Kind.int
WellTyped τ (Instr.return_float s) = τ s ≡ Kind.float
WellTyped τ (Instr.call d args t) =
    All (λ a. a.1 ≡ ScalarType.float → τ a.0 ≡ Kind.float) args
    × (t ≡ ScalarType.float → τ d ≡ Kind.float)
    × (t ≡ ScalarType.int → τ d ≡ Kind.int)
WellTyped τ (Instr.phi d rs) = All (λ r. τ d ≡ τ r) rs

-- The kinds of the nodes for kinds of the registers.
abbrev pub node_kind : (ℕ → Kind) → ℕ → Kind
node_kind τ zero = Kind.int
node_kind τ (suc zero) = Kind.float
node_kind τ (suc (suc zero)) = Kind.addr
node_kind τ (suc (suc (suc r))) = τ r

module _ (τ : ℕ → Kind) where
  abbrev Agrees : List (ℕ × ℕ) → Type 0
  Agrees = All (λ m. node_kind τ m.0 ≡ node_kind τ m.1)

  scalar_kind-scalar_node : (t : ScalarType) → node_kind τ (scalar_node t) ≡ scalar_kind t
  scalar_kind-scalar_node ScalarType.void = refl
  scalar_kind-scalar_node ScalarType.int = refl
  scalar_kind-scalar_node ScalarType.float = refl
  scalar_kind-scalar_node ScalarType.char = refl

  float_args-All :
      (args : List (ℕ × ScalarType))
      → Agrees (float_args args) ↔ All (λ a. a.1 ≡ ScalarType.float → τ a.0 ≡ Kind.float) args
  float_args-All [] = ((λ h. h), (λ h. h))
  float_args-All ((r, ScalarType.float) ∷ args) =
      let i = float_args-All args in ((λ (e, h). ((λ _. e), i.0 h)), (λ (f, h). (f refl, i.1 h)))
  float_args-All ((r, ScalarType.void) ∷ args) =
      let i = float_args-All args in ((λ h. ((λ e. cc), i.0 h)), (λ (f, h). i.1 h))
  float_args-All ((r, ScalarType.int) ∷ args) =
      let i = float_args-All args in ((λ h. ((λ e. cc), i.0 h)), (λ (f, h). i.1 h))
  float_args-All ((r, ScalarType.char) ∷ args) =
      let i = float_args-All args in ((λ h. ((λ e. cc), i.0 h)), (λ (f, h). i.1 h))

  phi_merges-All : (d : ℕ) (rs : List ℕ) → Agrees (phi_merges d rs) ↔ All (λ r. τ d ≡ τ r) rs
  phi_merges-All d [] = ((λ h. h), (λ h. h))
  phi_merges-All d (r ∷ rs) =
      let i = phi_merges-All d rs in ((λ (e, h). (e, i.0 h)), (λ (e, h). (e, i.1 h)))

  two :
      (d s : ℕ) (t u : ScalarType)
      → Agrees ((reg_node d, scalar_node t) ∷ (reg_node s, scalar_node u) ∷ [])
        ↔ ((τ d ≡ scalar_kind t) × (τ s ≡ scalar_kind u))
  two d s t u =
      let a = scalar_kind-scalar_node t in
      let b = scalar_kind-scalar_node u in
      ((λ (p, (q, _)). (p ∙ a, q ∙ b)), (λ (p, q). (p ∙ sym a, (q ∙ sym b, tt))))

  call_merges-WellTyped :
      (d : ℕ) (args : List (ℕ × ScalarType)) (t : ScalarType)
      → Agrees (merges (Instr.call d args t)) ↔ WellTyped τ (Instr.call d args t)
  unfolding merges
  call_merges-WellTyped d args ScalarType.void =
      let i = float_args-All args in ((λ h. (i.0 h, (λ e. cc), (λ e. cc))), (λ (h, _, _). i.1 h))
  call_merges-WellTyped d args ScalarType.char =
      let i = float_args-All args in ((λ h. (i.0 h, (λ e. cc), (λ e. cc))), (λ (h, _, _). i.1 h))
  call_merges-WellTyped d args ScalarType.int =
      let i = float_args-All args in
      let c =
        All-append (λ m. node_kind τ m.0 ≡ node_kind τ m.1) (float_args args)
          ((reg_node d, int_node) ∷ []) in
      (
        (λ h. let (p, (q, _)) = c.0 h in (i.0 p, (λ e. cc), (λ _. q))),
        (λ (h, _, f). c.1 (i.1 h, (f refl, tt))),
      )
  call_merges-WellTyped d args ScalarType.float =
      let i = float_args-All args in
      let c =
        All-append (λ m. node_kind τ m.0 ≡ node_kind τ m.1) (float_args args)
          ((reg_node d, float_node) ∷ []) in
      (
        (λ h. let (p, (q, _)) = c.0 h in (i.0 p, (λ _. q), (λ e. cc))),
        (λ (h, f, _). c.1 (i.1 h, (f refl, tt))),
      )

  -- The merges of an instruction join nodes of one kind where it is well typed.
  merges-WellTyped : (i : Instr) → Agrees (merges i) ↔ WellTyped τ i
  unfolding merges
  merges-WellTyped (Instr.load_addr d) = ((λ h. h.0), (λ e. (e, tt)))
  merges-WellTyped (Instr.load_const_int d) = ((λ h. h.0), (λ e. (e, tt)))
  merges-WellTyped (Instr.load_const_float d) = ((λ h. h.0), (λ e. (e, tt)))
  merges-WellTyped (Instr.load_arg_int d) = ((λ h. h), (λ h. h))
  merges-WellTyped (Instr.load_arg_float d) = ((λ h. h.0), (λ e. (e, tt)))
  merges-WellTyped (Instr.unary_op d s UnaryCompute.lnot) =
      two d s (unary_ret_type UnaryCompute.lnot) (unary_input_type UnaryCompute.lnot)
  merges-WellTyped (Instr.unary_op d s UnaryCompute.neg) =
      two d s (unary_ret_type UnaryCompute.neg) (unary_input_type UnaryCompute.neg)
  merges-WellTyped (Instr.unary_op d s UnaryCompute.id) = ((λ h. h.0), (λ e. (e, tt)))
  merges-WellTyped (Instr.unary_op d s UnaryCompute.fneg) =
      two d s (unary_ret_type UnaryCompute.fneg) (unary_input_type UnaryCompute.fneg)
  merges-WellTyped (Instr.unary_op d s UnaryCompute.f2i) =
      two d s (unary_ret_type UnaryCompute.f2i) (unary_input_type UnaryCompute.f2i)
  merges-WellTyped (Instr.unary_op d s UnaryCompute.i2f) =
      two d s (unary_ret_type UnaryCompute.i2f) (unary_input_type UnaryCompute.i2f)
  merges-WellTyped (Instr.unary_op d s UnaryCompute.f2d0) =
      two d s (unary_ret_type UnaryCompute.f2d0) (unary_input_type UnaryCompute.f2d0)
  merges-WellTyped (Instr.unary_op d s UnaryCompute.f2d1) =
      two d s (unary_ret_type UnaryCompute.f2d1) (unary_input_type UnaryCompute.f2d1)
  merges-WellTyped (Instr.binary_op d a b op) =
      let x = scalar_kind-scalar_node (binary_ret_type op) in
      let y = scalar_kind-scalar_node (binary_input_type op) in
      (
        (λ (p, (q, (r, _))). (p ∙ x, q ∙ y, r ∙ y)),
        (λ (p, q, r). (p ∙ sym x, (q ∙ sym y, (r ∙ sym y, tt)))),
      )
  merges-WellTyped (Instr.array_index d a b) =
      ((λ (p, (q, (r, _))). (p, q, r)), (λ (p, q, r). (p, (q, (r, tt)))))
  merges-WellTyped (Instr.load d a) = ((λ h. h.0), (λ e. (e, tt)))
  merges-WellTyped (Instr.store a s) = ((λ h. h.0), (λ e. (e, tt)))
  merges-WellTyped Instr.jump = ((λ h. h), (λ h. h))
  merges-WellTyped (Instr.branch c) = ((λ h. h.0), (λ e. (e, tt)))
  merges-WellTyped (Instr.return_int s) = ((λ h. h.0), (λ e. (e, tt)))
  merges-WellTyped (Instr.return_float s) = ((λ h. h.0), (λ e. (e, tt)))
  merges-WellTyped (Instr.call d args t) = call_merges-WellTyped d args t
  merges-WellTyped (Instr.phi d rs) = phi_merges-All d rs

  all_merges-WellTyped : (code : List Instr) → Agrees (all_merges code) ↔ All (WellTyped τ) code
  all_merges-WellTyped [] = ((λ h. h), (λ h. h))
  all_merges-WellTyped (i ∷ is) =
      let a = merges-WellTyped i in
      let b = all_merges-WellTyped is in
      let c = All-append (λ m. node_kind τ m.0 ≡ node_kind τ m.1) (merges i) (all_merges is) in
      ((λ h. let (p, q) = c.0 h in (a.0 p, b.0 q)), (λ (p, q). c.1 (a.1 p, b.1 q)))

-- Labels of the nodes are kinds of the registers.
Labels-node_kind :
    (t : ℕ → Kind) (u : UnionFind) (ms : List (ℕ × ℕ))
    → Labels t u ms
    → node_kind (λ r. t (reg_node r)) ≡ t
Labels-node_kind t u ms l = fun_ext same
  where
    same : (x : ℕ) → node_kind (λ r. t (reg_node r)) x ≡ t x
    same zero = sym l.ints
    same (suc zero) = sym l.floats
    same (suc (suc zero)) = sym l.addrs
    same (suc (suc (suc r))) = refl

-- The check of a list of instructions ends, and succeeds exactly where the registers have kinds with which all of
-- them are well typed.
pub type_check_lem :
    (code : List Instr)
    → (v : Verdict) × (type_check code ≡ some v)
      × ((v ≡ Verdict.checked true) ↔ ((τ : ℕ → Kind) × All (WellTyped τ) code))
unfolding type_check
type_check_lem code =
    let empty : UnionFind = λ _. none in
    let ms = all_merges code in
    let alone : (x : ℕ) → Root empty x x 0 = λ x. top x refl in
    let (v, e, i) =
      check_all_lem (suc (length ms)) 0 empty ms (λ x. (x, 0, omega arith, alone x))
        (omega arith) in
    (
      v,
      e,
      (
        (λ p.
            let (t, l) = i.0 p in
            let τ : ℕ → Kind = λ r. t (reg_node r) in
            (
              τ,
              (all_merges-WellTyped τ code).0 (
                  subst (λ f. All (λ m. f m.0 ≡ f m.1) ms) (sym (Labels-node_kind t empty ms l))
                    l.agrees),
            )),
        (λ (τ, h). i.1 (
          node_kind τ,
          record {
            ints = refl;
            floats = refl;
            addrs = refl;
            classes = λ x r n w. ap (node_kind τ) (sym (Root-unique empty (alone x) w).0);
            agrees = (all_merges-WellTyped τ code).1 h;
          },
        )),
      ),
    )
