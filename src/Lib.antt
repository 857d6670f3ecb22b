-- ===== src/Lib.antt =====
-- helesta, a compiler from SysY to ARMv7 assembly: a model of its core, with the theorems below.
--
-- The program parses a source file (src/parser, generated), walks the tree and emits IR (src/ast),
-- rewrites the IR pass by pass (src/ir/opt), and turns it into assembly (src/arm). A simulator of
-- the IR (`exec` of src/ir/ir.cpp) runs a program without the back end; what a pass has to keep is
-- what the simulator computes. The front end evaluates constant expressions while it walks the
-- tree, with the same grammar actions that emit code for the others, and the passes fold constants
-- with the operators of src/ir/scalar.hpp, so one operator has up to four implementations.
--
-- The files, and the code that each is about:
--   Ir/Scalar      src/ir/scalar.hpp: the operators on typed and on typeless scalars, and the tests
--                  that value numbering asks (`is_useless_compute`, `is_commutable_compute`).
--   Ir/Op          src/ir/ir.hpp: the constructors of `UnaryOp` and `BinaryOp`, by operand type.
--   Ir/Exec        src/ir/ir.hpp and `exec` of src/ir/ir.cpp: instructions, blocks and the run of one
--                  function with registers, memory, counters and phi functions.
--   Ir/Instr, Ir/CodeGen  the registers an instruction reads and writes, and `CodeGen` of
--                  src/ir/ir.hpp.
--   Ast/InitValue  src/ast/init_value.cpp: constant evaluation, with its errors.
--   Ast/Expr       src/ast/ast_visitor.cpp: the expression visitor in its two modes, `const_value`
--                  for the one that computes a constant and `lower` for the one that emits code.
--   Ast/SymbolTable  src/ast/symbol_table.cpp: `Type` (here `VarType`), the indices of arrays, and
--                  the chain of scopes (`VariableTable`).
--   Opt/RegMap, Opt/AddExpr  src/ir/opt/add_expr.hpp and src/ir/opt/simplify_expr.cpp: linear forms
--                  over a sorted map from registers to coefficients.
--   Opt/AddExpr/GenIr  `AddExpr::genIR` of src/ir/opt/simplify_expr.cpp: a linear form as instructions.
--   Opt/SimplifyExpr  `SimplifyExpr::getExpr` of the same file, over the instructions of a block, and in
--                  Replace the code that takes the place of an instruction.
--   Opt/Dom        src/ir/opt/dom.cpp: the searches of `construct_dom_tree` and the fathers they give, and in
--                  Tree the intervals of the tree, with `dom` and `sdom` of src/ir/opt/dom.hpp.
--   Opt/PhiInsertion  `phi_insertion` of src/ir/opt/ssa_constrcution.cpp: the blocks that get a phi function.
--   Opt/UnusedDef  src/ir/opt/remove_unused_def.cpp: the removal of instructions that nothing needs.
--   Opt/TypeCheck  src/ir/opt/typecheck.cpp: the kinds of the registers, by union-find.
--   Opt/CmpExpr    `CmpOp` and `CmpExpr` of src/ir/opt/add_expr.hpp and src/ir/opt/loop_ops.cpp.
--   Arm/Immediate  `is_legal_immediate` of src/arm/archinfo.hpp, `load_imm` and `reg_imm_sum` of
--                  src/arm/inst.cpp. What the instructions do is a parameter with laws, `IsArm`.
--   Arm/Cond       `InstCond` of src/arm/block.hpp and its functions in src/arm/inst.cpp.
--   Arm/Inst       src/arm/inst.hpp: the instructions, with the registers they read, write and rename.
--   Arm/Live       `calc_live` of src/arm/program.cpp: the live registers at the ends of the blocks.
--   Arm/Dce        src/arm/opt/dce.cpp over a function, with `update_live` of src/arm/inst.hpp. What an
--                  instruction does is a parameter with laws, `IsMachine`.
--   Arm/Interference  `build_graph` of src/arm/simple_coloring_alloc.hpp: the interference graph of the registers
--                  of one type, from the live registers.
--   Arm/Coloring   src/arm/simple_coloring_alloc.hpp: the registers of an interference graph, or the nodes to
--                  spill, with the conventions of src/arm/archinfo.hpp. `Allocation.stuck` is the failed
--                  assertion of `choose_spill`.
--   Common/UnionFind  `UnionFind` of src/common/common.hpp.
--   Prelude        numbers, lists, options and words that all of these share.
--
-- An `int32_t` or a `float` is its bit pattern, a number below 2 ^ 32, and its arithmetic wraps as
-- the compiled code's does; `signed` reads a pattern as an integer. A `MemSize` wraps at 2 ^ 64. The
-- operations on floats are a parameter, `FloatUnit`: theorems that need a law of it say so. Shifts by
-- 32 or more, which the language of the source leaves open, are in that parameter too. Exceptions,
-- failed assertions and traps of the host are missing results, or the errors of `Result` where the
-- front end tells them apart. Registers are numbers and blocks are named by their places.
--
-- Nine functions take fuel. The search `dfs` of Opt/Dom has a unit for each call in a chain of calls;
-- every call but the last of a chain marks a node, so `search` gives one unit more than there are nodes.
-- The queue of Opt/UnusedDef, `mark`, has a unit for each place that is ever queued and one for its end.
-- `drain` of Opt/PhiInsertion has one for each definition and each block, and one for its end.
-- `simplify` of Arm/Coloring has one for each node left and one for its end, and so has `spill_all`, which removes a
-- node in each round. `check_all` of Opt/TypeCheck passes
-- to each search one more than there are merges, since a merge makes the way to a root one step longer.
-- `spread` of Arm/Live has one for each entry of the first queue, one for each such entry and each block,
-- and one for its end. `find` of Common/UnionFind has one for each step up to the root and one for the root. The
-- simulator's `run` has one for each block entered; the theorems are about `steps`, the instructions of one block,
-- which is structural, or about any run that returns, with any fuel. All other functions are structural
-- recursions.
--
-- Not modelled: the generated parser and its runtime; calls, simulated threads, vector instructions
-- and library functions in the simulator; statements, declarations, conditions with jumps and array
-- accesses in the visitor; which instructions SimplifyExpr replaces and its deletion loop; the tree and the
-- frontiers made from the fathers; the other passes, instruction selection, the
-- code that `spill` of register allocation inserts and the second allocator, and the peephole passes of the
-- back end. Printing and logging have no model.
pub mod Arm
pub mod Ast
pub mod Common
pub mod Ir
pub mod Opt
pub mod Prelude
