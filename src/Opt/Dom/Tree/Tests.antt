-- ===== src/Opt/Dom/Tree/Tests.antt =====
-- A numbered dominator tree of src/ir/opt/dom.cpp.
use helesta.Prelude.{◌≡◌, ◌⊎◌, ◌↔◌, inl, inr, refl, true}
use helesta.Opt.Dom.Tree.{Outs, DomTreeNode, Numbered, dfs, number, sdom, dom}
use helesta.Opt.Dom.Tree.Intervals.{In, At, dom_iff}

-- The entry 7, above 8 and 9, and 5 below 8.
abbrev outs : Outs
outs = Outs.out 8 (Outs.out 5 Outs.nil Outs.nil) (Outs.out 9 Outs.nil Outs.nil)

abbrev eight : DomTreeNode
eight = record { bb = 8; dfn = 1; size = 2; depth = 1 }

abbrev five : DomTreeNode
five = record { bb = 5; dfn = 2; size = 1; depth = 2 }

abbrev below_eight : Numbered
below_eight = Numbered.out five Numbered.nil Numbered.nil

eight-At : At (number 7 outs) eight below_eight
unfolding dfs
eight-At = inr (inl (inl (refl, refl)))

five-In : In (number 7 outs) five
unfolding dfs
five-In = inr (inl (inr (inl (inl refl))))

dom_iff_example :
    ((dom eight five ≡ true) ↔ ((five ≡ eight) ⊎ In below_eight five))
    × ((sdom eight five ≡ true) ↔ In below_eight five)
dom_iff_example = dom_iff 7 outs eight five below_eight eight-At five-In
