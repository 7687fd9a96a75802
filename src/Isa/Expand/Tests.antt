-- ===== src/Isa/Expand/Tests.antt =====
-- The expansion of c.addi x8, -1.
use rvsim.Base.{◌≡◌, refl}
use rvsim.Isa.Expand.{expand}
use rvsim.Isa.Expand.Manual.{c_addi, valid, layout, word}
use rvsim.Isa.Expand.Correct.{expand-layout}

expand-layout_example : expand (layout (c_addi 8 63)) ≡ word (c_addi 8 63)
unfolding valid
expand-layout_example = expand-layout (c_addi 8 63) refl
