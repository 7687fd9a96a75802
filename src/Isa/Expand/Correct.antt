-- ===== src/Isa/Expand/Correct.antt =====
-- The expansion of compressed instructions against the manual, by evaluation at all operands.
use rvsim.Base.{ℕ, ◌<◌, ◌≡◌, refl, arith, Bool, true, ◌==◌, ==_iff, if◌then◌else◌}
use rvsim.Base.Bits.{passes_below, passes_below_at}
use rvsim.Isa.Expand.{expand}
use rvsim.Isa.Expand.Manual.{
  Compressed, valid, layout, word, c_addi4spn, c_fld, c_lw, c_ld, c_fsd, c_sw, c_sd, c_addi,
  c_addiw, c_li, c_addi16sp, c_lui, c_srli, c_srai, c_andi, c_sub, c_xor, c_or, c_and, c_subw,
  c_addw, c_j, c_beqz, c_bnez, c_slli, c_fldsp, c_lwsp, c_ldsp, c_jr, c_mv, c_ebreak, c_jalr, c_add,
  c_fsdsp, c_swsp, c_sdsp,
}

abbrev agrees : Compressed → Bool
agrees c = if valid c then expand (layout c) == word c else true

agrees_at :
    (c : Compressed) → agrees c ≡ true → valid c ≡ true → (expand (layout c) == word c) ≡ true
agrees_at c h v = ground arith

by_table1 :
    (c : ℕ → Compressed) (m a : ℕ)
    → passes_below (λ a. agrees (c a)) m ≡ true
    → a < m
    → valid (c a) ≡ true
    → (expand (layout (c a)) == word (c a)) ≡ true
by_table1 c m a h p v = agrees_at (c a) (passes_below_at (λ a. agrees (c a)) m a h p) v

by_table2 :
    (c : ℕ → ℕ → Compressed) (m a n b : ℕ)
    → passes_below (λ a. passes_below (λ b. agrees (c a b)) n) m ≡ true
    → a < m
    → b < n
    → valid (c a b) ≡ true
    → (expand (layout (c a b)) == word (c a b)) ≡ true
by_table2 c m a n b h p q v =
    by_table1 (c a) n b (passes_below_at (λ a. passes_below (λ b. agrees (c a b)) n) m a h p) q v

by_table3 :
    (c : ℕ → ℕ → ℕ → Compressed) (m a n b k d : ℕ)
    → passes_below (λ a. passes_below (λ b. passes_below (λ d. agrees (c a b d)) k) n) m ≡ true
    → a < m
    → b < n
    → d < k
    → valid (c a b d) ≡ true
    → (expand (layout (c a b d)) == word (c a b d)) ≡ true
by_table3 c m a n b k d h p q r v =
    by_table2 (c a) n b k d
      (passes_below_at (λ a. passes_below (λ b. passes_below (λ d. agrees (c a b d)) k) n) m a h p)
      q r v

-- Every compressed instruction of the manual, at all operands that fit its fields, is expanded to
-- the 32-bit instruction that it stands for.
pub expand-layout : (c : Compressed) → valid c ≡ true → expand (layout c) ≡ word c
unfolding expand valid layout word
expand-layout (c_addi4spn rd u) h =
    (==_iff _ _).0 (by_table2 c_addi4spn 8 rd 256 u refl (ground arith) (ground arith) h)
expand-layout (c_fld rd rs u) h =
    (==_iff _ _).0
      (by_table3 c_fld 8 rd 8 rs 32 u refl (ground arith) (ground arith) (ground arith) h)
expand-layout (c_lw rd rs u) h =
    (==_iff _ _).0
      (by_table3 c_lw 8 rd 8 rs 32 u refl (ground arith) (ground arith) (ground arith) h)
expand-layout (c_ld rd rs u) h =
    (==_iff _ _).0
      (by_table3 c_ld 8 rd 8 rs 32 u refl (ground arith) (ground arith) (ground arith) h)
expand-layout (c_fsd rd rs u) h =
    (==_iff _ _).0
      (by_table3 c_fsd 8 rd 8 rs 32 u refl (ground arith) (ground arith) (ground arith) h)
expand-layout (c_sw rd rs u) h =
    (==_iff _ _).0
      (by_table3 c_sw 8 rd 8 rs 32 u refl (ground arith) (ground arith) (ground arith) h)
expand-layout (c_sd rd rs u) h =
    (==_iff _ _).0
      (by_table3 c_sd 8 rd 8 rs 32 u refl (ground arith) (ground arith) (ground arith) h)
expand-layout (c_addi rd u) h =
    (==_iff _ _).0 (by_table2 c_addi 32 rd 64 u refl (ground arith) (ground arith) h)
expand-layout (c_addiw rd u) h =
    (==_iff _ _).0 (by_table2 c_addiw 32 rd 64 u refl (ground arith) (ground arith) h)
expand-layout (c_li rd u) h =
    (==_iff _ _).0 (by_table2 c_li 32 rd 64 u refl (ground arith) (ground arith) h)
expand-layout (c_addi16sp u) h = (==_iff _ _).0 (by_table1 c_addi16sp 64 u refl (ground arith) h)
expand-layout (c_lui rd u) h =
    (==_iff _ _).0 (by_table2 c_lui 32 rd 64 u refl (ground arith) (ground arith) h)
expand-layout (c_srli rd u) h =
    (==_iff _ _).0 (by_table2 c_srli 8 rd 64 u refl (ground arith) (ground arith) h)
expand-layout (c_srai rd u) h =
    (==_iff _ _).0 (by_table2 c_srai 8 rd 64 u refl (ground arith) (ground arith) h)
expand-layout (c_andi rd u) h =
    (==_iff _ _).0 (by_table2 c_andi 8 rd 64 u refl (ground arith) (ground arith) h)
expand-layout (c_sub rd rs) h =
    (==_iff _ _).0 (by_table2 c_sub 8 rd 8 rs refl (ground arith) (ground arith) h)
expand-layout (c_xor rd rs) h =
    (==_iff _ _).0 (by_table2 c_xor 8 rd 8 rs refl (ground arith) (ground arith) h)
expand-layout (c_or rd rs) h =
    (==_iff _ _).0 (by_table2 c_or 8 rd 8 rs refl (ground arith) (ground arith) h)
expand-layout (c_and rd rs) h =
    (==_iff _ _).0 (by_table2 c_and 8 rd 8 rs refl (ground arith) (ground arith) h)
expand-layout (c_subw rd rs) h =
    (==_iff _ _).0 (by_table2 c_subw 8 rd 8 rs refl (ground arith) (ground arith) h)
expand-layout (c_addw rd rs) h =
    (==_iff _ _).0 (by_table2 c_addw 8 rd 8 rs refl (ground arith) (ground arith) h)
expand-layout (c_j u) h = (==_iff _ _).0 (by_table1 c_j 2048 u refl (ground arith) h)
expand-layout (c_beqz rs u) h =
    (==_iff _ _).0 (by_table2 c_beqz 8 rs 256 u refl (ground arith) (ground arith) h)
expand-layout (c_bnez rs u) h =
    (==_iff _ _).0 (by_table2 c_bnez 8 rs 256 u refl (ground arith) (ground arith) h)
expand-layout (c_slli rd u) h =
    (==_iff _ _).0 (by_table2 c_slli 32 rd 64 u refl (ground arith) (ground arith) h)
expand-layout (c_fldsp rd u) h =
    (==_iff _ _).0 (by_table2 c_fldsp 32 rd 64 u refl (ground arith) (ground arith) h)
expand-layout (c_lwsp rd u) h =
    (==_iff _ _).0 (by_table2 c_lwsp 32 rd 64 u refl (ground arith) (ground arith) h)
expand-layout (c_ldsp rd u) h =
    (==_iff _ _).0 (by_table2 c_ldsp 32 rd 64 u refl (ground arith) (ground arith) h)
expand-layout (c_jr rs) h = (==_iff _ _).0 (by_table1 c_jr 32 rs refl (ground arith) h)
expand-layout (c_mv rd rs) h =
    (==_iff _ _).0 (by_table2 c_mv 32 rd 32 rs refl (ground arith) (ground arith) h)
expand-layout c_ebreak h = refl
expand-layout (c_jalr rs) h = (==_iff _ _).0 (by_table1 c_jalr 32 rs refl (ground arith) h)
expand-layout (c_add rd rs) h =
    (==_iff _ _).0 (by_table2 c_add 32 rd 32 rs refl (ground arith) (ground arith) h)
expand-layout (c_fsdsp rs u) h =
    (==_iff _ _).0 (by_table2 c_fsdsp 32 rs 64 u refl (ground arith) (ground arith) h)
expand-layout (c_swsp rs u) h =
    (==_iff _ _).0 (by_table2 c_swsp 32 rs 64 u refl (ground arith) (ground arith) h)
expand-layout (c_sdsp rs u) h =
    (==_iff _ _).0 (by_table2 c_sdsp 32 rs 64 u refl (ground arith) (ground arith) h)
