-- ===== src/Plic/Tests.antt =====
-- The theorems on the interrupt controller, with interrupts 3 and 10 pending and enabled for the
-- first context, 10 with the higher priority.
use rvsim.Base.{
  ◌+◌, ◌*◌, ◌≡◌, ◌⊎◌, true, false, get_or, replicate, set, refl, arith, if◌then◌else◌, ◌==◌,
}
use rvsim.Plic.{Plic, has_qualified_irq, calc_max_id, read_u32}
use rvsim.Plic.Best.{qualifies, Quiet, Wins, sources, calc_max_id-Wins}
use rvsim.Plic.Claim.{read_claim-qualifies}

abbrev two_pending : Plic
two_pending = record {
  base_addr = 0;
  priorities = set (set (replicate 1024 0) 3 1) 10 2;
  pending = set (replicate 32 0) 0 0x408;
  enables = replicate 2 (set (replicate 32 0) 0 0xffff);
  thresholds = replicate 2 0;
  claims = set (replicate 2 0) 0 10;
}

calc_max_id-Wins_example :
    ((has_qualified_irq two_pending 0 ≡ false)
      × (calc_max_id two_pending 0 ≡ 0)
      × Quiet two_pending 0 (sources two_pending 0))
    ⊎ ((has_qualified_irq two_pending 0 ≡ true)
        × Wins two_pending 0 (sources two_pending 0) (calc_max_id two_pending 0))
calc_max_id-Wins_example = calc_max_id-Wins two_pending 0

read_claim-qualifies_example :
    let id = get_or two_pending.claims 0 0 in
    let (value, p') = read_u32 two_pending (0x200000 + 0 * 0x1000 + 4) in
    (value ≡ id) × (qualifies p' 0 3 ≡ (if 3 == id then false else qualifies two_pending 0 3))
read_claim-qualifies_example =
    read_claim-qualifies two_pending 0 0 3 refl (omega arith) (omega arith)
