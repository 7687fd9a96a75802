-- ===== src/Plic.antt =====
-- crates/hardware/src/soc/devices/plic.rs: the platform-level interrupt controller. A vector read
-- out of range panics in the source; here it gives 0, and `IsPlic` of Plic/Best.antt has the sizes.
pub mod Best
pub mod Claim
mod Tests
use rvsim.Base.{
  ℕ, zero, suc, ◌+◌, ◌-◌, ◌*◌, ◌/◌, ◌%◌, ◌^◌, Bool, true, false, not, ◌&&◌, ◌||◌, List, [], ◌∷◌,
  bit_and, bit_or, min, length, get_or, set, replicate, ltb, leb, if◌then◌else◌, ◌==◌,
}

pub record Plic : Type 0 where
  pub base_addr : ℕ
  pub priorities : List ℕ
  pub pending : List ℕ
  pub enables : List (List ℕ)
  pub thresholds : List ℕ
  pub claims : List ℕ

unfoldable pub new : ℕ → Plic
new base_addr = record {
  base_addr = base_addr;
  priorities = replicate 1024 0;
  pending = replicate 32 0;
  enables = replicate 2 (replicate 32 0);
  thresholds = replicate 2 0;
  claims = replicate 2 0;
}

unfoldable pub update_irqs : Plic → ℕ → Plic
update_irqs p mask = record p {
  pending = set (set p.pending 0 (bit_and mask 0xffffffff)) 1 (mask / 2 ^ 32);
}

abbrev pub enables_of : Plic → ℕ → List ℕ
enables_of p ctx = get_or p.enables ctx []

-- `self.pending[word] & self.enables[ctx][word]`
abbrev pub active : Plic → ℕ → ℕ → ℕ
active p ctx word = bit_and (get_or p.pending word 0) (get_or (enables_of p ctx) word 0)

abbrev pub threshold : Plic → ℕ → ℕ
threshold p ctx = get_or p.thresholds ctx 0

abbrev pub priority : Plic → ℕ → ℕ
priority p irq_id = get_or p.priorities irq_id 0

abbrev pub num_words : Plic → ℕ → ℕ
num_words p ctx = min (length p.pending) (length (enables_of p ctx))

-- The test of one bit in `has_qualified_irq`.
abbrev pub qualified_bit : Plic → ℕ → ℕ → ℕ → Bool
qualified_bit p ctx word bit =
    let irq_id = word * 32 + bit in
    if irq_id == 0
    then false
    else not (bit_and (active p ctx word) (2 ^ bit) == 0)
      && ltb irq_id (length p.priorities)
      && ltb (threshold p ctx) (priority p irq_id)

-- `n` bits from `bit` on, and `n` words from `word` on.
unfoldable pub qualified_bits : Plic → ℕ → ℕ → ℕ → ℕ → Bool
qualified_bits p ctx word zero bit = false
qualified_bits p ctx word (suc n) bit =
    let rest = qualified_bits p ctx word n (bit + 1) in
    if qualified_bit p ctx word bit then true else rest

unfoldable pub qualified_words : Plic → ℕ → ℕ → ℕ → Bool
unfolding qualified_bits
qualified_words p ctx zero word = false
qualified_words p ctx (suc n) word =
    let rest = qualified_words p ctx n (word + 1) in
    if active p ctx word == 0 then rest else if qualified_bits p ctx word 32 0 then true else rest

unfoldable pub has_qualified_irq : Plic → ℕ → Bool
unfolding qualified_words
has_qualified_irq p ctx = qualified_words p ctx (num_words p ctx) 0

-- One bit in `calc_max_id`, with (max_prio, max_id).
abbrev pub max_bit : Plic → ℕ → ℕ → ℕ → ℕ × ℕ → ℕ × ℕ
max_bit p ctx word bit best =
    let irq_id = word * 32 + bit in
    let prio = priority p irq_id in
    if irq_id == 0
    then best
    else if not (bit_and (active p ctx word) (2 ^ bit) == 0) && ltb irq_id (length p.priorities)
    then (if ltb best.0 prio && ltb (threshold p ctx) prio then (prio, irq_id) else best)
    else best

unfoldable pub max_bits : Plic → ℕ → ℕ → ℕ → ℕ → ℕ × ℕ → ℕ × ℕ
max_bits p ctx word zero bit best = best
max_bits p ctx word (suc n) bit best = max_bits p ctx word n (bit + 1) (max_bit p ctx word bit best)

unfoldable pub max_words : Plic → ℕ → ℕ → ℕ → ℕ × ℕ → ℕ × ℕ
unfolding max_bits
max_words p ctx zero word best = best
max_words p ctx (suc n) word best =
    max_words p ctx n (word + 1)
      (if active p ctx word == 0 then best else max_bits p ctx word 32 0 best)

unfoldable pub calc_max_id : Plic → ℕ → ℕ
unfolding max_words
calc_max_id p ctx = (max_words p ctx (num_words p ctx) 0 (0, 0)).1

-- One context in `check_interrupts`.
unfoldable pub check_context : Plic → ℕ → Bool × Plic
unfolding has_qualified_irq calc_max_id
check_context p ctx =
    if has_qualified_irq p ctx
    then (true, record p { claims = set p.claims ctx (calc_max_id p ctx) })
    else (false, record p { claims = set p.claims ctx 0 })

unfoldable pub check_interrupts : Plic → (Bool × Bool) × Plic
unfolding check_context
check_interrupts p =
    let (meip, p') = check_context p 0 in
    let (seip, p'') = check_context p' 1 in ((meip, seip), p'')

unfoldable pub tick : Plic → Bool × Plic
unfolding check_interrupts
tick p = let ((meip, seip), p') = check_interrupts p in (meip || seip, p')

-- `self.pending[idx] &= !bit`, where the interrupt and the word exist.
unfoldable pub clear_pending : Plic → ℕ → Plic
clear_pending p irq_id =
    let idx = irq_id / 32 in
    if ltb 0 irq_id && ltb irq_id 1024
    then (if ltb idx (length p.pending)
        then record p {
          pending =
              set p.pending idx (bit_and (get_or p.pending idx 0) (2 ^ 32 - 1 - 2 ^ (irq_id % 32)));
        }
        else p)
    else p

-- `(BASE..END).contains(&offset)`
abbrev pub between : ℕ → ℕ → ℕ → Bool
between lo hi x = leb lo x && ltb x hi

unfoldable pub read_u32 : Plic → ℕ → ℕ × Plic
unfolding clear_pending
read_u32 p offset =
    if between 0 0x1000 offset
    then (if ltb (offset / 4) (length p.priorities) then (priority p (offset / 4), p) else (0, p))
    else if between 0x1000 0x2000 offset
    then (let idx = (offset - 0x1000) / 4 in
        if ltb idx (length p.pending) then (get_or p.pending idx 0, p) else (0, p))
    else if between 0x2000 0x200000 offset
    then (let rel = offset - 0x2000 in
        let ctx = rel / 0x80 in
        let word_idx = (rel % 0x80) / 4 in
        if ltb ctx 2 && ltb word_idx 32 then (get_or (enables_of p ctx) word_idx 0, p) else (0, p))
    else (let ctx = (offset - 0x200000) / 0x1000 in
        let reg = bit_and offset 0xfff in
        if ltb ctx 2
        then (if reg == 0
            then (threshold p ctx, p)
            else if reg == 4
            then (get_or p.claims ctx 0, clear_pending p (get_or p.claims ctx 0))
            else (0, p))
        else (0, p))

unfoldable pub write_u32 : Plic → ℕ → ℕ → Plic
unfolding clear_pending
write_u32 p offset val =
    if between 0 0x1000 offset
    then (if ltb (offset / 4) (length p.priorities)
        then record p { priorities = set p.priorities (offset / 4) val }
        else p)
    else if between 0x2000 0x200000 offset
    then (let rel = offset - 0x2000 in
        let ctx = rel / 0x80 in
        let word_idx = (rel % 0x80) / 4 in
        if ltb ctx 2 && ltb word_idx 32
        then record p { enables = set p.enables ctx (set (enables_of p ctx) word_idx val) }
        else p)
    else if leb 0x200000 offset
    then (let ctx = (offset - 0x200000) / 0x1000 in
        let reg = bit_and offset 0xfff in
        if ltb ctx 2
        then (if reg == 0
            then record p { thresholds = set p.thresholds ctx val }
            else if reg == 4
            then (let p' = clear_pending p val in record p' { claims = set p.claims ctx 0 })
            else p)
        else p)
    else p
