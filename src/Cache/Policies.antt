-- ===== src/Cache/Policies.antt =====
-- crates/hardware/src/core/units/cache/policies: LRU, MRU, FIFO, PLRU and random replacement. A set
-- out of range panics in the source; here it has no ways on record, or the number 0.
pub mod Laws
pub mod Recency
use rvsim.Base.{
  ℕ, zero, suc, ◌+◌, ◌-◌, ◌*◌, ◌/◌, ◌%◌, ◌^◌, Bool, List, [], ◌∷◌, bit_and, bit_or, bit_xor, get_or,
  set, replicate, if◌then◌else◌, ◌==◌,
}
use rvsim.Cache.Policy.{ReplacementPolicy}

-- The ways of each set, the one used last first.
pub record Stacks : Type 0 where
  pub usage : List (List ℕ)

-- `(0..ways).collect()`: `n` ways from `w` on.
unfoldable pub ways_from : ℕ → ℕ → List ℕ
ways_from w zero = []
ways_from w (suc n) = w ∷ ways_from (w + 1) n

-- `LruPolicy::new` and `MruPolicy::new`.
unfoldable pub new_stacks : ℕ → ℕ → Stacks
unfolding ways_from
new_stacks sets ways = record { usage = replicate sets (ways_from 0 ways) }

-- The list without the first occurrence of a way.
abbrev pub remove : ℕ → List ℕ → List ℕ
remove way [] = []
remove way (w ∷ ws) = if w == way then ws else w ∷ remove way ws

abbrev pub stack_of : Stacks → ℕ → List ℕ
stack_of p s = get_or p.usage s []

-- `update`, the same in both policies.
unfoldable pub use_way : Stacks → ℕ → ℕ → Stacks
use_way p s way = record { usage = set p.usage s (way ∷ remove way (stack_of p s)) }

abbrev pub last_or : ℕ → List ℕ → ℕ
last_or d [] = d
last_or d (w ∷ ws) = last_or w ws

abbrev pub first_or : ℕ → List ℕ → ℕ
first_or d [] = d
first_or d (w ∷ ws) = w

unfoldable pub lru_victim : Stacks → ℕ → ℕ
lru_victim p s = last_or 0 (stack_of p s)

unfoldable pub mru_victim : Stacks → ℕ → ℕ
mru_victim p s = first_or 0 (stack_of p s)

abbrev pub lru : ReplacementPolicy Stacks
lru = record { update = use_way; get_victim = λ p s. (lru_victim p s, p) }

abbrev pub mru : ReplacementPolicy Stacks
mru = record { update = use_way; get_victim = λ p s. (mru_victim p s, p) }

pub record FifoPolicy : Type 0 where
  pub next_way : List ℕ
  pub ways : ℕ

unfoldable pub new_fifo : ℕ → ℕ → FifoPolicy
new_fifo sets ways = record { next_way = replicate sets 0; ways = ways }

unfoldable pub fifo_update : FifoPolicy → ℕ → ℕ → FifoPolicy
fifo_update p s way =
    let next = get_or p.next_way s 0 in
    if next == way then record p { next_way = set p.next_way s ((next + 1) % p.ways) } else p

unfoldable pub fifo_victim : FifoPolicy → ℕ → ℕ
fifo_victim p s = get_or p.next_way s 0

abbrev pub fifo : ReplacementPolicy FifoPolicy
fifo = record { update = fifo_update; get_victim = λ p s. (fifo_victim p s, p) }

pub record PlruPolicy : Type 0 where
  pub usage : List ℕ
  pub ways : ℕ

unfoldable pub new_plru : ℕ → ℕ → PlruPolicy
new_plru sets ways = record { usage = replicate sets 0; ways = ways }

unfoldable pub plru_update : PlruPolicy → ℕ → ℕ → PlruPolicy
plru_update p s way =
    let mask = 2 ^ way in
    let used = bit_or (get_or p.usage s 0) mask in
    let all_ones = 2 ^ p.ways - 1 in
    record p { usage = set p.usage s (if bit_and used all_ones == all_ones then mask else used) }

-- The first of `n` ways, from `i` on, whose bit is 0; 0 where there is none.
unfoldable pub plru_loop : ℕ → ℕ → ℕ → ℕ
plru_loop used zero i = 0
plru_loop used (suc n) i =
    let rest = plru_loop used n (i + 1) in if bit_and (used / 2 ^ i) 1 == 0 then i else rest

unfoldable pub plru_victim : PlruPolicy → ℕ → ℕ
unfolding plru_loop
plru_victim p s = plru_loop (get_or p.usage s 0) p.ways 0

abbrev pub plru : ReplacementPolicy PlruPolicy
plru = record { update = plru_update; get_victim = λ p s. (plru_victim p s, p) }

pub record RandomPolicy : Type 0 where
  pub ways : ℕ
  pub state : ℕ

abbrev pub new_random : ℕ → ℕ → RandomPolicy
new_random sets ways = record { ways = ways; state = 123456789 }

-- `x ^= x << 13; x ^= x >> 7; x ^= x << 17`, in 64 bits
unfoldable pub scramble : ℕ → ℕ
scramble x =
    let a = bit_xor x ((x * 2 ^ 13) % 2 ^ 64) in
    let b = bit_xor a (a / 2 ^ 7) in bit_xor b ((b * 2 ^ 17) % 2 ^ 64)

unfoldable pub random_victim : RandomPolicy → ℕ → ℕ × RandomPolicy
unfolding scramble
random_victim p s = let x = scramble p.state in (x % p.ways, record p { state = x })

abbrev pub random : ReplacementPolicy RandomPolicy
random = record { update = λ p s w. p; get_victim = random_victim }
