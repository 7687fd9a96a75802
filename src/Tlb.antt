-- ===== src/Tlb.antt =====
-- crates/hardware/src/core/units/mmu/tlb.rs: the first-level translation buffers, which are
-- direct-mapped. Page numbers, address-space identifiers and page-table entries are numbers. An
-- index past the end is undefined in the source; here such a read is `default_entry`, and `IsTlb`
-- of Tlb/Answers.antt keeps every index in range.
pub mod Answers
pub mod Shared
mod Tests
use rvsim.Base.{
  ℕ, zero, suc, ◌+◌, ◌-◌, ◌*◌, ◌/◌, ◌%◌, ◌^◌, Bool, true, false, not, ◌&&◌, ◌||◌, List, Option,
  none, some, map, bit_and, length, get_or, set, replicate, leb, ltb, if◌then◌else◌, ◌==◌,
}

pub record TlbHit : Type 0 where
  pub ppn : ℕ
  pub r : Bool
  pub w : Bool
  pub x : Bool
  pub u : Bool
  pub d : Bool

pub record TlbEntry : Type 0 where
  pub vpn : ℕ
  pub ppn : ℕ
  pub valid : Bool
  pub r : Bool
  pub w : Bool
  pub x : Bool
  pub u : Bool
  pub d : Bool
  pub asid : ℕ
  pub global : Bool

abbrev pub default_entry : TlbEntry
default_entry = record {
  vpn = 0;
  ppn = 0;
  valid = false;
  r = false;
  w = false;
  x = false;
  u = false;
  d = false;
  asid = 0;
  global = false;
}

pub record Tlb : Type 0 where
  pub entries : List TlbEntry
  pub mask : ℕ

-- `is_power_of_two` and `next_power_of_two`; the second doubles 1, at most `n` times.
abbrev pub is_power_of_two : ℕ → Bool
is_power_of_two n = ltb 0 n && (bit_and n (n - 1) == 0)

unfoldable pub double_until : ℕ → ℕ → ℕ → ℕ
double_until zero p n = p
double_until (suc fuel) p n = let rest = double_until fuel (2 * p) n in if leb n p then p else rest

abbrev pub next_power_of_two : ℕ → ℕ
next_power_of_two n = double_until n 1 n

abbrev pub safe_size : ℕ → ℕ
safe_size size = if is_power_of_two size then size else next_power_of_two size

unfoldable pub new : ℕ → Tlb
unfolding double_until
new size = record { entries = replicate (safe_size size) default_entry; mask = safe_size size - 1 }

abbrev pub index : Tlb → ℕ → ℕ
index t vpn = bit_and vpn t.mask

abbrev pub entry_at : Tlb → ℕ → TlbEntry
entry_at t i = get_or t.entries i default_entry

-- `entry.valid && entry.vpn == vpn && (entry.global || entry.asid == asid)`
abbrev pub answers : ℕ → ℕ → TlbEntry → Bool
answers vpn asid e = e.valid && (e.vpn == vpn) && (e.global || (e.asid == asid))

abbrev pub hit_of : TlbEntry → TlbHit
hit_of e = record { ppn = e.ppn; r = e.r; w = e.w; x = e.x; u = e.u; d = e.d }

unfoldable pub lookup : Tlb → ℕ → ℕ → Option TlbHit
lookup t vpn asid =
    let e = entry_at t (index t vpn) in if answers vpn asid e then some (hit_of e) else none

-- `(pte >> k) & 1 != 0`
abbrev pub pte_bit : ℕ → ℕ → Bool
pte_bit pte k = not (bit_and (pte / 2 ^ k) 1 == 0)

abbrev pub from_pte : ℕ → ℕ → ℕ → ℕ → TlbEntry
from_pte vpn ppn pte asid = record {
  vpn = vpn;
  ppn = ppn;
  valid = true;
  r = pte_bit pte 1;
  w = pte_bit pte 2;
  x = pte_bit pte 3;
  u = pte_bit pte 4;
  d = pte_bit pte 7;
  asid = asid;
  global = pte_bit pte 5;
}

unfoldable pub insert : Tlb → ℕ → ℕ → ℕ → ℕ → Tlb
insert t vpn ppn pte asid = record t {
  entries = set t.entries (index t vpn) (from_pte vpn ppn pte asid);
}

abbrev pub invalidated : TlbEntry → TlbEntry
invalidated e = record e { valid = false }

abbrev pub invalidate_at : Tlb → ℕ → Tlb
invalidate_at t i = record t { entries = set t.entries i (invalidated (entry_at t i)) }

abbrev pub has_vpn : ℕ → TlbEntry → Bool
has_vpn vpn e = e.valid && (e.vpn == vpn)

unfoldable pub invalidate : Tlb → ℕ → Tlb
invalidate t vpn =
    if has_vpn vpn (entry_at t (index t vpn)) then invalidate_at t (index t vpn) else t

unfoldable pub flush : Tlb → Tlb
flush t = record t { entries = map invalidated t.entries }

unfoldable pub flush_vaddr : Tlb → ℕ → Tlb
flush_vaddr t vpn =
    if has_vpn vpn (entry_at t (index t vpn)) then invalidate_at t (index t vpn) else t

-- `!e.global && e.asid == asid`
abbrev pub belongs_to : ℕ → TlbEntry → Bool
belongs_to asid e = not e.global && (e.asid == asid)

abbrev pub flush_entry : ℕ → TlbEntry → TlbEntry
flush_entry asid e = if e.valid && belongs_to asid e then invalidated e else e

unfoldable pub flush_asid : Tlb → ℕ → Tlb
flush_asid t asid = record t { entries = map (flush_entry asid) t.entries }

unfoldable pub flush_vaddr_asid : Tlb → ℕ → ℕ → Tlb
flush_vaddr_asid t vpn asid =
    let e = entry_at t (index t vpn) in
    if has_vpn vpn e && belongs_to asid e then invalidate_at t (index t vpn) else t
