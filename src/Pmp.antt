-- ===== src/Pmp.antt =====
-- crates/hardware/src/core/units/mmu/pmp.rs: physical memory protection. An address register is a
-- number below 2 ^ 64, a configuration register one below 2 ^ 8.
pub mod Match
pub mod Napot
pub mod Locks
mod Tests
use rvsim.Base.{
  ℕ, zero, suc, ◌+◌, ◌-◌, ◌*◌, ◌/◌, ◌%◌, ◌^◌, Bool, true, false, not, ◌&&◌, ◌||◌, List, [], ◌∷◌,
  bit_and, length, get_or, set, replicate, ltb, leb, if◌then◌else◌, ◌==◌,
}

pub data PmpAddrMatch : Type 0 where
  off tor na4 napot : PmpAddrMatch

-- The last case stands for 3, the only value left under the mask.
abbrev pub from_bits : ℕ → PmpAddrMatch
from_bits bits =
    let m = bit_and bits 0x3 in
    if m == 0 then off else if m == 1 then tor else if m == 2 then na4 else napot

pub data PmpResult : Type 0 where
  allow deny no_match : PmpResult

pub record PmpEntry : Type 0 where
  pub cfg : ℕ
  pub addr : ℕ

abbrev pub match_mode : PmpEntry → PmpAddrMatch
match_mode e = from_bits (bit_and (e.cfg / 2 ^ 3) 0x3)

abbrev pub is_readable : PmpEntry → Bool
is_readable e = not (bit_and e.cfg 1 == 0)

abbrev pub is_writable : PmpEntry → Bool
is_writable e = not (bit_and e.cfg 2 == 0)

abbrev pub is_executable : PmpEntry → Bool
is_executable e = not (bit_and e.cfg 4 == 0)

abbrev pub is_locked : PmpEntry → Bool
is_locked e = not (bit_and e.cfg 128 == 0)

pub record Pmp : Type 0 where
  pub entries : List PmpEntry

abbrev pub disabled : PmpEntry
disabled = record { cfg = 0; addr = 0 }

unfoldable pub new : Pmp
new = record { entries = replicate 16 disabled }

abbrev pub entry_at : Pmp → ℕ → PmpEntry
entry_at p idx = get_or p.entries idx disabled

unfoldable pub set_cfg : Pmp → ℕ → ℕ → Pmp
set_cfg p idx cfg =
    if ltb idx (length p.entries)
    then (if is_locked (entry_at p idx)
        then p
        else record p { entries = set p.entries idx (record (entry_at p idx) { cfg = cfg }) })
    else p

unfoldable pub set_addr : Pmp → ℕ → ℕ → Pmp
set_addr p idx addr =
    if ltb idx (length p.entries)
    then (if is_locked (entry_at p idx)
        then p
        else record p { entries = set p.entries idx (record (entry_at p idx) { addr = addr }) })
    else p

unfoldable pub get_cfg : Pmp → ℕ → ℕ
get_cfg p idx = if ltb idx (length p.entries) then (entry_at p idx).cfg else 0

unfoldable pub get_addr : Pmp → ℕ → ℕ
get_addr p idx = if ltb idx (length p.entries) then (entry_at p idx).addr else 0

-- `(!x).trailing_zeros()`, for `n` bits
unfoldable pub trailing_ones : ℕ → ℕ → ℕ
trailing_ones zero x = 0
trailing_ones (suc n) x = let rest = trailing_ones n (x / 2) in if x % 2 == 1 then 1 + rest else 0

-- `pmpaddr << 2`
abbrev pub byte_address : ℕ → ℕ
byte_address pmpaddr = (pmpaddr * 2 ^ 2) % 2 ^ 64

unfoldable pub napot_range : ℕ → ℕ × ℕ
unfolding trailing_ones
napot_range pmpaddr =
    let size_bits = trailing_ones 64 pmpaddr + 3 in
    if leb 64 size_bits
    then (0, 2 ^ 64 - 1)
    else (let size = 2 ^ size_bits in
        let mask = size - 1 in
        let base = bit_and (byte_address pmpaddr) (2 ^ 64 - 1 - mask) in
        (base, (base + size) % 2 ^ 64))

unfoldable pub na4_range : ℕ → ℕ × ℕ
na4_range pmpaddr = (byte_address pmpaddr, (byte_address pmpaddr + 4) % 2 ^ 64)

abbrev pub range_by : PmpAddrMatch → ℕ → PmpEntry → ℕ × ℕ
range_by off previous e = (0, 0)
range_by tor previous e = (byte_address previous, byte_address e.addr)
range_by na4 previous e = na4_range e.addr
range_by napot previous e = napot_range e.addr

-- The range of an entry that is on; `previous` is the address register before it, 0 for the first.
unfoldable pub range_of : ℕ → PmpEntry → ℕ × ℕ
unfolding napot_range na4_range
range_of previous e = range_by (match_mode e) previous e

abbrev pub is_mode_off : PmpAddrMatch → Bool
is_mode_off off = true
is_mode_off tor = false
is_mode_off na4 = false
is_mode_off napot = false

abbrev pub is_off : PmpEntry → Bool
is_off e = is_mode_off (match_mode e)

-- The access, with `access_end`; the sum wraps around.
pub record Access : Type 0 where
  pub byte_addr : ℕ
  pub size : ℕ
  pub is_read : Bool
  pub is_write : Bool
  pub is_exec : Bool
  pub is_machine_mode : Bool

abbrev pub access_end : Access → ℕ
access_end a = (a.byte_addr + a.size) % 2 ^ 64

-- `byte_addr >= lo && access_end <= hi`
abbrev pub inside : Access → ℕ × ℕ → Bool
inside a (lo, hi) = leb lo a.byte_addr && leb (access_end a) hi

abbrev pub permitted : Access → PmpEntry → Bool
permitted a e =
    (not a.is_read || is_readable e)
    && (not a.is_write || is_writable e)
    && (not a.is_exec || is_executable e)

-- What the entry that an access matches makes of it.
abbrev pub verdict : Access → PmpEntry → PmpResult
verdict a e =
    if a.is_machine_mode && not (is_locked e) then allow else if permitted a e then allow else deny

abbrev pub matches : Access → ℕ → PmpEntry → Bool
matches a previous e = not (is_off e) && inside a (range_of previous e)

-- The loop of `check`, from an entry on.
unfoldable pub check_loop : Access → ℕ → List PmpEntry → PmpResult
unfolding range_of
check_loop a previous [] = if a.is_machine_mode then allow else no_match
check_loop a previous (e ∷ es) =
    let rest = check_loop a e.addr es in if matches a previous e then verdict a e else rest

unfoldable pub check : Pmp → Access → PmpResult
unfolding check_loop
check p a = check_loop a 0 p.entries
