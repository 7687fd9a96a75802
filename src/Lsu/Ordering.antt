-- ===== src/Lsu/Ordering.antt =====
-- crates/hardware/src/core/units/lsu/ordering.rs: the ordering sets of FENCE.
pub mod Fences
use rvsim.Base.{
  ℕ, ◌+◌, ◌*◌, ◌/◌, ◌%◌, ◌^◌, Bool, true, false, not, ◌&&◌, bit_and, bit_or, if◌then◌else◌, ◌==◌,
}

pub record FenceSet : Type 0 where
  pub i : Bool
  pub o : Bool
  pub r : Bool
  pub w : Bool

abbrev pub from_bits : ℕ → FenceSet
from_bits bits = record {
  i = not (bit_and bits 8 == 0);
  o = not (bit_and bits 4 == 0);
  r = not (bit_and bits 2 == 0);
  w = not (bit_and bits 1 == 0);
}

abbrev pub as_u8 : Bool → ℕ
as_u8 b = if b then 1 else 0

pub to_bits : FenceSet → ℕ
to_bits s =
    bit_or (bit_or (bit_or (as_u8 s.i * 2 ^ 3) (as_u8 s.o * 2 ^ 2)) (as_u8 s.r * 2 ^ 1)) (as_u8 s.w)

abbrev pub is_empty : FenceSet → Bool
is_empty s = not s.i && not s.o && not s.r && not s.w

abbrev pub is_full : FenceSet → Bool
is_full s = s.i && s.o && s.r && s.w

pub record Fence : Type 0 where
  pub pred : FenceSet
  pub succ : FenceSet

-- `((inst >> 24) & 0xF) as u8` and `((inst >> 20) & 0xF) as u8`
pub decode : ℕ → Fence
decode inst = record {
  pred = from_bits (bit_and (inst / 2 ^ 24) 0xf);
  succ = from_bits (bit_and (inst / 2 ^ 20) 0xf);
}

pub is_tso : Fence → Bool
is_tso f =
    f.pred.r
    && f.pred.w
    && not f.pred.i
    && not f.pred.o
    && f.succ.r
    && f.succ.w
    && not f.succ.i
    && not f.succ.o

pub is_nop : Fence → Bool
is_nop f = is_empty f.pred && is_empty f.succ

pub is_full_barrier : Fence → Bool
is_full_barrier f = is_full f.pred && is_full f.succ
