-- ===== src/Scoreboard/Tracks.antt =====
-- The scoreboard against the queue of instructions in flight.
use rvsim.Base.{
  ◌<◌, ◌≡◌, ◌≢◌, refl, sym, ap, ◌∙◌, subst, Bool, false, not, ◌&&◌, List, [], ◌∷◌, ◌++◌, Option,
  none, some, arith, length, length-set, get_or-replicate, get_or-set, All, if◌then◌else◌, ◌==◌,
}
use rvsim.Types.{RegIdx, is_zero}
use rvsim.RobTag.{RobTag}
use rvsim.RobEntry.{RobEntry}
use rvsim.Rob.{Rob}
use rvsim.Rob.Inv.{contents, IsValid}
use rvsim.Rob.Queries.Squash.{iter_in_order-contents}
use rvsim.Scoreboard.{
  Scoreboard, new, set_producer, get_producer, holds, clear_if_match, flush, remark, remark_all,
  rebuild_from_rob, dispatch, retire,
}

-- The register that an instruction writes, where an instruction with both flags writes the
-- floating-point one.
abbrev pub produces : RegIdx → Bool → RobEntry → Bool
produces reg is_fp e =
    (e.rd == reg)
    && (if is_fp
        then e.ctrl.fp_reg_write
        else e.ctrl.reg_write && not e.ctrl.fp_reg_write && not (is_zero e.rd))

abbrev pub or_producer : Option RobTag → Bool → RobTag → Option RobTag
or_producer (some t) p tag = some t
or_producer none p tag = if p then some tag else none

-- The tag of the newest of the instructions, given in program order, that writes the register.
unfoldable pub last_producer : RegIdx → Bool → List RobEntry → Option RobTag
last_producer reg is_fp [] = none
last_producer reg is_fp (e ∷ es) =
    or_producer (last_producer reg is_fp es) (produces reg is_fp e) e.tag

pub record Tracks (sb : Scoreboard) (es : List RobEntry) : Type 0 where
  pub gpr_size : length sb.gpr ≡ 32
  pub fpr_size : length sb.fpr ≡ 32
  pub latest :
      (reg : RegIdx) (is_fp : Bool)
      → reg < 32
      → get_producer sb reg is_fp ≡ last_producer reg is_fp es

last_producer-snoc :
    (reg : RegIdx) (is_fp : Bool) (es : List RobEntry) (e : RobEntry)
    → last_producer reg is_fp (es ++ e ∷ [])
      ≡ (if produces reg is_fp e then some e.tag else last_producer reg is_fp es)
unfolding last_producer
last_producer-snoc reg is_fp [] e = ground arith
last_producer-snoc reg is_fp (x ∷ es) e = ground (arith, last_producer-snoc reg is_fp es e)

get_producer-dispatch :
    (sb : Scoreboard) (e : RobEntry) (reg : RegIdx) (is_fp : Bool)
    → length sb.gpr ≡ 32
    → length sb.fpr ≡ 32
    → e.rd < 32
    → get_producer (dispatch sb e) reg is_fp
      ≡ (if produces reg is_fp e then some e.tag else get_producer sb reg is_fp)
unfolding get_producer dispatch set_producer
get_producer-dispatch sb e reg is_fp hg hf lt = ground (
  arith,
  get_or-set sb.gpr e.rd reg (some e.tag) none,
  get_or-set sb.fpr e.rd reg (some e.tag) none,
)

get_producer-remark :
    (sb : Scoreboard) (e : RobEntry) (reg : RegIdx) (is_fp : Bool)
    → length sb.gpr ≡ 32
    → length sb.fpr ≡ 32
    → e.rd < 32
    → get_producer (remark sb e) reg is_fp
      ≡ (if produces reg is_fp e then some e.tag else get_producer sb reg is_fp)
unfolding get_producer remark
get_producer-remark sb e reg is_fp hg hf lt = ground (
  arith,
  get_or-set sb.gpr e.rd reg (some e.tag) none,
  get_or-set sb.fpr e.rd reg (some e.tag) none,
)

get_producer-retire :
    (sb : Scoreboard) (e : RobEntry) (reg : RegIdx) (is_fp : Bool)
    → length sb.gpr ≡ 32
    → length sb.fpr ≡ 32
    → e.rd < 32
    → get_producer (retire sb e) reg is_fp ≡ (
        if produces reg is_fp e && holds (get_producer sb reg is_fp) e.tag
        then none
        else get_producer sb reg is_fp)
unfolding get_producer retire clear_if_match
get_producer-retire sb e reg is_fp hg hf lt =
    ground (arith, get_or-set sb.gpr e.rd reg none none, get_or-set sb.fpr e.rd reg none none)

module _ (sb : Scoreboard) (e : RobEntry) where
  dispatch-sizes :
      (length (dispatch sb e).gpr ≡ length sb.gpr) × (length (dispatch sb e).fpr ≡ length sb.fpr)
  unfolding dispatch set_producer
  dispatch-sizes =
      ground (arith, length-set sb.gpr e.rd (some e.tag), length-set sb.fpr e.rd (some e.tag))

  remark-sizes :
      (length (remark sb e).gpr ≡ length sb.gpr) × (length (remark sb e).fpr ≡ length sb.fpr)
  unfolding remark
  remark-sizes =
      ground (arith, length-set sb.gpr e.rd (some e.tag), length-set sb.fpr e.rd (some e.tag))

  retire-sizes :
      (length (retire sb e).gpr ≡ length sb.gpr) × (length (retire sb e).fpr ≡ length sb.fpr)
  unfolding retire clear_if_match
  retire-sizes = ground (arith, length-set sb.gpr e.rd none, length-set sb.fpr e.rd none)

  dispatch-Tracks :
      (es : List RobEntry) → e.rd < 32 → Tracks sb es → Tracks (dispatch sb e) (es ++ e ∷ [])
  dispatch-Tracks es lt t = record {
    gpr_size = dispatch-sizes.0 ∙ t.gpr_size;
    fpr_size = dispatch-sizes.1 ∙ t.fpr_size;
    latest = λ reg is_fp h.
        get_producer-dispatch sb e reg is_fp t.gpr_size t.fpr_size lt
        ∙ ap (λ o. if produces reg is_fp e then some e.tag else o) (t.latest reg is_fp h)
        ∙ sym (last_producer-snoc reg is_fp es e);
  }

  remark-Tracks :
      (es : List RobEntry) → e.rd < 32 → Tracks sb es → Tracks (remark sb e) (es ++ e ∷ [])
  remark-Tracks es lt t = record {
    gpr_size = remark-sizes.0 ∙ t.gpr_size;
    fpr_size = remark-sizes.1 ∙ t.fpr_size;
    latest = λ reg is_fp h.
        get_producer-remark sb e reg is_fp t.gpr_size t.fpr_size lt
        ∙ ap (λ o. if produces reg is_fp e then some e.tag else o) (t.latest reg is_fp h)
        ∙ sym (last_producer-snoc reg is_fp es e);
  }

-- Another tag than those of all younger instructions.
abbrev pub IsFresh : RobTag → List RobEntry → Type 0
IsFresh tag es = All (λ f. f.tag ≢ tag) es

last_producer-fresh :
    (reg : RegIdx) (is_fp : Bool) (tag : RobTag) (es : List RobEntry)
    → IsFresh tag es
    → holds (last_producer reg is_fp es) tag ≡ false
unfolding last_producer
last_producer-fresh reg is_fp tag [] h = refl
last_producer-fresh reg is_fp tag (x ∷ es) h =
    ground (arith, last_producer-fresh reg is_fp tag es h.1)

cleared :
    (o : Option RobTag) (p : Bool) (tag : RobTag)
    → holds o tag ≡ false
    → (if p && holds (or_producer o p tag) tag then none else or_producer o p tag) ≡ o
cleared none p tag h = ground arith
cleared (some t) p tag h = ground arith

retire-Tracks :
    (sb : Scoreboard) (e : RobEntry) (es : List RobEntry)
    → e.rd < 32
    → IsFresh e.tag es
    → Tracks sb (e ∷ es)
    → Tracks (retire sb e) es
unfolding last_producer
retire-Tracks sb e es lt fresh t = record {
  gpr_size = (retire-sizes sb e).0 ∙ t.gpr_size;
  fpr_size = (retire-sizes sb e).1 ∙ t.fpr_size;
  latest = λ reg is_fp h.
      get_producer-retire sb e reg is_fp t.gpr_size t.fpr_size lt
      ∙ ap (λ o. if produces reg is_fp e && holds o e.tag then none else o) (t.latest reg is_fp h)
      ∙ cleared (last_producer reg is_fp es) (produces reg is_fp e) e.tag
          (last_producer-fresh reg is_fp e.tag es fresh);
}

append_nil : (xs : List RobEntry) → xs ≡ xs ++ []
append_nil [] = refl
append_nil (x ∷ xs) = ap (◌∷◌ x) (append_nil xs)

abbrev pub IsRegister : RobEntry → Type 0
IsRegister e = e.rd < 32

append_assoc : (xs ys : List RobEntry) (e : RobEntry) → (xs ++ e ∷ []) ++ ys ≡ xs ++ e ∷ ys
append_assoc [] ys e = refl
append_assoc (x ∷ xs) ys e = ap (◌∷◌ x) (append_assoc xs ys e)

remark_all-Tracks :
    (sb : Scoreboard) (done es : List RobEntry)
    → All IsRegister es
    → Tracks sb done
    → Tracks (remark_all sb es) (done ++ es)
unfolding remark_all
remark_all-Tracks sb done [] h t = subst (Tracks sb) (append_nil done) t
remark_all-Tracks sb done (e ∷ es) h t =
    subst (Tracks (remark_all (remark sb e) es)) (append_assoc done es e)
      (remark_all-Tracks (remark sb e) (done ++ e ∷ []) es h.1 (remark-Tracks sb e done h.0 t))

new-Tracks : Tracks new []
unfolding new get_producer last_producer
new-Tracks = record {
  gpr_size = refl;
  fpr_size = refl;
  latest = λ reg is_fp h.
      let nothing : Option RobTag = none in ground (arith, get_or-replicate 32 reg nothing);
}

flush-Tracks : (sb : Scoreboard) → Tracks (flush sb) []
unfolding flush get_producer last_producer
flush-Tracks sb = record {
  gpr_size = refl;
  fpr_size = refl;
  latest = λ reg is_fp h.
      let nothing : Option RobTag = none in ground (arith, get_or-replicate 32 reg nothing);
}

rebuild-Tracks :
    (sb : Scoreboard) (r : Rob)
    → IsValid r
    → All IsRegister (contents r)
    → Tracks (rebuild_from_rob sb r) (contents r)
unfolding rebuild_from_rob
rebuild-Tracks sb r v h =
    subst (λ es. Tracks (remark_all (flush sb) es) (contents r)) (sym (iter_in_order-contents r v))
      (remark_all-Tracks (flush sb) [] (contents r) h (flush-Tracks sb))

-- What happens to the scoreboard and to the instructions in flight, in program order.
pub data Move : Scoreboard → List RobEntry → Scoreboard → List RobEntry → Type 0 where
  dispatching :
      (sb : Scoreboard) (es : List RobEntry) (e : RobEntry)
      → e.rd < 32
      → Move sb es (dispatch sb e) (es ++ e ∷ [])
  retiring :
      (sb : Scoreboard) (e : RobEntry) (es : List RobEntry)
      → e.rd < 32
      → IsFresh e.tag es
      → Move sb (e ∷ es) (retire sb e) es
  recovering :
      (sb : Scoreboard) (es : List RobEntry) (r : Rob)
      → IsValid r
      → All IsRegister (contents r)
      → Move sb es (rebuild_from_rob sb r) (contents r)
  flushing : (sb : Scoreboard) (es : List RobEntry) → Move sb es (flush sb) []

pub data Run : Scoreboard → List RobEntry → Type 0 where
  start : Run new []
  after :
      {sb sb' : Scoreboard} {es es' : List RobEntry} → Run sb es → Move sb es sb' es' → Run sb' es'

Move-Tracks :
    {sb sb' : Scoreboard} {es es' : List RobEntry}
    → Move sb es sb' es'
    → Tracks sb es
    → Tracks sb' es'
Move-Tracks (dispatching sb es e lt) t = dispatch-Tracks sb e es lt t
Move-Tracks (retiring sb e es lt fresh) t = retire-Tracks sb e es lt fresh t
Move-Tracks (recovering sb es r v h) t = rebuild-Tracks sb r v h
Move-Tracks (flushing sb es) t = flush-Tracks sb

-- After any sequence of dispatches, retirements, rebuilds from the reorder buffer and full flushes
-- the scoreboard answers, for every register, with the tag of the newest instruction in flight that
-- writes it, or with none; where registers are below 32, and a retiring instruction has another tag
-- than the younger ones.
pub Run-Tracks : {sb : Scoreboard} {es : List RobEntry} → Run sb es → Tracks sb es
Run-Tracks start = new-Tracks
Run-Tracks (after run move) = Move-Tracks move (Run-Tracks run)
