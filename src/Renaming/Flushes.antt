-- ===== src/Renaming/Flushes.antt =====
-- The flushes keep the invariant of renaming: the destinations of the squashed instructions are free
-- again, and the speculative map is the one of the instructions that survive.
use rvsim.Base.{
  [], ℕ, ◌+◌, ◌≡◌, refl, sym, ap, ◌∙◌, subst, true, ◌∷◌, some, arith, if◌then◌else◌, ◌==◌, ==_iff,
  Bool-cases, Option-cases, none, inl, inr,
}
use rvsim.RobTag.{RobTag}
use rvsim.RobEntry.{RobEntry, default_entry}
use rvsim.Rob.Update.{find_entry_refines, lookup_tag-absent, lookup_tag-get_or}
use rvsim.Rob.{commit_head, find_entry}
use rvsim.Rob
use rvsim.Rob.Inv.{IsValid, contents, position}
use rvsim.Rob.Flush.{flush_after_refines, flush_all_refines}
use rvsim.Rob.Queries.{iter_in_order, iter_after}
use rvsim.Rob.Queries.Squash.{iter_after-flush_after, iter_in_order-contents}
use rvsim.FreeList.{available, reclaim}
use rvsim.FreeList.Counts.{
  occurs-reclaim, zero-reclaim, available-reclaim, capacity-reclaim, reclaim-zero,
}
use rvsim.Renaming.{
  O3State, flush, flush_behind, recover, trap_one, has_trap, rebuild_rename_map, replay,
  reclaim_all,
}
use rvsim.Renaming.Chain.{
  Chain, Chain-append_left, in_flight, holders, in_flight-append, holders-append,
  reclaim_all-counts,
}
use rvsim.Renaming.Conserved.{Conserved, Balanced, balanced, exists_once}
use rvsim.Renaming.Retire.{commit_head-front}

-- What a flush needs of the state before.
flush-Balanced :
    (s : O3State)
    → Balanced s
    → Conserved (flush s) × (available (flush s).free_list + 64 ≡ (flush s).free_list.capacity)
unfolding flush replay
flush-Balanced s c =
    let all : iter_in_order s.rob ≡ contents s.rob = iter_in_order-contents s.rob c.valid in
    let k = reclaim_all-counts s.free_list (iter_in_order s.rob) in
    let empty = flush_all_refines s.rob c.valid in
    let m = s.committed_rename_map in
    let enough : available (reclaim_all s.free_list (iter_in_order s.rob)) + 64
        ≡ (reclaim_all s.free_list (iter_in_order s.rob)).capacity =
      omega (arith, c.total, k.1, k.2, ap holders all) in
    (
      record {
        valid = empty.3;
        committed_IsMap = c.committed_IsMap;
        chain = subst (Chain m) (sym empty.0) tt;
        speculative = ap (replay m) (sym empty.0);
        once = λ p lo.
            omega (arith, k.0 p lo, ap (in_flight p) all, ap (in_flight p) empty.0)
            ∙ c.once p lo
            ∙ ap (exists_once p) (sym k.2);
        no_zero = k.3 ∙ c.no_zero;
        total = omega (arith, enough, ap holders empty.0);
      },
      enough,
    )

-- The full flush keeps the invariant of renaming, and then the free registers and the 64 committed
-- ones make up the register file: none leaks.
pub flush-Conserved :
    (s : O3State)
    → Conserved s
    → Conserved (flush s) × (available (flush s).free_list + 64 ≡ (flush s).free_list.capacity)
flush-Conserved s c = flush-Balanced s (balanced c)

flush_behind-Conserved :
    (s : O3State) (t : RobTag) (n : ℕ)
    → Conserved s
    → position t (contents s.rob) ≡ some n
    → Conserved (flush_behind s t)
unfolding flush_behind rebuild_rename_map
flush_behind-Conserved s t n c there =
    let kept = flush_after_refines s.rob t c.valid in
    let r = Rob.flush_after s.rob t in
    let split = iter_after-flush_after s.rob t n c.valid there in
    let k = reclaim_all-counts s.free_list (iter_after s.rob t) in
    let m = s.committed_rename_map in
    record {
      valid = kept.1;
      committed_IsMap = c.committed_IsMap;
      chain = Chain-append_left m (contents r) (iter_after s.rob t) (subst (Chain m) split c.chain);
      speculative = ap (replay m) (iter_in_order-contents r kept.1);
      once = λ p lo.
          omega (
            arith,
            k.0 p lo,
            ap (in_flight p) split,
            in_flight-append p (contents r) (iter_after s.rob t),
          )
          ∙ c.once p lo
          ∙ ap (exists_once p) (sym k.2);
      no_zero = k.3 ∙ c.no_zero;
      total = omega (
        arith,
        c.total,
        k.1,
        k.2,
        ap holders split,
        holders-append (contents r) (iter_after s.rob t),
      );
    }

pub recover_behind :
    (s : O3State) (t : RobTag) (e : RobEntry)
    → find_entry s.rob t ≡ some e
    → recover s t ≡ flush_behind s t
unfolding recover
recover_behind s t e h = rw (h, recover)

recover_all :
    (s : O3State) (t : RobTag) → IsValid s.rob → find_entry s.rob t ≡ none → recover s t ≡ flush s
unfolding recover rebuild_rename_map flush replay
recover_all s t v h =
    let empty = flush_all_refines s.rob v in
    let squashed : iter_in_order (Rob.flush_all s.rob) ≡ [] =
      iter_in_order-contents (Rob.flush_all s.rob) empty.3 ∙ empty.0 in
    rw (h, recover)
      (ap
        (λ es. record s {
          free_list = reclaim_all s.free_list (iter_in_order s.rob);
          rob = Rob.flush_all s.rob;
          rename_map = replay s.committed_rename_map es;
        })
        squashed)

-- The recovery from a misprediction keeps the invariant of renaming, whether or not the branch is
-- still in flight: no register is lost or freed twice, and the speculative map is the committed one
-- changed by the instructions that survive.
pub recover-Conserved : (s : O3State) (t : RobTag) → Conserved s → Conserved (recover s t)
recover-Conserved s t c = elim (Option-cases (position t (contents s.rob))) [
  | inl gone ↦
      let unknown = find_entry_refines c.valid t ∙ lookup_tag-absent t (contents s.rob) gone in
      subst Conserved (sym (recover_all s t c.valid unknown)) (flush-Conserved s c).0
  | inr (k, there) ↦
      let known =
        find_entry_refines c.valid t ∙ lookup_tag-get_or t default_entry (contents s.rob) k there in
      subst Conserved (sym (recover_behind s t _ known)) (flush_behind-Conserved s t k c there)
]

trap_one-some :
    (s : O3State) (e : RobEntry)
    → (commit_head s.rob).0 ≡ some e
    → has_trap e.trap ≡ true
    → trap_one s ≡ (
      some e,
      record s {
        rob = (commit_head s.rob).1;
        free_list = if e.phys_dst == 0 then s.free_list else reclaim s.free_list e.phys_dst;
      },
    )
unfolding trap_one
trap_one-some s e eq t = rw (eq, trap_one) (rw t)

-- When the instruction at the front has a trap and leaves, the full flush that follows restores the
-- invariant of renaming, and again no register leaks.
pub trap_one-flush-Conserved :
    (s : O3State) (e : RobEntry)
    → Conserved s
    → (commit_head s.rob).0 ≡ some e
    → has_trap e.trap ≡ true
    → Conserved (flush (trap_one s).1)
      × (available (flush (trap_one s).1).free_list + 64
          ≡ (flush (trap_one s).1).free_list.capacity)
trap_one-flush-Conserved s e c eq t =
    subst
      (λ x.
        Conserved (flush x.1)
        × (available (flush x.1).free_list + 64 ≡ (flush x.1).free_list.capacity))
      (sym (
        trap_one-some s e eq t
        ∙ ap (λ f. (some e, record s { rob = (commit_head s.rob).1; free_list = f })) reclaimed))
      (flush-Balanced
        (record s { rob = (commit_head s.rob).1; free_list = reclaim s.free_list e.phys_dst })
        (record {
          valid = left.1;
          committed_IsMap = c.committed_IsMap;
          once = λ p lo.
              omega (arith, occurs-reclaim p s.free_list e.phys_dst lo, ap (in_flight p) left.0)
              ∙ c.once p lo
              ∙ ap (exists_once p) (sym (capacity-reclaim s.free_list e.phys_dst));
          no_zero = zero-reclaim s.free_list e.phys_dst ∙ c.no_zero;
          total = omega (
            arith,
            c.total,
            available-reclaim s.free_list e.phys_dst,
            capacity-reclaim s.free_list e.phys_dst,
            ap holders left.0,
          );
        }))
  where
    left : (contents s.rob ≡ e ∷ contents (commit_head s.rob).1) × IsValid (commit_head s.rob).1
    left = commit_head-front s.rob e c.valid eq

    reclaimed :
        (if e.phys_dst == 0 then s.free_list else reclaim s.free_list e.phys_dst)
        ≡ reclaim s.free_list e.phys_dst
    reclaimed = elim (Bool-cases (e.phys_dst == 0)) [
      | inl z ↦
          rw (z, if◌then◌else◌)
            (sym (reclaim-zero s.free_list e.phys_dst ((==_iff e.phys_dst 0).0 z)))
      | inr pos ↦ rw (pos, if◌then◌else◌) refl
    ]
