-- ===== src/Pmp/Locks.antt =====
-- Writes to the registers of protection entries, and locked entries.
use rvsim.Base.{
  ℕ, ◌≡◌, refl, ap, ◌∙◌, true, not, ◌&&◌, List, [], ◌∷◌, arith, length, length-set, get_or-set, ltb,
  if◌then◌else◌, ◌==◌,
}
use rvsim.Pmp.{Pmp, disabled, entry_at, is_locked, set_cfg, set_addr, get_cfg, get_addr}

-- A write to one of the registers.
pub data Write : Type 0 where
  cfg addr : (idx value : ℕ) → Write

abbrev pub perform : Pmp → Write → Pmp
perform p (cfg idx value) = set_cfg p idx value
perform p (addr idx value) = set_addr p idx value

unfoldable pub perform_all : Pmp → List Write → Pmp
perform_all p [] = p
perform_all p (w ∷ ws) = perform_all (perform p w) ws

perform-length : (p : Pmp) (w : Write) → length (perform p w).entries ≡ length p.entries
unfolding set_cfg set_addr
perform-length p (cfg idx value) =
    ground (arith, length-set p.entries idx (record (entry_at p idx) { cfg = value }))
perform-length p (addr idx value) =
    ground (arith, length-set p.entries idx (record (entry_at p idx) { addr = value }))

-- After a write to a configuration or an address register, a read of the same register gives the
-- value if the entry exists and is not locked; every other register reads as before.
pub reads_after :
    (p : Pmp) (i j value : ℕ)
    → (get_cfg (set_cfg p i value) j ≡ (
        if (i == j) && ltb i (length p.entries) && not (is_locked (entry_at p i))
        then value
        else get_cfg p j))
      × (get_addr (set_cfg p i value) j ≡ get_addr p j)
      × (get_addr (set_addr p i value) j ≡ (
          if (i == j) && ltb i (length p.entries) && not (is_locked (entry_at p i))
          then value
          else get_addr p j))
      × (get_cfg (set_addr p i value) j ≡ get_cfg p j)
unfolding get_cfg get_addr set_cfg set_addr
reads_after p i j value =
    let e = entry_at p i in
    (
      ground (
        arith,
        get_or-set p.entries i j (record e { cfg = value }) disabled,
        length-set p.entries i (record e { cfg = value }),
      ),
      ground (
        arith,
        get_or-set p.entries i j (record e { cfg = value }) disabled,
        length-set p.entries i (record e { cfg = value }),
      ),
      ground (
        arith,
        get_or-set p.entries i j (record e { addr = value }) disabled,
        length-set p.entries i (record e { addr = value }),
      ),
      ground (
        arith,
        get_or-set p.entries i j (record e { addr = value }) disabled,
        length-set p.entries i (record e { addr = value }),
      ),
    )

-- The entry itself.
perform_locked :
    (p : Pmp) (w : Write) (i : ℕ)
    → is_locked (entry_at p i) ≡ true
    → entry_at (perform p w) i ≡ entry_at p i
unfolding set_cfg set_addr
perform_locked p (cfg idx value) i h =
    ground (arith, get_or-set p.entries idx i (record (entry_at p idx) { cfg = value }) disabled)
perform_locked p (addr idx value) i h =
    ground (arith, get_or-set p.entries idx i (record (entry_at p idx) { addr = value }) disabled)

-- No sequence of writes to configuration and address registers changes an entry that is locked, or
-- the number of entries.
pub perform_all-locked :
    (p : Pmp) (ws : List Write) (i : ℕ)
    → is_locked (entry_at p i) ≡ true
    → (entry_at (perform_all p ws) i ≡ entry_at p i)
      × (length (perform_all p ws).entries ≡ length p.entries)
unfolding perform_all
perform_all-locked p [] i h = (refl, refl)
perform_all-locked p (w ∷ ws) i h =
    let one = perform_locked p w i h in
    let rest = perform_all-locked (perform p w) ws i (ap is_locked one ∙ h) in
    (rest.0 ∙ one, rest.1 ∙ perform-length p w)
