-- ===== src/Scoreboard/Tests.antt =====
-- A scoreboard after two instructions that write x5, of which the older one has retired.
use rvsim.Base.{true, [], ◌∷◌, arith}
use rvsim.RobEntry.{RobEntry, default_ctrl, default_entry}
use rvsim.Scoreboard.{new, dispatch, retire}
use rvsim.Scoreboard.Tracks.{Tracks, Run, start, after, dispatching, retiring, Run-Tracks}

abbrev older : RobEntry
older = record default_entry { tag = 1; rd = 5; ctrl = record default_ctrl { reg_write = true } }

abbrev newer : RobEntry
newer = record default_entry { tag = 2; rd = 5; ctrl = record default_ctrl { reg_write = true } }

abbrev dispatched : Run (dispatch (dispatch new older) newer) (older ∷ newer ∷ [])
dispatched =
    after (after start (dispatching new [] older (omega arith)))
      (dispatching (dispatch new older) (older ∷ []) newer (omega arith))

abbrev retired : Run (retire (dispatch (dispatch new older) newer) older) (newer ∷ [])
retired = after dispatched (
    retiring (dispatch (dispatch new older) newer) older (newer ∷ []) (omega arith)
      (omega arith, tt))

Run-Tracks_example : Tracks (retire (dispatch (dispatch new older) newer) older) (newer ∷ [])
Run-Tracks_example = Run-Tracks retired
