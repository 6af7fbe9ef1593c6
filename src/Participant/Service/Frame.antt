-- ===== src/Participant/Service/Frame.antt =====
-- The worlds in which the tables are sound and the other sessions keep them so.
use go_finish_line_api.Prelude.{List, All}
use go_finish_line_api.Participant.Repository.Sound.{IsSound}
use go_finish_line_api.Store.{Db, Interlude, World}

-- The other sessions keep the invariant.
abbrev pub Relies : List Interlude → Type 0
Relies script = All (λ i. (db : Db) → IsSound db → IsSound (i.others db)) script

pub record IsSafe (w : World) : Type 0 where
  pub sound : IsSound w.db
  pub relies : Relies w.script
