-- ===== src/Participant/Service/Accept.antt =====
-- The part of registration before the first write.
use go_finish_line_api.Prelude.{◌≡◌, ◌+◌, arith}
use go_finish_line_api.Text.{Platform}
use go_finish_line_api.Race.Entity.{Race}
use go_finish_line_api.Participant.Service.{RegisterInput, accept}
use go_finish_line_api.Store.{World}

-- Up to the first write `Register` reads the clock twice and draws an id, and no more.
pub accept-world :
    (pf : Platform) (input : RegisterInput) (race : Race) (w : World)
    → (accept pf input race w).1 ≡ record w { ticks = w.ticks + 1 + 1; drawn = w.drawn + 1 }
unfolding accept
accept-world pf input race w = ground arith
