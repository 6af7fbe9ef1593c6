-- ===== src/Participant/Service/Safety.antt =====
-- Registration keeps the invariant of the tables, whatever the other sessions do between its
-- statements, as long as they keep it too; and each request is such a session for the others.
use go_finish_line_api.Text.{Platform}
use go_finish_line_api.Participant.Service.{RegisterInput, register}
use go_finish_line_api.Participant.Service.Frame.{IsSafe}
use go_finish_line_api.Guarantee.{keeping}
use go_finish_line_api.Guarantee.Registrations
use go_finish_line_api.Guarantee.Soundness.{Sound, Sound-IsKept, Sound-Enters}
use go_finish_line_api.Store.{World}

-- Whatever the request, if the tables are sound and the other sessions keep them so, they are
-- sound when `Register` returns, with or without an error: no dorsal is given twice in a race, no
-- person is registered twice for one, and confirmed rows, and only they, have a dorsal.
pub register-Keeps :
    (pf : Platform) (input : RegisterInput) (w : World) → IsSafe w → IsSafe (register pf input w).1
register-Keeps pf input w s =
    let after =
      Registrations.register-Keeps (keeping Sound) Sound-IsKept Sound-Enters pf input w s.relies in
    record { sound = after.kept s.sound; relies = after.trusts }
