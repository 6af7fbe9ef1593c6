-- ===== src/Store/Laws.antt =====
-- What a statement does to the world around it.
use go_finish_line_api.Prelude.{◌+◌, ◌≤◌, ◌≡◌, List, [], ◌∷◌, arith, length}
use go_finish_line_api.Store.{Interlude, Sql, World, call, later}

-- A statement sends nothing.
pub call-outbox : {A : Type 0} (stmt : Sql A) (w : World) → (call stmt w).1.outbox ≡ w.outbox
unfolding call
call-outbox stmt w = ground arith

length-later : (s : List Interlude) → length s ≤ length (later s) + 1
length-later [] = omega arith
length-later (i ∷ s) = omega arith

-- A statement takes one entry of the script at most.
pub call-script :
    {A : Type 0} (stmt : Sql A) (w : World) → length w.script ≤ length (call stmt w).1.script + 1
unfolding call
call-script stmt w = ground (arith, length-later w.script)

-- With nothing in the script a statement runs on the tables as they are.
pub call_alone :
    {A : Type 0} (stmt : Sql A) (w : World)
    → w.script ≡ []
    → ((call stmt w).0 ≡ (stmt w.db).0) × ((call stmt w).1 ≡ record w { db = (stmt w.db).1 })
unfolding call
call_alone stmt w h = (ground arith, ground arith)
