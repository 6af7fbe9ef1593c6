-- ===== src/Guarantee/Heeding.antt =====
-- A guarantee of nothing, by which the other sessions can be followed alone.
use go_finish_line_api.Guarantee.{Guarantee, IsKept, Enters}
use go_finish_line_api.Store.{Interlude}

-- What is asked of the other sessions alone.
abbrev pub heeding : (Interlude → Type 0) → Guarantee
heeding T = record { holds = λ a b. Unit {0}; trust = T; admits = λ r. Unit {0} }

pub heeding-IsKept : (T : Interlude → Type 0) → IsKept (heeding T)
heeding-IsKept T = record {
  same = λ db. tt;
  through = λ a b c f g. tt;
  others = λ i db t. tt;
  person = λ pf p db. tt;
  race = λ r db admitted. tt;
  race_gone = λ slug db. tt;
  account = λ pf u db. tt;
  password = λ id hash db. tt;
  token = λ t db. tt;
  rotated = λ id at db. tt;
  revoked = λ p at db. tt;
}

pub heeding-Enters : (T : Interlude → Type 0) → Enters (heeding T)
heeding-Enters T = record {
  entered = λ r db good. tt;
  owned = λ capacity id. record { withdrawn = λ db. tt; confirmed = λ r db mine low good. tt };
}
