-- ===== src/State/Types.antt =====
-- internal/state/state.go: the type State.
use sing_box_helper.Prelude.{String}
use sing_box_helper.Stamp.{Moment}

pub record State : Type 0 where
  pub uri : String
  pub label : String
  pub applied_at : Moment
