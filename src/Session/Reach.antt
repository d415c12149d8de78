-- ===== src/Session/Reach.antt =====
-- The states that a handler of lines reaches, and how an invariant is carried along them.
use seclab_suite_protocol_si.Base.{List, subst, ◌≡◌}
use seclab_suite_protocol_si.Base.Text.{Text}
use seclab_suite_protocol_si.Session.{Event}
use seclab_suite_protocol_si.Session.Lines.{LineStep, goes_on, quits}

module _ {S : Type 0} where
  -- What a line leads to, as a condition on the state.
  abbrev pub Leads : (S → Type 0) → LineStep S → Type 0
  Leads P (goes_on state events) = P state
  Leads P (quits events) = Unit

  module _ (step : S → Text → LineStep S) (start : S) where
    -- The states that the lines of some client lead to.
    pub data Reaches : S → Type 0 where
      fresh : Reaches start
      next :
          {state : S} (after : S) (line : Text) (events : List Event)
          → Reaches state
          → step state line ≡ goes_on after events
          → Reaches after

    pub Reaches-keeps :
        (P : S → Type 0)
        → P start
        → ((state : S) (line : Text) → P state → Leads P (step state line))
        → {state : S} → Reaches state
        → P state
    Reaches-keeps P first each fresh = first
    Reaches-keeps P first each (next {state} after line events before same) =
        subst (Leads P) same (each state line (Reaches-keeps P first each before))
