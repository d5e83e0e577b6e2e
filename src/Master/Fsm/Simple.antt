-- ===== src/Master/Fsm/Simple.antt =====
-- A machine that has the documented behaviour of fysom: it takes the first declared entry.
use cluster_runner_jie.Prelude.{ap, List, [], ◌∷◌}
use cluster_runner_jie.Master.Fsm.{Target}
use cluster_runner_jie.Master.Fsm.Fysom.{Fysom, Machine, Outcome, refused, declared, goes_to}

unfoldable pub take_first : {W : Type 0} → Machine W → W → List Target → W × Outcome
take_first m w [] = (w, refused)
take_first m w (d ∷ ds) = goes_to m d w

unfoldable pub simple : Fysom
unfolding take_first
simple = record {
  trigger = λ ts m e w. take_first m w (declared ts (m.current w) e);
  trigger_declared = λ ts m e w d h. ap (take_first m w) h;
  trigger_undeclared = λ ts m e w h. ap (take_first m w) h;
}
