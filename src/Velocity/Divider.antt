-- ===== src/Velocity/Divider.antt =====
-- The rate divider: the position loop runs once in as many ticks as the divider says.
use marine_robotics_hil_sea.Base.{List, [], ◌∷◌}
use marine_robotics_hil_sea.Float.{Double, ◌⊕◌}
use marine_robotics_hil_sea.Velocity.State.{VelocityNode}
use marine_robotics_hil_sea.Velocity.Loops.{run_outer_loop}

-- Calls of `run_outer_loop`: the reference, the feedforward and the time step of each.
abbrev pub OuterCalls : Type 0 → Type 0
OuterCalls F = List (F × F × F)

module _ {F : Type 0} ⦃d : Double F⦄ where
  -- The time steps added up, in the order of the calls.
  pub total_dt : F → OuterCalls F → F
  total_dt sum [] = sum
  total_dt sum ((pos_ref, vel_ff, dt) ∷ calls) = total_dt (sum ⊕ dt) calls

module _ {T F : Type 0} ⦃d : Double F⦄ where
  pub outer_run : OuterCalls F → VelocityNode T F → VelocityNode T F
  outer_run [] s = s
  outer_run ((pos_ref, vel_ff, dt) ∷ calls) s = outer_run calls (run_outer_loop pos_ref vel_ff dt s)
