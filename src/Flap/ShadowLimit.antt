-- ===== src/Flap/ShadowLimit.antt =====
-- The torque limit of the shadow controller, among the parameters and in the controller.
use marine_robotics_hil_sea.Flap.State.{FlapSim}
use marine_robotics_hil_sea.Flap.StoreLimit.{StoreLimited, Limited}
use marine_robotics_hil_sea.Float.{Double}

module _ {T F W V K : Type 0} ⦃d : Double F⦄ where
  -- The torque limit is not refused, neither in the store nor in the controller.
  pub record IsLimited (s : FlapSim T F W V K) : Type 0 where
    pub store_limited : StoreLimited s.store
    pub limited : Limited s.shadow_pid
