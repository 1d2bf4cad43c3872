-- ===== src/Controller/Command/Guarded.antt =====
-- src/rmpflow_controller_node.cpp: what the guard lets through.
use rmp_proximity_sensor.Common.{◌≡◌, false, List, [], ◌∷◌}
use rmp_proximity_sensor.Common.Floats.{Floats}

module _ {Double Time : Type 0} (floats : Floats Double Time) where
  -- A number from `- limit` to `limit`.
  pub record Within (limit x : Double) : Type 0 where
    pub not_above : floats.lt limit x ≡ false
    pub not_below : floats.lt x (floats.neg limit) ≡ false

  -- A limit from zero on: the comparison of doubles orders it and its negative.
  pub record IsLimit (limit : Double) : Type 0 where
    pub not_above_itself : floats.lt limit limit ≡ false
    pub negative_not_below_itself : floats.lt (floats.neg limit) (floats.neg limit) ≡ false
    pub not_below_negative : floats.lt limit (floats.neg limit) ≡ false

  -- Each joint's position is the measured one and a step within a limit, its velocity is within a limit.
  pub data Limited (step velocity : Double) : List Double → List Double → List Double → Type 0 where
    no_joint : Limited step velocity [] [] []
    joint :
        (measured delta qd : Double) (rest qs qds : List Double)
        → Within step delta
        → Within velocity qd
        → Limited step velocity rest qs qds
        → Limited step velocity (measured ∷ rest) (floats.add measured delta ∷ qs) (qd ∷ qds)
