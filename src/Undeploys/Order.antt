-- ===== src/Undeploys/Order.antt =====
-- The order of the levels.
use petri_operator.Prelude.{
  true, false, String, ◌≡◌, refl, List, [], ◌∷◌, ◌++◌, if◌then◌else◌, inl, inr,
}
use petri_operator.Prelude.Effects.{pure, ◌>>=◌, Result-cases}
use petri_operator.Types.{ComponentSpec}
use petri_operator.Namespaces.{World}
use petri_operator.Deploys.{Deployer}
use petri_operator.Undeploys.{undeploy_level, undeploy_levels}

module _ (deployer : Deployer) (target_ns : String) where
  -- A pass over levels that are split in two visits the lower part only once the upper part is
  -- done, in the state that the upper part left; otherwise the whole pass is that of the upper
  -- part: its answer, its calls and its changes.
  undeploy_levels-append :
      (upper lower : List (List ComponentSpec)) (w : World)
      → undeploy_levels deployer target_ns (upper ++ lower) w
        ≡ (undeploy_levels deployer target_ns upper >>= λ answer.
              if answer.0 then undeploy_levels deployer target_ns lower else pure answer)
            w
  unfolding undeploy_levels
  undeploy_levels-append [] lower w = refl
  undeploy_levels-append (level ∷ upper) lower w =
      let first = undeploy_level deployer target_ns level w in
      elim (Result-cases first.0) [
        | inr (x, e) ↦ (rw e)
        | inl (false, e) ↦ (rw e)
        | inl (true, e) ↦ rw e (undeploy_levels-append upper lower first.1)
      ]
