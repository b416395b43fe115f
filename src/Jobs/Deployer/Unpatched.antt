-- ===== src/Jobs/Deployer/Unpatched.antt =====
-- The deployer patches no shared component.
use petri_operator.Prelude.{String, arith}
use petri_operator.Prelude.Effects.{Result}
use petri_operator.Cluster.{Api}
use petri_operator.Cluster.Patches.{IsUnpatched}
use petri_operator.Jobs.{DeployOptions, Op, undeploy}
use petri_operator.Jobs.Deployer.{JobDeployer, submit_undeploy, observe_undeploy, failure_reason}
use petri_operator.Jobs.Protocol.Unpatched.{submit_with-IsUnpatched, observe_with-IsUnpatched}

module _ (api : Api) (hex_digest : String → String) (marshal : DeployOptions → Result String)
    (jobs : JobDeployer) where
  pub submit_undeploy-IsUnpatched :
      (opts : DeployOptions) → IsUnpatched (submit_undeploy api hex_digest marshal jobs opts)
  unfolding submit_undeploy
  submit_undeploy-IsUnpatched opts log = submit_with-IsUnpatched api _ _ _ _ _ _ log

  failure_reason-IsUnpatched :
      (opts : DeployOptions) (op : Op)
      → IsUnpatched (failure_reason api hex_digest marshal jobs opts op)
  unfolding failure_reason
  failure_reason-IsUnpatched opts op log = ground arith

  pub observe_undeploy-IsUnpatched :
      (opts : DeployOptions) → IsUnpatched (observe_undeploy api hex_digest marshal jobs opts)
  unfolding observe_undeploy
  observe_undeploy-IsUnpatched opts =
      observe_with-IsUnpatched api _ _ _ _ _ _ (failure_reason-IsUnpatched opts undeploy)
