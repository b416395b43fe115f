-- ===== src/SharedComponents/Teardown/Quiet.antt =====
-- The deployer of the operator is one that the deletion of shared components may rely on.
use petri_operator.Prelude.{String}
use petri_operator.Prelude.Effects.{Result}
use petri_operator.Cluster.{Api}
use petri_operator.Jobs.{DeployOptions}
use petri_operator.Jobs.Deployer.{JobDeployer}
use petri_operator.Jobs.Deployer.Unpatched.{
  submit_undeploy-IsUnpatched, observe_undeploy-IsUnpatched,
}
use petri_operator.Deploys.{job_deployer}
use petri_operator.SharedComponents.Teardown.Grounds.{IsQuiet}

job_deployer-IsQuiet :
    (api : Api) (hex_digest : String → String) (marshal : DeployOptions → Result String)
    (jobs : JobDeployer)
    → IsQuiet (job_deployer api hex_digest marshal jobs)
job_deployer-IsQuiet api hex_digest marshal jobs = (
  observe_undeploy-IsUnpatched api hex_digest marshal jobs,
  submit_undeploy-IsUnpatched api hex_digest marshal jobs,
)
