-- ===== src/Undeploys/Samples.antt =====
-- The teardown of three components.
use petri_operator.Prelude.{true, ◌≡◌, refl}
use petri_operator.Prelude.Effects.{ok}
use petri_operator.Graph.Samples.{built}
use petri_operator.Status.{find_component}
use petri_operator.Deploys.{each_component, deploy_opts}
use petri_operator.Undeploys.{
  observe_one, judge_level, observe_undeploy_level, submit_undeploy_level, undeploy_level,
  undeploy_levels, undeploy_all,
}
use petri_operator.Undeploys.Down.{IsDown}
use petri_operator.Undeploys.Settled.{undeploy_all_done}
use petri_operator.Fixtures.{components, world, done_deployer}

torn_down : (undeploy_all done_deployer "ns" components world).0 ≡ ok (true, 0)
unfolding undeploy_all undeploy_levels undeploy_level observe_undeploy_level submit_undeploy_level
    judge_level observe_one each_component deploy_opts find_component
torn_down = rw (built, undeploy_all) refl

undeploy_all_done_example :
    IsDown done_deployer "ns" components world (undeploy_all done_deployer "ns" components world).1
undeploy_all_done_example = undeploy_all_done done_deployer "ns" components 0 world torn_down
