-- ===== src/Operator/Completion.antt =====
-- The deletion of an environment by the operator, from the mark of its completion back to the
-- components: what reconcileDelete, undeployAll and deprovisionShared give together.
use petri_operator.Prelude.{String, true, false, ◌≡◌, ◌⊎◌, inl, inr, ◌∷◌}
use petri_operator.Prelude.Effects.{Err, ok, err, is_not_found}
use petri_operator.Types.{Environment, EnvironmentTemplate, Namespace, terminating}
use petri_operator.Cluster.{Log, Api, get_namespace, get_template}
use petri_operator.Platform.{Platform}
use petri_operator.Renderer.{Engine}
use petri_operator.Namespaces.{
  World, Reconciler, owns_namespace, target_namespace, ensure_deployer_role_binding,
}
use petri_operator.Environments.Teardown.{Cleanup, reconcile_delete}
use petri_operator.Environments.Teardown.Completion.{
  is_complete, is_bound, Finished, untemplated, unbound, cleaned, IsSeparate,
  reconcile_delete-IsOver,
}
use petri_operator.Deploys.{Deployer}
use petri_operator.Shared.Provision.{Provisioner}
use petri_operator.Shared.Deprovision.{deprovision_shared}
use petri_operator.Shared.Deprovision.Keeps.{deprovision_shared-Keeps}
use petri_operator.Undeploys.Keeps.{cleanup}
use petri_operator.Undeploys.Down.{IsDown}
use petri_operator.Undeploys.Settled.{undeploy_all_done}
use petri_operator.Shared.Deprovision.Settled.{AreSettled, deprovision_shared_done}
use petri_operator.Shared.Deprovision.Cleared.{answered}

-- `deployer` runs the releases, `provisioner` the scripts of the shared components.
module _ (api : Api) (p : Platform) (r : Reconciler) (engine : Engine) (deployer : Deployer)
    (provisioner : Provisioner) where
  abbrev pub taking_down : Cleanup
  taking_down =
      cleanup deployer (deprovision_shared api r.has_reader p.hex_digest engine provisioner)
        (deprovision_shared-Keeps api r.has_reader p.hex_digest engine provisioner)

  abbrev pub terminated : Environment → Environment
  terminated env = let s = env.status in record env { status = record s { phase = terminating } }

  -- There is nothing to take down, or every component of the template is taken down.
  pub data IsEmptied (name : String) (env : Environment) (log : Log) : Type 0 where
    no_template :
        (e : Err)
        → api.template_at env.namespace env.spec.template log ≡ err e
        → is_not_found e ≡ true
        → IsEmptied name env log
    never_bound : is_bound api p r taking_down env ≡ false → IsEmptied name env log
    taken_down :
        (t : EnvironmentTemplate) (before between after : World)
        → api.template_at env.namespace env.spec.template log ≡ ok t
        → (before ≡ (
            let asked = get_template env.namespace env.spec.template ∷ log in
            record {
              log = (ensure_deployer_role_binding api p r name asked).1;
              env = terminated env;
            }))
        → IsDown deployer name t.components before between
        → AreSettled api r.has_reader p.hex_digest engine provisioner name t.components between
            after
        → IsEmptied name env log

  Finished-IsEmptied :
      (name : String) (env : Environment) (log : Log)
      → Finished api p r taking_down name env log
      → IsEmptied name env log
  Finished-IsEmptied name env log (untemplated e h lost) = no_template e h lost
  Finished-IsEmptied name env log (unbound free) = never_bound free
  Finished-IsEmptied name env log (cleaned t before later again h same a b) =
      let between = (taking_down.undeploy_all name t before).1 in
      let released = taking_down.deprovision_shared name t between in
      taken_down t before between released.1 h same
        (undeploy_all_done deployer name t.components later before a)
        (deprovision_shared_done api r.has_reader p.hex_digest engine provisioner name t between
          released.1 again (answered released (true, again) b))

  -- A pass over an environment that is being deleted leaves the condition CleanupComplete as it
  -- is, unless the environment's target namespace exists and is its own, and: its template is
  -- missing; or it is not bound to the namespace; or the pass has gone through the components of its
  -- template twice, and found each to be undeployed, or its undeploy to have failed with the retries
  -- used up, and each shared component to be released on one of the grounds of deprovisionShared. Setting a condition is taken to leave those
  -- of other types alone.
  pub reconcile_delete-IsEmptied :
      (w : World)
      → IsSeparate api p r taking_down
      → let w' = (reconcile_delete api p r taking_down w).1 in
        (is_complete api p r taking_down w'.env ≡ is_complete api p r taking_down w.env)
        ⊎ ((name : String) × ((ns : Namespace) × (target_namespace api p r w.env ≡ ok name)
              × (api.namespace_at r.has_reader name w.log ≡ ok ns)
              × (owns_namespace w.env ns ≡ true)
              × IsEmptied name w.env (get_namespace r.has_reader name ∷ w.log)))
  reconcile_delete-IsEmptied w separate =
      elim (reconcile_delete-IsOver api p r taking_down separate w) [
        | inl same ↦ inl same
        | inr o ↦
            let end =
              Finished-IsEmptied o.name w.env (get_namespace r.has_reader o.name ∷ w.log) o.end in
            inr (o.name, (o.ns, o.target, o.read, o.own, end))
      ]
