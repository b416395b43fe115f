-- ===== src/Shared/Deprovision/Settled.antt =====
-- What a finished release of all shared components says of each.
use petri_operator.Prelude.{
  ℕ, String, Bool, true, ◌≡◌, ◌≢◌, sym, ap, none, some, List, [], ◌∷◌, ◌==◌, eq_iff, arith, inl,
  inr, ◌⊎◌, Bool-cases,
}
use petri_operator.Prelude.Effects.{ok, Result-cases}
use petri_operator.Types.{EnvironmentTemplate, ComponentSpec}
use petri_operator.Cluster.{Api}
use petri_operator.Renderer.{Engine}
use petri_operator.Namespaces.{World}
use petri_operator.Shared.Provision.{Provisioner}
use petri_operator.Shared.Deprovision.{release_shared, release_all, deprovision_shared}
use petri_operator.Shared.Deprovision.Cleared.{answered}
use petri_operator.Shared.Deprovision.Grounds.{IsReleased}
use petri_operator.Shared.Deprovision.Released.{release_shared-none}

module _ (api : Api) (live : Bool) (hex_digest : String → String) (engine : Engine)
    (provisioner : Provisioner) (target_ns : String) where
  -- The components in turn: nothing is done for an own one, and a shared one is released.
  abbrev pub AreSettled : List ComponentSpec → World → World → Type 0
  AreSettled [] w w' = w' ≡ w
  AreSettled (c ∷ cs) w w' =
      ((c.shared_component_ref ≡ "") × AreSettled cs w w')
      ⊎ ((u : World) × (c.shared_component_ref ≢ "")
          × IsReleased api live hex_digest engine provisioner target_ns w.env c w u
          × AreSettled cs u w')

  release_all_done :
      (cs : List ComponentSpec) (w w' : World) (later : ℕ)
      → release_all api live hex_digest engine provisioner target_ns cs w ≡ (ok (true, later), w')
      → AreSettled cs w w'
  unfolding release_all
  release_all_done [] w w' later h = sym (ap (λ r. r.1) h)
  release_all_done (c ∷ cs) w w' later h = elim (Bool-cases (c.shared_component_ref == "")) [
    | inl own ↦ inl (
      (eq_iff c.shared_component_ref "").0 own,
      release_all_done cs w w' later (rw (own, release_all) at h),
    )
    | inr shared ↦
        let one = release_shared api live hex_digest engine provisioner w.env target_ns c w in
        elim (Result-cases one.0) [
          | inr (x, e) ↦ absurd (ground (arith, ap (λ r. r.0) (rw (shared, e) at h)))
          | inl (some t, e) ↦ absurd (ground (arith, ap (λ r. r.0) (rw (shared, e) at h)))
          | inl (none, e) ↦ inr (
            one.1,
            λ same. ground (arith, shared, same, eq_iff c.shared_component_ref ""),
            release_shared-none api live hex_digest engine provisioner target_ns w.env c w one.1
                (answered one none e),
            release_all_done cs one.1 w' later (rw (shared, e) at h),
          )
        ]
  ]

  -- If `deprovisionShared` is done, then each component of the template in turn is the environment's
  -- own, or its shared component or its provider is missing, or its provision Job is missing or has
  -- ended and: without a deprovision script the Job and the two secrets are cleared; or the binding
  -- secret is missing; or the deprovision Job for this environment, component and shared component
  -- was observed to succeed, and both Jobs and both secrets are cleared; or it was observed to fail,
  -- the record of that in the status as it then is uses up the retries, and both secrets are
  -- cleared. An object is cleared if the server deleted it, or said that it is missing. Each read
  -- and each deletion is one that the pass made.
  pub deprovision_shared_done :
      (template : EnvironmentTemplate) (w w' : World) (later : ℕ)
      → deprovision_shared api live hex_digest engine provisioner target_ns template w
        ≡ (ok (true, later), w')
      → AreSettled template.components w w'
  unfolding deprovision_shared
  deprovision_shared_done template w w' later h = release_all_done template.components w w' later h
