-- ===== src/Environments/Deadlines.antt =====
-- The deadline of an environment, from its own time to live or its template's.
use petri_operator.Prelude.{
  ℕ, zero, suc, ◌+◌, String, false, ◌≡◌, ◌≢◌, refl, ap, ◌∙◌, some, if◌then◌else◌, ◌==◌, ℤ, pos,
  negsuc, arith, eq_iff, inl, inr, ◌⊎◌, ◌↔◌, Bool-cases,
}
use petri_operator.Prelude.Effects.{ok, Result-cases}
use petri_operator.Platform.{Platform}
use petri_operator.Environments.{resolve_deadline, deadline_after}

module _ (p : Platform) where
  -- The text that decides: the environment's own unless that is empty.
  abbrev IsDecisive : String → String → String → Type 0
  IsDecisive env_ttl template_ttl value =
      (value ≢ "") × ((value ≡ env_ttl) ⊎ ((env_ttl ≡ "") × (value ≡ template_ttl)))

  decisive :
      (env_ttl template_ttl : String)
      → let value = if env_ttl == "" then template_ttl else env_ttl in
        value ≢ "" → IsDecisive env_ttl template_ttl value
  decisive env_ttl template_ttl h = elim (Bool-cases (env_ttl == "")) [
    | inl e ↦ rw e (λ x. h (rw e x), inr (ground (arith, eq_iff env_ttl ""), refl))
    | inr e ↦ rw e (λ x. h (rw e x), inl refl)
  ]

  chosen :
      (env_ttl template_ttl value : String)
      → value ≢ ""
      → (value ≡ env_ttl) ⊎ ((env_ttl ≡ "") × (value ≡ template_ttl))
      → (if env_ttl == "" then template_ttl else env_ttl) ≡ value
  chosen env_ttl template_ttl value u (inl e) = ground (arith, e, u, eq_iff env_ttl "")
  chosen env_ttl template_ttl value u (inr (e, f)) = ground (arith, e, f, eq_iff env_ttl "")

  deadline_after-some :
      (created : ℕ) (ttl : ℤ) (deadline : ℕ)
      → deadline_after created ttl ≡ ok (some deadline)
      → (n : ℕ) × (ttl ≡ pos (suc n)) × (deadline ≡ created + suc n)
  deadline_after-some created (pos zero) deadline h = absurd (ground arith)
  deadline_after-some created (pos (suc n)) deadline h = (n, refl, ground arith)
  deadline_after-some created (negsuc n) deadline h = absurd (ground arith)

  -- An environment has a deadline exactly if the text that decides, its own time to live or else
  -- its template's, is not empty and parses as a positive duration; the deadline is that long
  -- after its creation.
  resolve_deadline_iff :
      (created : ℕ) (env_ttl template_ttl : String) (deadline : ℕ)
      → resolve_deadline p created env_ttl template_ttl ≡ ok (some deadline) ↔ (
          (value : String) × ((n : ℕ) × IsDecisive env_ttl template_ttl value
            × (p.parse_duration value ≡ ok (pos (suc n)))
            × (deadline ≡ created + suc n)))
  unfolding resolve_deadline
  resolve_deadline_iff created env_ttl template_ttl deadline =
      let value = if env_ttl == "" then template_ttl else env_ttl in
      (
        λ h. elim (Bool-cases (value == "")) [
          | inl nothing ↦ absurd (ground (arith, nothing, h))
          | inr given ↦
              let d = decisive env_ttl template_ttl (ground (arith, eq_iff value "")) in
              elim (Result-cases (p.parse_duration value)) [
                | inr (x, e) ↦ absurd (ground (arith, given, e, h))
                | inl (ttl, e) ↦
                    let (n, same, sum) =
                      deadline_after-some created ttl deadline (ground (arith, given, e, h)) in
                    (value, (n, d, e ∙ ap ok same, sum))
              ]
        ],
        λ (v, (n, (u, d), e, f)).
            let same : value ≡ v = chosen env_ttl template_ttl v u d in
            let given : (value == "") ≡ false = ground (arith, same, u, eq_iff value "") in
            rw (given, same, e, f),
      )
