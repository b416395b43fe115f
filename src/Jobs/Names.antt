-- ===== src/Jobs/Names.antt =====
-- The names of Jobs.
use petri_operator.Prelude.{
  ℕ, zero, suc, ◌≤◌, ◌<◌, String, ◌≡◌, refl, sym, ap, ◌∙◌, arith, leb, Bool-cases, inl, inr, eq_iff,
}
use Prim.Native.String.{count, ◌++◌}
use text.Mathlib.TextLemmas.{append_assoc, cons-append, length-append, length-cons}
use petri_operator.Jobs.{
  take, truncate_name, release_job_name, Op, deploy, undeploy, provision, deprovision, op_name,
  max_job_name_len, job_name_hash_len,
}

count-take : (n : ℕ) (s : String) → n ≤ count s → count (take n s) ≡ n
unfolding take
count-take zero s h = refl
count-take (suc n) String.[] h = absurd (omega arith)
count-take (suc n) (String.◌∷◌ c s) h =
    omega (arith, length-cons c s, length-cons c (take n s), count-take n s)

-- A Job name fits a DNS-1123 label. One that already fits is kept, a longer one is cut to exactly
-- 63 characters, whatever the digest, if that has at least 8.
pub truncate_name_fits :
    (hex_digest : String → String) (name : String)
    → ((s : String) → job_name_hash_len ≤ count (hex_digest s))
    → (count (truncate_name hex_digest name) ≤ max_job_name_len)
      × (count name ≤ max_job_name_len → truncate_name hex_digest name ≡ name)
      × (max_job_name_len < count name → count (truncate_name hex_digest name) ≡ max_job_name_len)
unfolding truncate_name
truncate_name_fits hex_digest name digests =
    let long : max_job_name_len < count name → count (take 54 name) ≡ 54 =
      λ h. count-take 54 name (omega arith) in
    let hash = count-take job_name_hash_len (hex_digest name) (digests name) in
    ground (
      arith,
      long,
      hash,
      length-append (take 54 name) ("-" ++ take 8 (hex_digest name)),
      length-append "-" (take 8 (hex_digest name)),
    )

take-take : (k n : ℕ) (s t : String) → k ≤ n → n ≤ count s → take k (take n s ++ t) ≡ take k s
unfolding take
take-take zero n s t h l = refl
take-take (suc k) zero s t h l = absurd (omega arith)
take-take (suc k) (suc n) String.[] t h l = absurd (omega arith)
take-take (suc k) (suc n) (String.◌∷◌ c s) t h l =
    rw (cons-append c (take n s) t)
      (ap (λ r. String.◌∷◌ c r) (take-take k n s t (omega arith) (omega (arith, length-cons c s))))

take-append : (k : ℕ) (s t : String) → k ≤ count s → take k (s ++ t) ≡ take k s
unfolding take
take-append zero s t h = refl
take-append (suc k) String.[] t h = absurd (omega arith)
take-append (suc k) (String.◌∷◌ c s) t h =
    rw (cons-append c s t)
      (ap (λ r. String.◌∷◌ c r) (take-append k s t (omega (arith, length-cons c s))))

-- A cut name keeps its first 54 characters.
take-truncate_name :
    (hex_digest : String → String) (k : ℕ) (name : String)
    → k ≤ 54
    → take k (truncate_name hex_digest name) ≡ take k name
unfolding truncate_name
take-truncate_name hex_digest k name h = elim (Bool-cases (leb (count name) 63)) [
  | inl fits ↦ rw fits
  | inr long ↦
      rw long
        (unfold take in take-take k 54 name ("-" ++ take 8 (hex_digest name)) h (ground arith))
]

-- The first ten characters of the name of a Job for an operation.
abbrev op_tag : Op → String
op_tag deploy = "petri-depl"
op_tag undeploy = "petri-unde"
op_tag provision = "petri-prov"
op_tag deprovision = "petri-depr"

take-op_name :
    (op : Op) (rest : String) → take 10 ("petri-" ++ (op_name op ++ ("-" ++ rest))) ≡ op_tag op
unfolding take
take-op_name deploy rest =
    ap (take 10) (sym (append_assoc "petri-" "deploy" ("-" ++ rest)))
    ∙ take-append 10 "petri-deploy" ("-" ++ rest) (omega arith)
take-op_name undeploy rest =
    ap (take 10) (sym (append_assoc "petri-" "undeploy" ("-" ++ rest)))
    ∙ take-append 10 "petri-undeploy" ("-" ++ rest) (omega arith)
take-op_name provision rest =
    ap (take 10) (sym (append_assoc "petri-" "provision" ("-" ++ rest)))
    ∙ take-append 10 "petri-provision" ("-" ++ rest) (omega arith)
take-op_name deprovision rest =
    ap (take 10) (sym (append_assoc "petri-" "deprovision" ("-" ++ rest)))
    ∙ take-append 10 "petri-deprovision" ("-" ++ rest) (omega arith)

op_tag-injective : (p q : Op) → op_tag p ≡ op_tag q → p ≡ q
op_tag-injective deploy deploy e = refl
op_tag-injective deploy undeploy e =
    absurd (ground (arith, eq_iff (op_tag deploy) (op_tag undeploy)))
op_tag-injective deploy provision e =
    absurd (ground (arith, eq_iff (op_tag deploy) (op_tag provision)))
op_tag-injective deploy deprovision e =
    absurd (ground (arith, eq_iff (op_tag deploy) (op_tag deprovision)))
op_tag-injective undeploy deploy e =
    absurd (ground (arith, eq_iff (op_tag undeploy) (op_tag deploy)))
op_tag-injective undeploy undeploy e = refl
op_tag-injective undeploy provision e =
    absurd (ground (arith, eq_iff (op_tag undeploy) (op_tag provision)))
op_tag-injective undeploy deprovision e =
    absurd (ground (arith, eq_iff (op_tag undeploy) (op_tag deprovision)))
op_tag-injective provision deploy e =
    absurd (ground (arith, eq_iff (op_tag provision) (op_tag deploy)))
op_tag-injective provision undeploy e =
    absurd (ground (arith, eq_iff (op_tag provision) (op_tag undeploy)))
op_tag-injective provision provision e = refl
op_tag-injective provision deprovision e =
    absurd (ground (arith, eq_iff (op_tag provision) (op_tag deprovision)))
op_tag-injective deprovision deploy e =
    absurd (ground (arith, eq_iff (op_tag deprovision) (op_tag deploy)))
op_tag-injective deprovision undeploy e =
    absurd (ground (arith, eq_iff (op_tag deprovision) (op_tag undeploy)))
op_tag-injective deprovision provision e =
    absurd (ground (arith, eq_iff (op_tag deprovision) (op_tag provision)))
op_tag-injective deprovision deprovision e = refl

-- Jobs of different operations have different names, whatever releases they are for, also where
-- the names are cut and hashed: an install and an uninstall never take one another's Job for their
-- own.
pub job_name-injective :
    (hex_digest : String → String) (p q : Op) (r s : String)
    → release_job_name hex_digest p r ≡ release_job_name hex_digest q s
    → p ≡ q
unfolding release_job_name
job_name-injective hex_digest p q r s e =
    let name = λ (o : Op) (t : String). "petri-" ++ (op_name o ++ ("-" ++ t)) in
    op_tag-injective p q (
      sym (take-op_name p r)
      ∙ (sym (take-truncate_name hex_digest 10 (name p r) (omega arith))
          ∙ (ap (take 10) e
              ∙ (take-truncate_name hex_digest 10 (name q s) (omega arith) ∙ take-op_name q s))))
