-- ===== src/Cluster/Patches.antt =====
-- The patches of shared components that a log holds.
use petri_operator.Prelude.{List, [], ◌∷◌, ◌≡◌}
use petri_operator.Prelude.Effects.{M}
use petri_operator.Types.Shared.{SharedComponent}
use petri_operator.Cluster

abbrev pub patches : Cluster.Log → List SharedComponent
patches [] = []
patches (Cluster.patch_shared sc ∷ log) = sc ∷ patches log
patches (_ ∷ log) = patches log

-- The action sends none.
abbrev pub IsUnpatched : {A : Type 0} → M Cluster.Log A → Type 0
IsUnpatched m = (log : Cluster.Log) → patches (m log).1 ≡ patches log
