-- ===== src/SecretGen.antt =====
-- internal/secretgen/secretgen.go: random texts over an alphabet. The alphabet has ASCII characters
-- only, so an index of a byte is one of a character.
use petri_operator.Prelude.{
  ℕ, zero, suc, String, Option, none, some, if◌then◌else◌, ◌==◌, ℤ, pos, negsuc,
}
use Prim.Native.Char.{Char}
use Prim.Native.String.{count, ◌++◌}
use petri_operator.Prelude.Effects.{other, ok, err, M, pure, fail, attempt, ◌>>=◌}
use petri_operator.Cluster.{Log, Api}
use petri_operator.Cluster.Objects.{draw}

abbrev pub alphanumeric : String
alphanumeric = "abcdefghijklmnopqrstuvwxyzABCDEFGHIJKLMNOPQRSTUVWXYZ0123456789"

abbrev hex_chars : String
hex_chars = "0123456789abcdef"

-- set[i]; none where the code panics, which an index from rand.Int never does.
char_at : ℕ → String → Option Char
char_at i String.[] = none
char_at zero (String.◌∷◌ c s) = some c
char_at (suc i) (String.◌∷◌ c s) = char_at i s

-- The alphabet of a charset.
abbrev alphabet : String → String
alphabet charset = if charset == "hex" then hex_chars else alphanumeric

-- The length asked for, 24 unless that is positive.
abbrev pub wanted : ℤ → ℕ
wanted (pos zero) = 24
wanted (pos (suc n)) = suc n
wanted (negsuc n) = 24

module _ (api : Api) where
  draws : ℕ → String → M Log String
  unfolding char_at
  draws zero set = pure ""
  draws (suc n) set = do
    drawn ← attempt (draw api (count set))
    elim drawn [
      | err e ↦ fail (record e { text = "random: " ++ e.text })
      | ok i ↦ elim (char_at i set) [
        | none ↦ fail (record { kind = other; text = "index out of range" })
        | some c ↦ do rest ← draws n set; pure (String.◌∷◌ c rest)
      ]
    ]

  -- `Random`
  pub random_text : ℤ → String → M Log String
  unfolding draws
  random_text n charset = draws (wanted n) (alphabet charset)
