-- ===== src/Prelude/Dict.antt =====
-- Python's `dict` with text keys: its entries in insertion order.
use Prim.Native.String.{String}
use mathlib.Core.Path.{◌≡◌, refl}
use mathlib.Core.Bool.{Bool, true, false}
use mathlib.Core.Option.{Option, none, some}
use mathlib.Core.List.{List, [], ◌∷◌}
use native.Mathlib.Omega.{arith}
use text.Mathlib.Text.{◌==◌}
use text.Mathlib.TextEquality.{eq_iff}
use discord_stoat_ferry.Prelude.Tests.{if◌then◌else◌}

abbrev pub Dict {ℓ} : Type ℓ → Type ℓ
Dict V = List (String × V)

module _ {ℓ} {V : Type ℓ} where
  -- d.get(k)
  unfoldable pub get : Dict V → String → Option V
  get [] k = none
  get ((j, v) ∷ d) k = if j == k then some v else get d k

  -- k in d
  unfoldable pub has : Dict V → String → Bool
  has [] k = false
  has ((j, v) ∷ d) k = if j == k then true else has d k

  -- d[k] = v
  unfoldable pub put : Dict V → String → V → Dict V
  put [] k v = (k, v) ∷ []
  put ((j, w) ∷ d) k v = if j == k then (j, v) ∷ d else (j, w) ∷ put d k v

  -- d.pop(k, None)
  unfoldable pub remove : Dict V → String → Dict V
  remove [] k = []
  remove ((j, w) ∷ d) k = let rest = remove d k in if j == k then rest else (j, w) ∷ rest

  module _ (key other : String) where
    pub get-remove :
        (d : Dict V) → get (remove d key) other ≡ (if key == other then none else get d other)
    unfolding get remove
    get-remove [] = ground arith
    get-remove ((i, w) ∷ d) =
        ground (arith, eq_iff key other, eq_iff i key, eq_iff i other, get-remove d)

    pub get-put :
        (v : V) (d : Dict V)
        → get (put d key v) other ≡ (if key == other then some v else get d other)
    unfolding get put
    get-put v [] = refl
    get-put v ((i, w) ∷ d) =
        ground (arith, eq_iff key other, eq_iff i key, eq_iff i other, get-put v d)
