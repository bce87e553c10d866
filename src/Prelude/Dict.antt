-- ===== src/Prelude/Dict.antt =====
-- Go's maps with string keys, as association lists: a write replaces the entry in place or adds it
-- at the end. Go iterates in an unspecified order; no theorem depends on the order kept here.
use Prim.Native.String.{String}
use mathlib.Core.Path.{◌≡◌, refl, sym, ◌∙◌, subst}
use mathlib.Core.Bool.{Bool, true, false}
use mathlib.Core.Option.{Option, none, some}
use mathlib.Core.List.{List, [], ◌∷◌}
use native.Mathlib.Omega.{arith}
use text.Mathlib.TextEquality.{eq_iff}
use radio_container.Prelude.Tests.{if◌then◌else◌, Bool-cases}
use radio_container.Prelude.Lists.{All}
use mathlib.Core.Logic.{inl, inr}
use radio_container.Prelude.Text.{str_eq}

abbrev pub Dict {ℓ} : Type ℓ → Type ℓ
Dict V = List (String × V)

module _ {ℓ} {V : Type ℓ} where
  -- `v, exists := m[k]`
  unfoldable pub get : Dict V → String → Option V
  get [] k = none
  get ((j, v) ∷ m) k = if str_eq j k then some v else get m k

  -- `_, exists := m[k]`
  unfoldable pub has : Dict V → String → Bool
  has [] k = false
  has ((j, v) ∷ m) k = if str_eq j k then true else has m k

  -- `m[k] = v`
  unfoldable pub put : Dict V → String → V → Dict V
  put [] k v = (k, v) ∷ []
  put ((j, w) ∷ m) k v = if str_eq j k then (k, v) ∷ m else (j, w) ∷ put m k v

  -- `delete(m, k)`
  unfoldable pub remove : Dict V → String → Dict V
  remove [] k = []
  remove ((j, v) ∷ m) k = let rest = remove m k in if str_eq j k then rest else (j, v) ∷ rest

  pub has-get :
      (m : Dict V) (k : String) → has m k ≡ (elim (get m k) [ none ↦ false | some v ↦ true ])
  unfolding has get
  has-get [] k = refl
  has-get ((j, v) ∷ m) k = ground (arith, has-get m k)

  pub get-put :
      (m : Dict V) (k j : String) (v : V)
      → get (put m k v) j ≡ (if str_eq k j then some v else get m j)
  unfolding get put
  get-put [] k j v = refl
  get-put ((i, w) ∷ m) k j v = ground (arith, eq_iff k j, eq_iff i k, eq_iff i j, get-put m k j v)

  pub get-remove :
      (m : Dict V) (k j : String) → get (remove m k) j ≡ (if str_eq k j then none else get m j)
  unfolding get remove
  get-remove [] k j = ground arith
  get-remove ((i, v) ∷ m) k j = ground (arith, eq_iff k j, eq_iff i k, eq_iff i j, get-remove m k j)

  pub has-put :
      (m : Dict V) (k j : String) (v : V)
      → has (put m k v) j ≡ (if str_eq k j then true else has m j)
  has-put m k j v = ground (arith, has-get (put m k v) j, has-get m j, get-put m k j v)

  pub has-remove :
      (m : Dict V) (k j : String) → has (remove m k) j ≡ (if str_eq k j then false else has m j)
  has-remove m k j = ground (arith, has-get (remove m k) j, has-get m j, get-remove m k j)

pair {ℓ} :
    {V : Type ℓ} {j k : String} {w v : V} → j ≡ k → w ≡ v → ◌≡◌ {A = String × V} (j, w) (k, v)
pair e f = rw (e, f) refl

module _ {ℓ κ} {V : Type ℓ} (P : String × V → Type κ) where
  pub All-put : (m : Dict V) (k : String) (v : V) → All P m → P (k, v) → All P (put m k v)
  unfolding put
  All-put [] k v h hv = (hv, tt)
  All-put ((j, w) ∷ m) k v (hw, h) hv = elim (Bool-cases (str_eq j k)) [
    | inl e ↦ rw (e, put) (hv, h)
    | inr e ↦ rw (e, put) (hw, All-put m k v h hv)
  ]

  pub All-get : (m : Dict V) (k : String) (v : V) → All P m → get m k ≡ some v → P (k, v)
  unfolding get
  All-get [] k v h e = absurd (cc)
  All-get ((j, w) ∷ m) k v (hw, h) e = elim (Bool-cases (str_eq j k)) [
    | inl same ↦
        let found : get ((j, w) ∷ m) k ≡ some w = rw (same, get) refl in
        let key : j ≡ k = ground (arith, eq_iff j k) in
        let value : w ≡ v = cc in subst P (pair key value) hw
    | inr other ↦
        let goes_on : get ((j, w) ∷ m) k ≡ get m k = rw (other, get) refl in
        All-get m k v h (sym goes_on ∙ e)
  ]

pub ruleset dict_laws = (get-put, get-remove, has-put, has-remove)
