-- ===== src/Common/Table.antt =====
-- A database table with a text key: `SELECT`, `UPDATE`, `DELETE` and `INSERT` of the rows of one
-- key, and what a later `SELECT` sees. The newest row comes first.
use rymevisor.Common.Tests.{if◌then◌else◌}
use mathlib.Core.Path.{◌≡◌, refl}
use mathlib.Core.Logic.{◌≢◌}
use mathlib.Core.List.{List, [], ◌∷◌}
use mathlib.Core.Option.{Option, none, some}
use Prim.Native.String.{String}
use native.Mathlib.Omega.{arith}
use text.Mathlib.Text.{◌==◌}
use text.Mathlib.TextEquality.{eq_iff}

module _ {A : Type 0} (key : A → String) where
  -- SELECT … WHERE key = k
  unfoldable pub select : String → List A → Option A
  select k [] = none
  select k (r ∷ rs) = if key r == k then some r else select k rs

  -- UPDATE … SET f WHERE key = k
  unfoldable pub update : String → (A → A) → List A → List A
  update k f [] = []
  update k f (r ∷ rs) = (if key r == k then f r else r) ∷ update k f rs

  -- DELETE … WHERE key = k
  unfoldable pub delete : String → List A → List A
  delete k [] = []
  delete k (r ∷ rs) = if key r == k then delete k rs else r ∷ delete k rs

  pub key-select : (k : String) (rs : List A) (r : A) → select k rs ≡ some r → key r ≡ k
  unfolding select
  key-select k [] r e = ground arith
  key-select k (x ∷ rs) r e = ground (arith, eq_iff (key x) k, key-select k rs r)

  pub select-delete_self : (k : String) (rs : List A) → select k (delete k rs) ≡ none
  unfolding select delete
  select-delete_self k [] = refl
  select-delete_self k (x ∷ rs) = ground (arith, select-delete_self k rs)

  pub select-delete_ne : (j k : String) (rs : List A) → j ≢ k → select j (delete k rs) ≡ select j rs
  unfolding select delete
  select-delete_ne j k [] h = refl
  select-delete_ne j k (x ∷ rs) h =
      ground (arith, eq_iff (key x) j, eq_iff (key x) k, select-delete_ne j k rs h)

  module _ (f : A → A) (keeps : (r : A) → key (f r) ≡ key r) where
    pub select-update_self :
        (k : String) (rs : List A) (r : A)
        → select k rs ≡ some r
        → select k (update k f rs) ≡ some (f r)
    unfolding select update
    select-update_self k [] r e = ground arith
    select-update_self k (x ∷ rs) r e = ground (arith, keeps x, select-update_self k rs r)

    pub select-update-none :
        (k : String) (rs : List A) → select k rs ≡ none → select k (update k f rs) ≡ none
    unfolding select update
    select-update-none k [] e = refl
    select-update-none k (x ∷ rs) e = ground (arith, keeps x, select-update-none k rs)

    pub select-update_ne :
        (j k : String) (rs : List A) → j ≢ k → select j (update k f rs) ≡ select j rs
    unfolding select update
    select-update_ne j k [] h = refl
    select-update_ne j k (x ∷ rs) h =
        ground (arith, keeps x, eq_iff (key x) j, eq_iff (key x) k, select-update_ne j k rs h)
