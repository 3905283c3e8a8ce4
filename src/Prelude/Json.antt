-- ===== src/Prelude/Json.antt =====
-- JSON values as Python's `json` reads them, with `isinstance`, `get` and truth tests. `F` is the
-- type of floats.
use Prim.Native.String.{String}
use mathlib.Core.Bool.{Bool, true, false, not, ◌&&◌}
use mathlib.Core.Option.{Option, none, some}
use analysis_srv.Prelude.Tests.{nat_eq, if◌then◌else◌}
use analysis_srv.Prelude.Eq.{◌==◌, text_key}
use analysis_srv.Prelude.Int.{ℤ, pos, negsuc}
use analysis_srv.Prelude.Float.{Float}
use analysis_srv.Prelude.Text.{non_empty}

mutual
  pub data Json (F : Type 0) : Type 0 where
    null : Json F
    bool : Bool → Json F
    int : ℤ → Json F
    float : F → Json F
    str : String → Json F
    arr : JsonList F → Json F
    obj : JsonDict F → Json F

  pub data JsonList (F : Type 0) : Type 0 where
    nil : JsonList F
    cons : Json F → JsonList F → JsonList F

  pub data JsonDict (F : Type 0) : Type 0 where
    end : JsonDict F
    field : String → Json F → JsonDict F → JsonDict F

module _ {F : Type 0} where
  unfoldable pub find : String → JsonDict F → Option (Json F)
  find key end = none
  find key (field k v rest) = if k == key then some v else find key rest

  -- d.get(key)
  unfoldable pub get : String → JsonDict F → Json F
  unfolding find
  get key d = elim (find key d) [ none ↦ null | some v ↦ v ]

  -- d.get(key, default)
  unfoldable pub get_or : String → Json F → JsonDict F → Json F
  unfolding find
  get_or key default d = elim (find key d) [ none ↦ default | some v ↦ v ]

  -- v if isinstance(v, dict) else {}
  unfoldable pub as_dict : Json F → JsonDict F
  as_dict (obj d) = d
  as_dict _ = end

  unfoldable pub is_dict : Json F → Bool
  is_dict (obj d) = true
  is_dict _ = false

module _ {F : Type 0} ⦃fl : Float F⦄ where
  -- bool(v)
  unfoldable pub truthy : Json F → Bool
  truthy null = false
  truthy (bool b) = b
  truthy (int (pos n)) = not (nat_eq n 0)
  truthy (int (negsuc n)) = true
  truthy (float x) = not (fl.le x (fl.lit 0 1) && fl.le (fl.lit 0 1) x)
  truthy (str s) = non_empty s
  truthy (arr nil) = false
  truthy (arr (cons v vs)) = true
  truthy (obj end) = false
  truthy (obj (field k v d)) = true
