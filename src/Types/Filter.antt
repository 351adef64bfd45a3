-- ===== src/Types/Filter.antt =====
-- types/filter.rs: the zone filter.
use zoned.Base.{Bool, true, false, ◌&&◌, ◌||◌, List, [], ◌∷◌, ◌++◌}
use zoned.Types.{Zone, ZoneType, ZoneCondition, type_eq, condition_eq}

pub record ZoneFilter : Type 0 where
  pub zone_types : List ZoneType
  pub conditions : List ZoneCondition

unfoldable pub new : ZoneFilter
new = record { zone_types = []; conditions = [] }

unfoldable pub zone_type : ZoneFilter → ZoneType → ZoneFilter
zone_type f zt = record f { zone_types = f.zone_types ++ zt ∷ [] }

unfoldable pub condition : ZoneFilter → ZoneCondition → ZoneFilter
condition f c = record f { conditions = f.conditions ++ c ∷ [] }

-- `Vec::is_empty` and `Vec::contains`.
abbrev none_given {ℓ} : {A : Type ℓ} → List A → Bool
none_given [] = true
none_given (x ∷ xs) = false

abbrev contains {ℓ} : {A : Type ℓ} → (A → A → Bool) → List A → A → Bool
contains eq [] a = false
contains eq (x ∷ xs) a = eq x a || contains eq xs a

unfoldable pub matches : ZoneFilter → Zone → Bool
matches f z =
    (none_given f.zone_types || contains type_eq f.zone_types z.zone_type)
    && (none_given f.conditions || contains condition_eq f.conditions z.condition)
