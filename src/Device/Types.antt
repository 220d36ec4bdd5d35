-- ===== src/Device/Types.antt =====
-- pkg/device/types/device.go: a list of device IDs of one resource, in no particular order. The hash
-- (SHA-256 of the joined IDs) is an argument.
pub mod Order
use orin_device_system.Common.{
  ℕ, List, [], ◌∷◌, Bool, true, false, ◌&&◌, Text, Text_discrete, ltb, ite, if◌then◌else◌,
}

pub record Device : Type 0 where
  pub hash : Text
  pub list : List Text
  pub resource_name : Text

-- a <= b, on strings
unfoldable pub text_le : Text → Text → Bool
text_le [] t = true
text_le (c ∷ s) [] = false
text_le (c ∷ s) (d ∷ t) = if ltb c d then true else if ltb d c then false else text_le s t

unfoldable pub insert_sorted : Text → List Text → List Text
insert_sorted x [] = x ∷ []
insert_sorted x (y ∷ ys) = if text_le x y then x ∷ y ∷ ys else y ∷ insert_sorted x ys

-- `sort.Strings`: the strings in their order
unfoldable pub sort_strings : List Text → List Text
sort_strings [] = []
sort_strings (x ∷ xs) = insert_sorted x (sort_strings xs)

unfoldable pub new_device : (List Text → Text) → List Text → Text → Device
new_device hash device_list resource_name =
    let curr = sort_strings device_list in
    record { hash = hash curr; list = curr; resource_name = resource_name }

-- `equals` of two lists
unfoldable pub equal_lists : List Text → List Text → Bool
equal_lists [] [] = true
equal_lists [] (y ∷ ys) = false
equal_lists (x ∷ xs) [] = false
equal_lists (x ∷ xs) (y ∷ ys) = ite (Text_discrete x y) (equal_lists xs ys) false

-- Device.Equals
unfoldable pub equals : Device → Device → Bool
equals d o =
    ite (Text_discrete d.hash o.hash) true false
    && equal_lists d.list o.list
    && ite (Text_discrete d.resource_name o.resource_name) true false
