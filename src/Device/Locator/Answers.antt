-- ===== src/Device/Locator/Answers.antt =====
-- `Locate` of pkg/device/kubeapis/locator.go and the order of device IDs.
use orin_device_system.Common.{List, Option, Text, Result, ◌≡◌, ap}
use mathlib.Core.List.{Permᴰ}
use orin_device_system.Device.Types.{new_device}
use orin_device_system.Device.Types.Order.{new_device-Permᴰ}
use orin_device_system.Device.Locator.{PodResources, locate}

-- `Locate` answers the same for two lists of device IDs of which one is a permutation of the other,
-- whatever the locator keeps, and whatever the client answers.
pub locate-Permᴰ :
    {E : Type 0} (hash : List Text → Text) (resource : Text) (kept connect : Option E)
    (response : Result E (List PodResources)) (r : Text) {xs ys : List Text}
    → Permᴰ xs ys
    → locate hash resource kept connect response (new_device hash xs r)
      ≡ locate hash resource kept connect response (new_device hash ys r)
locate-Permᴰ hash resource kept connect response r p =
    ap (locate hash resource kept connect response) (new_device-Permᴰ hash r p)
