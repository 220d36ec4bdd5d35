-- ===== src/Device/Locator/Search.antt =====
-- The search of `Locate` through the pods and containers that the kubelet lists.
use orin_device_system.Common.{
  List, [], ◌∷◌, ◌++◌, none, some, Bool, true, false, ◌||◌, Text, Text_discrete, ite, ok, err, All,
  ◌≡◌, ◌⊎◌, inl, inr, refl, sym, ap, append_assoc, append-nil, if◌then◌else◌, Bool-cases,
}
use orin_device_system.Device.Types.{Device, new_device, equals}
use orin_device_system.Device.Locator.{
  ContainerDevices, ContainerResources, PodResources, PodContainer, no_such_pod, has_devices,
  locate_container, locate_pod, locate_in, located, locate,
}

module _ (hash : List Text → Text) (resource : Text) (devices : Device) where
  -- The lists of device IDs of the entries that have the name of the resource.
  unfoldable pub own_ids : List ContainerDevices → List (List Text)
  own_ids [] = []
  own_ids (r ∷ rs) =
      let rest = own_ids rs in
      ite (Text_discrete r.resource_name resource) (r.device_ids ∷ rest) rest

  -- One of the lists is the list of the devices.
  unfoldable pub one_equals : List (List Text) → Bool
  one_equals [] = false
  one_equals (ids ∷ lists) = equals devices (new_device hash ids resource) || one_equals lists

  unfoldable pub joined : List (List Text) → List Text
  joined [] = []
  joined (ids ∷ lists) = ids ++ joined lists

  -- What it means that a container has the devices: among its entries of the resource, one has just
  -- these devices, or all of them together do.
  abbrev pub owns : List ContainerDevices → Bool
  owns rs =
      one_equals (own_ids rs) || equals devices (new_device hash (joined (own_ids rs)) resource)

  abbrev owns_after : List Text → List (List Text) → Bool
  owns_after seen lists =
      one_equals lists || equals devices (new_device hash (seen ++ joined lists) resource)

  -- One more entry, which has the name of the resource or not.
  owns_after-entry :
      (r : ContainerDevices) (lists : List (List Text)) (seen : List Text)
      (d : Dec (r.resource_name ≡ resource)) (rest : List Text → Bool)
      → ((ids : List Text) → rest ids ≡ owns_after ids lists)
      → ite d
          (if equals devices (new_device hash r.device_ids r.resource_name)
            then true
            else rest (seen ++ r.device_ids))
          (rest seen)
        ≡ owns_after seen (ite d (r.device_ids ∷ lists) lists)
  unfolding one_equals joined
  owns_after-entry r lists seen (no n) rest same = same seen
  owns_after-entry r lists seen (yes p) rest same =
      elim (Bool-cases (equals devices (new_device hash r.device_ids resource))) [
        | inl h ↦ rw p (rw h refl)
        | inr h ↦ rw p (
            rw h (
              rw (same (seen ++ r.device_ids))
                (rw (append_assoc seen r.device_ids (joined lists)) refl)))
      ]

  has_devices-after :
      (rs : List ContainerDevices) (seen : List Text)
      → has_devices hash resource devices rs seen ≡ owns_after seen (own_ids rs)
  unfolding has_devices own_ids one_equals joined
  has_devices-after [] seen =
      ap (λ ids. equals devices (new_device hash ids resource)) (sym (append-nil seen))
  has_devices-after (r ∷ rs) seen =
      owns_after-entry r (own_ids rs) seen (Text_discrete r.resource_name resource)
        (has_devices hash resource devices rs) (has_devices-after rs)

  has_devices-owns :
      (rs : List ContainerDevices) → has_devices hash resource devices rs [] ≡ owns rs
  has_devices-owns rs = has_devices-after rs []

  -- One of the pod's containers is `pc`, and it has the devices.
  abbrev pub HasContainer : PodResources → List ContainerResources → PodContainer → Type 0
  HasContainer pod [] pc = ⊥
  HasContainer pod (c ∷ cs) pc =
      ((owns c.devices ≡ true)
        × (pc ≡ record { namespace = pod.namespace; name = pod.name; container = c.name }))
      ⊎ HasContainer pod cs pc

  abbrev pub HasPod : List PodResources → PodContainer → Type 0
  HasPod [] pc = ⊥
  HasPod (pod ∷ pods) pc = HasContainer pod pod.containers pc ⊎ HasPod pods pc

  -- None of the containers has the devices.
  abbrev pub NoContainer : List ContainerResources → Type 0
  NoContainer cs = All (λ c. owns c.devices ≡ false) cs

  abbrev pub NoPod : List PodResources → Type 0
  NoPod pods = All (λ pod. NoContainer pod.containers) pods

  locate_container-cases :
      (pod : PodResources) (cs : List ContainerResources)
      → ((locate_container hash resource devices pod cs ≡ none) × NoContainer cs)
        ⊎ ((pc : PodContainer) × (locate_container hash resource devices pod cs ≡ some pc)
            × HasContainer pod cs pc)
  unfolding locate_container
  locate_container-cases pod [] = inl (refl, tt)
  locate_container-cases pod (c ∷ cs) = elim (Bool-cases (owns c.devices)) [
    | inl h ↦ inr (_, rw (has_devices-owns c.devices, h) refl, inl (h, refl))
    | inr h ↦ elim (locate_container-cases pod cs) [
      | inl (e, nobody) ↦ inl (rw (has_devices-owns c.devices, h) e, (h, nobody))
      | inr (pc, e, has) ↦ inr (pc, rw (has_devices-owns c.devices, h) e, inr has)
    ]
  ]

  locate_pod-cases :
      (pods : List PodResources)
      → ((locate_pod hash resource devices pods ≡ none) × NoPod pods)
        ⊎ ((pc : PodContainer) × (locate_pod hash resource devices pods ≡ some pc) × HasPod pods pc)
  unfolding locate_pod
  locate_pod-cases [] = inl (refl, tt)
  locate_pod-cases (pod ∷ pods) = elim (locate_container-cases pod pod.containers) [
    | inr (pc, e, has) ↦ inr (pc, rw (e, locate_pod) refl, inl has)
    | inl (e, nobody) ↦ elim (locate_pod-cases pods) [
      | inl (f, none_has) ↦ inl (rw (e, locate_pod) f, (nobody, none_has))
      | inr (pc, f, has) ↦ inr (pc, rw (e, locate_pod) f, inr has)
    ]
  ]

  -- If the client is connected and lists `pods`, `Locate` either answers a listed container that has
  -- the devices, or it answers that there is no such pod, and then no listed container has them. A
  -- container has the devices if, among its entries with the name of the resource, the device list
  -- of one equals them, or the lists of all of these joined do; entries of other resources do not
  -- count.
  pub locate-answers :
      {E : Type 0} (pods : List PodResources)
      → ((locate hash resource {E = E} none none (ok pods) devices ≡ (none, err no_such_pod))
          × NoPod pods)
        ⊎ ((pc : PodContainer) × (locate hash resource {E = E} none none (ok pods) devices
              ≡ (none, ok pc))
            × HasPod pods pc)
  unfolding locate located locate_in
  locate-answers {E} pods = elim (locate_pod-cases pods) [
    | inl (e, nobody) ↦ inl (rw (e, locate_in) refl, nobody)
    | inr (pc, e, has) ↦ inr (pc, rw (e, locate_in) refl, has)
  ]
