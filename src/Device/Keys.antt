-- ===== src/Device/Keys.antt =====
-- pkg/device/types/pod.go: the keys and the stored form of pods. encoding/json is an argument.
use orin_device_system.Common.{
  List, [], ◌∷◌, ◌++◌, Option, none, some, Text, codes, Result, ok, err, ◌≡◌, refl, ap, ap₂, ◌∙◌,
}
use orin_device_system.Pods.{TextMap}
use orin_device_system.Device.Types.{Device}
use orin_device_system.Device.Paths.{
  split, path_join, IsElement, split-element, split-append, path_join-elements, path_join-alone,
}
use orin_device_system.Device.Locator.{PodContainer, PodInfo}

-- PodContainer.Pod
unfoldable pub pod_of_container : PodContainer → Text
pod_of_container pc = pc.namespace ++ codes "/" ++ pc.name

-- PodContainer.String
unfoldable pub container_text : PodContainer → Text
container_text pc = pc.namespace ++ codes "/" ++ pc.name ++ codes ":" ++ pc.container

abbrev pub new_pi : Text → Text → PodInfo
new_pi namespace name = record { namespace = namespace; name = name; container_device_map = [] }

-- PodInfo.Key
unfoldable pub key : PodInfo → Text
key i = path_join i.namespace i.name

-- encoding/json for maps of devices. `unmarshal` writes into a map, which keeps its other entries.
pub record DeviceJson : Type 1 where
  pub JsonError : Type 0
  pub marshal : TextMap Device → Result JsonError Text
  pub unmarshal : Text → TextMap Device → TextMap Device × Option JsonError

pub data RawError (E : Type 0) : Type 0 where
  key_format : RawError E
  val_format : E → RawError E

module _ (json : DeviceJson) where
  -- PodInfo.Val, which drops the error
  unfoldable pub val : PodInfo → Text
  val i = elim (json.marshal i.container_device_map) [ ok bs ↦ bs | err e ↦ [] ]

  -- PodInfo.SetVal
  unfoldable pub set_val : PodInfo → Text → PodInfo × Option json.JsonError
  set_val i bs =
      let (m, e) = json.unmarshal bs i.container_device_map in
      (record i { container_device_map = m }, e)

  unfoldable pub filled_pi :
      PodInfo × Option json.JsonError → Result (RawError json.JsonError) PodInfo
  filled_pi (pi, none) = ok pi
  filled_pi (pi, some e) = err (val_format e)

  unfoldable pub pi_of_parts : List Text → Text → Result (RawError json.JsonError) PodInfo
  pi_of_parts (namespace ∷ name ∷ []) bs = filled_pi (set_val (new_pi namespace name) bs)
  pi_of_parts [] bs = err key_format
  pi_of_parts (namespace ∷ []) bs = err key_format
  pi_of_parts (namespace ∷ name ∷ part ∷ parts) bs = err key_format

  -- NewPIFromRaw
  unfoldable pub new_pi_from_raw : Text → Text → Result (RawError json.JsonError) PodInfo
  new_pi_from_raw k bs = pi_of_parts (split b'/' k) bs

  -- A pod whose namespace and name are elements of a path, and whose devices encode as a text that
  -- decodes to them in an empty map, is read back from its key and its value; without a namespace,
  -- the key is refused.
  pub new_pi_from_raw-key :
      (i : PodInfo) (bs : Text)
      → json.marshal i.container_device_map ≡ ok bs
      → json.unmarshal bs [] ≡ (i.container_device_map, none)
      → IsElement i.name
      → (IsElement i.namespace → new_pi_from_raw (key i) (val i) ≡ ok i)
        × (i.namespace ≡ [] → new_pi_from_raw (key i) (val i) ≡ err key_format)
  unfolding new_pi_from_raw key val set_val filled_pi pi_of_parts
  new_pi_from_raw-key i bs encoded decoded name =
      let value : val i ≡ bs = rw (encoded, val) refl in
      (
        λ namespace.
            ap₂ (λ k v. new_pi_from_raw k v) (path_join-elements i.namespace i.name namespace name)
              value
            ∙ (ap (λ parts. pi_of_parts parts bs)
                  (split-append b'/' i.namespace i.name namespace.unsplit
                    ∙ ap (λ r. i.namespace ∷ r) (split-element b'/' i.name name.unsplit))
                ∙ ap
                    (λ r.
                      filled_pi
                        (record (new_pi i.namespace i.name) { container_device_map = r.0 }, r.1))
                    decoded),
        λ no_namespace.
            ap₂ (λ k v. new_pi_from_raw k v)
              (ap (λ n. path_join n i.name) no_namespace ∙ path_join-alone i.name name) value
            ∙ ap (λ parts. pi_of_parts parts bs) (split-element b'/' i.name name.unsplit),
      )
