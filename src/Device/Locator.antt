-- ===== src/Device/Locator.antt =====
-- pkg/device/kubeapis/locator.go, pkg/device/types/pod.go and pkg/device/podresources: the pod that
-- the kubelet gave some devices to. The gRPC client, `url.Parse` and the hash are arguments.
pub mod Answers
pub mod Search
use orin_device_system.Common.{
  List, [], ◌∷◌, ◌++◌, map, Option, none, some, Bool, true, false, Text, Text_discrete, codes,
  insert, Result, ok, err, ite, if◌then◌else◌,
}
use orin_device_system.Pods.{Pod, Container, TextMap}
use orin_device_system.Device.Types.{Device, new_device, equals}

-- The messages of the pod resources API.
pub record ContainerDevices : Type 0 where
  pub resource_name : Text
  pub device_ids : List Text

pub record ContainerResources : Type 0 where
  pub name : Text
  pub devices : List ContainerDevices

pub record PodResources : Type 0 where
  pub name : Text
  pub namespace : Text
  pub containers : List ContainerResources

pub record PodContainer : Type 0 where
  pub namespace : Text
  pub name : Text
  pub container : Text

pub record PodInfo : Type 0 where
  pub namespace : Text
  pub name : Text
  pub container_device_map : TextMap Device

pub data LocateError (E : Type 0) : Type 0 where
  no_such_pod : LocateError E
  client_error : E → LocateError E

module _ (hash : List Text → Text) (resource : Text) where
  -- The container has the devices: as one entry, or in all entries of the resource together.
  unfoldable pub has_devices : Device → List ContainerDevices → List Text → Bool
  has_devices devices [] device_ids = equals devices (new_device hash device_ids resource)
  has_devices devices (r ∷ rs) device_ids =
      ite (Text_discrete r.resource_name resource)
        (if equals devices (new_device hash r.device_ids r.resource_name)
          then true
          else has_devices devices rs (device_ids ++ r.device_ids))
        (has_devices devices rs device_ids)

  unfoldable pub locate_container :
      Device → PodResources → List ContainerResources → Option PodContainer
  locate_container devices pod [] = none
  locate_container devices pod (c ∷ cs) =
      if has_devices devices c.devices []
      then some (record { namespace = pod.namespace; name = pod.name; container = c.name })
      else locate_container devices pod cs

  -- the loops of `Locate`
  unfoldable pub locate_pod : Device → List PodResources → Option PodContainer
  locate_pod devices [] = none
  locate_pod devices (pod ∷ pods) = elim (locate_container devices pod pod.containers) [
    | none ↦ locate_pod devices pods
    | some pc ↦ some pc
  ]

  -- the inner loops of `List`
  unfoldable pub put_devices : Text → List ContainerDevices → TextMap Device → TextMap Device
  put_devices container [] m = m
  put_devices container (r ∷ rs) m = put_devices container rs (
      ite (Text_discrete r.resource_name resource)
        (insert Text_discrete container (new_device hash r.device_ids resource) m) m)

  unfoldable pub put_containers : List ContainerResources → TextMap Device → TextMap Device
  put_containers [] m = m
  put_containers (c ∷ cs) m = put_containers cs (put_devices c.name c.devices m)

  unfoldable pub pod_info : PodResources → PodInfo
  pod_info pod = record {
    namespace = pod.namespace;
    name = pod.name;
    container_device_map = put_containers pod.containers [];
  }

  module _ {E : Type 0} where
    unfoldable pub locate_in : Device → List PodResources → Result (LocateError E) PodContainer
    locate_in devices pods = elim (locate_pod devices pods) [
      | none ↦ err no_such_pod
      | some pc ↦ ok pc
    ]

    -- `Locate`, after its call of the client: an error is kept, for the next call to connect again.
    unfoldable pub located :
        Device → Result E (List PodResources) → Option E × Result (LocateError E) PodContainer
    located devices (err e) = (some e, err (client_error e))
    located devices (ok pods) = (none, locate_in devices pods)

    -- KubeletDeviceLocator.Locate: the error that the locator keeps, and the answer. `connect` is the
    -- error of a new client, `response` what the client answers.
    unfoldable pub locate :
        Option E
        → Option E
        → Result E (List PodResources)
        → Device
        → Option E × Result (LocateError E) PodContainer
    locate none connect response devices = located devices response
    locate (some _) (some e) response devices = (some e, err (client_error e))
    locate (some _) none response devices = located devices response

    -- KubeletDeviceLocator.List
    unfoldable pub list_pods : Result E (List PodResources) → Result E (List PodInfo)
    list_pods (err e) = err e
    list_pods (ok pods) = ok (map pod_info pods)

-- podResourcesServer.List
unfoldable pub pod_resources_list :
    (Text → Text → List ContainerDevices) → List Pod → List PodResources
pod_resources_list get_devices pods =
    map
      (λ (pod : Pod). record {
        name = pod.name;
        namespace = pod.namespace;
        containers =
            map (λ (c : Container). record { name = c.name; devices = get_devices pod.uid c.name })
              pod.containers;
      })
      pods

pub data EndpointError : Type 0 where
  unparsable deprecated_endpoint unsupported_protocol only_unix : EndpointError

-- A parsed URL.
pub record Url : Type 0 where
  pub scheme : Text
  pub host : Text
  pub path : Text

module _ (url_parse : Text → Option Url) where
  unfoldable pub endpoint_of : Url → Text × Text × Option EndpointError
  endpoint_of u =
      ite (Text_discrete u.scheme (codes "tcp")) (codes "tcp", u.host, none)
        (ite (Text_discrete u.scheme (codes "unix")) (codes "unix", u.path, none)
          (ite (Text_discrete u.scheme []) ([], [], some deprecated_endpoint)
            (u.scheme, [], some unsupported_protocol)))

  -- `parseEndpoint`: the protocol, the address and the error
  unfoldable pub parse_endpoint : Text → Text × Text × Option EndpointError
  parse_endpoint endpoint = elim (url_parse endpoint) [
    | none ↦ ([], [], some unparsable)
    | some u ↦ endpoint_of u
  ]

  unfoldable pub with_fallback :
      Text × Text × Option EndpointError → Text → Text → Text × Text × Option EndpointError
  with_fallback (protocol, addr, none) endpoint fallback_protocol = (protocol, addr, none)
  with_fallback (protocol, addr, some e) endpoint fallback_protocol =
      ite (Text_discrete protocol [])
        (parse_endpoint (fallback_protocol ++ codes "://" ++ endpoint)) (protocol, addr, some e)

  unfoldable pub parse_endpoint_with_fallback_protocol :
      Text → Text → Text × Text × Option EndpointError
  parse_endpoint_with_fallback_protocol endpoint fallback_protocol =
      with_fallback (parse_endpoint endpoint) endpoint fallback_protocol

  unfoldable pub address_of : Text × Text × Option EndpointError → Result EndpointError Text
  address_of (protocol, addr, some e) = err e
  address_of (protocol, addr, none) =
      ite (Text_discrete protocol (codes "unix")) (ok addr) (err only_unix)

  -- `GetAddressAndDialer`: the address that is dialed on unix sockets
  unfoldable pub get_address_and_dialer : Text → Result EndpointError Text
  get_address_and_dialer endpoint =
      address_of (parse_endpoint_with_fallback_protocol endpoint (codes "unix"))
