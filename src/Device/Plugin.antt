-- ===== src/Device/Plugin.antt =====
-- pkg/device/plugin/orin.go: the device list of an orin, the capacity that the node is patched with,
-- and the calls of the kubelet. gRPC, JSON and the file system are arguments or left out.
pub mod Capacity
pub mod PreStart
use orin_device_system.Common.{
  ℕ, ◌==◌, ℤ, pos, List, [], ◌∷◌, ◌++◌, map, Option, none, some, Bool, true, false, Text,
  Text_discrete, codes, insert, lookup, Result, ok, err, if◌then◌else◌,
}
use orin_device_system.Common.Sets.{IntSets, of_list}
use orin_device_system.Names.{
  format_int, parse_int, extend_resouce_type_board, extend_resouce_type_board_prefix,
  extend_resouce_type_orin_prefix,
}
use orin_device_system.DecimalMap.{build_decimal_map}
use orin_device_system.Pods.{Pod, TextMap, is_empty, board_annotation, build_request_orin_set}
use orin_device_system.Device.Provider.{
  Attr, FileDeviceProvider, get_orin_classes, get_orin_attrs, get_boards, get_board_orins,
}

abbrev pub host_vitual_path : Text
host_vitual_path = codes "/data/edge/device"

-- A healthy device of the kubelet's API.
pub record PluginDevice : Type 0 where
  pub device_id : Text

pub record OrinDeviceGrpcServer : Type 0 where
  pub orin_id : ℤ
  pub resource_name : Text
  pub devices : List PluginDevice

pub record DevicePluginServer : Type 0 where
  pub endpoint : Text
  pub resource_name : Text
  pub server : OrinDeviceGrpcServer

-- strings.ReplaceAll(s, "/", "-")
unfoldable pub dashed : Text → Text
dashed [] = []
dashed (c ∷ s) = (if c == b'/' then b'-' else c) ∷ dashed s

-- `fmt.Sprintf("%d-%d", bid, orinID)`
abbrev pub plugin_device : ℤ → ℤ → PluginDevice
plugin_device orin_id bid = record { device_id = format_int bid ++ codes "-" ++ format_int orin_id }

module _ ⦃S : IntSets⦄ where
  unfoldable pub new_orin_device_grpc_server : Text → ℤ → S.IntSet → OrinDeviceGrpcServer
  new_orin_device_grpc_server resource_name orin_id board_ids = record {
    orin_id = orin_id;
    resource_name = resource_name;
    devices = map (plugin_device orin_id) (S.unsorted_list board_ids);
  }

  -- the loop of `NewOrinDevicePlugin`; the locator that it makes for each resource is left out
  unfoldable pub plugin_servers :
      List (ℤ × S.IntSet) → TextMap DevicePluginServer → TextMap DevicePluginServer
  plugin_servers [] odp = odp
  plugin_servers ((orin_id, board_ids) ∷ classes) odp =
      let resource_name = extend_resouce_type_orin_prefix ++ format_int orin_id in
      plugin_servers classes (
        insert Text_discrete resource_name
          (record {
            endpoint = dashed resource_name ++ codes ".sock";
            resource_name = resource_name;
            server = new_orin_device_grpc_server resource_name orin_id board_ids;
          })
          odp)

  abbrev pub board_resource : ℤ → Text
  board_resource bid = extend_resouce_type_board_prefix ++ format_int bid

  -- the loop of `patchNodeExtraResource`
  unfoldable pub board_resources : (ℕ → ℤ) → FileDeviceProvider → List ℤ → TextMap ℤ → TextMap ℤ
  board_resources huge provider [] extra_resource = extra_resource
  board_resources huge provider (bid ∷ bids) extra_resource = board_resources huge provider bids (
      insert Text_discrete (board_resource bid)
        (build_decimal_map huge (of_list (get_board_orins provider bid)) (pos 1)) extra_resource)

  -- The capacity that `patchNodeExtraResource` applies to the node.
  unfoldable pub node_extra_resource : (ℕ → ℤ) → FileDeviceProvider → TextMap ℤ
  node_extra_resource huge provider =
      board_resources huge provider (get_boards provider)
        ((extend_resouce_type_board, pos 1024) ∷ [])

  module _ {World ApiError : Type 0}
      (apply_status : World → Text → TextMap ℤ → World × Option ApiError) where
    unfoldable pub patch_node_extra_resource :
        World → (ℕ → ℤ) → FileDeviceProvider → Text → World × Option ApiError
    patch_node_extra_resource w huge provider node_name =
        apply_status w node_name (node_extra_resource huge provider)

    -- `NewOrinDevicePlugin`, after its call of `patchNodeExtraResource`
    unfoldable pub patched :
        World × Option ApiError
        → TextMap DevicePluginServer
        → World × Result ApiError (TextMap DevicePluginServer)
    patched (w, some e) odp = (w, err e)
    patched (w, none) odp = (w, ok odp)

    unfoldable pub new_orin_device_plugin :
        World
        → (ℕ → ℤ)
        → FileDeviceProvider
        → Text
        → World × Result ApiError (TextMap DevicePluginServer)
    new_orin_device_plugin w huge provider node_name =
        patched (patch_node_extra_resource w huge provider node_name)
          (plugin_servers (get_orin_classes provider) [])

-- A container's request of devices, and what `Allocate` answers: the mounts of one container.
pub record Mount : Type 0 where
  pub container_path : Text
  pub host_path : Text
  pub read_only : Bool

pub data KubeletError : Type 0 where
  devices_is_empty not_located pod_not_found no_annotation invalid_board_id not_populated :
      KubeletError

-- The directory of a device: HostVitualPath/resource/device.
abbrev pub virtual_path : Text → Text → Text
virtual_path resource_name device_id =
    host_vitual_path ++ codes "/" ++ resource_name ++ codes "/" ++ device_id

unfoldable pub requested_devices : List (List Text) → List Text
requested_devices [] = []
requested_devices (ids ∷ requests) = ids ++ requested_devices requests

unfoldable pub mounts_of : Text → List Text → Result KubeletError (List Mount)
mounts_of resource_name [] = err devices_is_empty
mounts_of resource_name (device_id ∷ ids) = ok (
    record {
      container_path = codes "/etc/" ++ resource_name;
      host_path = virtual_path resource_name device_id;
      read_only = true;
    }
    ∷ [])

-- OrinDeviceGrpcServer.Allocate
unfoldable pub allocate_devices :
    OrinDeviceGrpcServer → List (List Text) → Result KubeletError (List Mount)
allocate_devices s container_requests =
    mounts_of s.resource_name (requested_devices container_requests)

-- What `PreStartContainer` calls: the locator of the resource, which answers with the namespace and
-- the name of a pod, the sitter, and `populateOrinAttr`, which answers whether it succeeded.
pub record Host : Type 0 where
  pub locate : List Text → Option (Text × Text)
  pub sitter_get_pod : Text → Text → Option Pod
  pub populate_orin_attr : Text → TextMap Attr → Bool

-- What `PreStartContainer` wrote: a directory and the attributes in it.
abbrev pub Written : Type 0
Written = Option (Text × TextMap Attr)

module _ ⦃S : IntSets⦄ (host : Host) (provider : FileDeviceProvider)
    (s : OrinDeviceGrpcServer) where
  -- `PreStartContainer`, with the board and the first device at hand. `GetOrinAttrs` of the file
  -- provider never answers nil.
  unfoldable pub write_attrs : Text → ℤ → Result KubeletError Written
  write_attrs device_id board_id =
      let attrs = get_orin_attrs provider board_id s.orin_id in
      let vpath = virtual_path s.resource_name device_id in
      if host.populate_orin_attr vpath attrs then ok (some (vpath, attrs)) else err not_populated

  -- `PreStartContainer`, with the pod at hand
  unfoldable pub pre_start_pod : Text → Pod → Result KubeletError Written
  pre_start_pod device_id pod = elim (board_annotation pod) [
    | none ↦ err no_annotation
    | some board_id ↦ (elim (parse_int board_id) [
      | none ↦ err invalid_board_id
      | some b ↦
          if S.len (build_request_orin_set pod) == 0 then ok none else write_attrs device_id b
    ])
  ]

  unfoldable pub pre_start_located : Text → Option (Text × Text) → Result KubeletError Written
  pre_start_located device_id none = err not_located
  pre_start_located device_id (some (namespace, name)) = elim (host.sitter_get_pod namespace name) [
    | none ↦ err pod_not_found
    | some pod ↦ pre_start_pod device_id pod
  ]

  -- OrinDeviceGrpcServer.PreStartContainer
  unfoldable pub pre_start_container : List Text → Result KubeletError Written
  pre_start_container [] = err devices_is_empty
  pre_start_container (device_id ∷ ids) =
      pre_start_located device_id (host.locate (device_id ∷ ids))
