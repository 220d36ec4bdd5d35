-- ===== src/Examples/Plugins.antt =====
-- The device plugin at concrete inputs: a file with one board of two orins.
use orin_device_system.Common.{
  ℕ, ℤ, pos, negsuc, List, [], ◌∷◌, none, some, true, Text, codes, Result, ok, ◌≡◌, ◌⊎◌, err, ◌≢◌,
  refl, arith,
}
use mathlib.Core.List.{Permᴰ}
use orin_device_system.Common.Sets.{elem}
use orin_device_system.Common.ListSets.{list_sets, add, dedup}
use orin_device_system.Topo.Views.{has_orin}
use orin_device_system.Names.RoundTrip.{IsInt64}
use orin_device_system.DecimalMap.Weight.{InWindow}
use orin_device_system.Pods.{
  Node, add_pod_bind_annotation, build_request_orin_set, request_containers, request_limits,
  request_resource,
}
use orin_device_system.Names.{
  has_prefix, trim_prefix, drop_prefix, orin_id_from_resource_name, parse_int, parse_digits, scan,
  in_range,
}
use orin_device_system.NodeInfo.{new_node_info}
use orin_device_system.Device.Provider.{
  OrinSoc, FileDeviceProvider, get_orin_classes, get_board_orins, get_boards, board_orins, soc_ids,
  get_orin_attrs,
}
use orin_device_system.Device.Provider.Queries.{in_class, get_orin_classes-get_board_orins}
use orin_device_system.Device.Plugin.{
  node_extra_resource, Host, OrinDeviceGrpcServer, virtual_path, pre_start_container,
}
use orin_device_system.Device.Plugin.Capacity.{IdsFit, node_extra_resource-new_node_info}
use orin_device_system.Device.Plugin.PreStart.{pre_start_container-bound}
use orin_device_system.Device.Types.{new_device, equals}
use orin_device_system.Device.Types.Order.{count, new_device-equals}
use orin_device_system.Device.Locator.{PodContainer, PodResources, no_such_pod, locate}
use orin_device_system.Device.Locator.Search.{NoPod, HasPod, locate-answers}
use orin_device_system.Examples.Data.{small_pod}

abbrev soc : ℤ → OrinSoc
soc i = record { id = i; name = codes "orin"; ip = codes "10.0.0.1" }

abbrev file : FileDeviceProvider
file = record {
  file_path = codes "f";
  file_device = record {
    nuc_ip = codes "10.0.0.2";
    board_devices =
        record {
          id = pos 0;
          device_num = codes "1";
          device_type = codes "t";
          cluster_name = codes "c";
          lidar = true;
          camera = codes "k";
          orin_socs = soc (pos 1) ∷ soc (pos 3) ∷ [];
        }
        ∷ [];
  };
}

get_orin_classes-get_board_orins_example :
    in_class (get_orin_classes file) (pos 3) (pos 0) ≡ elem (pos 3) (get_board_orins file (pos 0))
get_orin_classes-get_board_orins_example = get_orin_classes-get_board_orins file (pos 3) (pos 0)

abbrev no_power : ℕ → ℤ
no_power e = pos 0

file_boards_fit : (b : ℤ) → elem b (get_boards file) ≡ true → IsInt64 b
unfolding elem get_boards
file_boards_fit (pos b) e = ground (arith, e)
file_boards_fit (negsuc b) e = ground (arith, e)

file_orins_fit : (b o : ℤ) → elem o (get_board_orins file b) ≡ true → InWindow 1 19 o
unfolding elem get_board_orins board_orins soc_ids
file_orins_fit b (pos o) e = ground (arith, e)
file_orins_fit b (negsuc o) e = ground (arith, e)

file-IdsFit : IdsFit no_power file
file-IdsFit = record { boards_fit = file_boards_fit; orins_fit = file_orins_fit }

abbrev node : Node
node = record {
  name = codes "n";
  deletion_timestamp = none;
  capacity = node_extra_resource no_power file;
}

node_extra_resource-new_node_info_example :
    ((b o : ℤ) → has_orin (new_node_info node []).total b o ≡ elem o (get_board_orins file b))
    × ((b o : ℤ)
        → has_orin (new_node_info node []).allocatable b o ≡ elem o (get_board_orins file b))
node_extra_resource-new_node_info_example =
    node_extra_resource-new_node_info no_power file node file-IdsFit refl

abbrev host : Host
host = record {
  locate = λ ids. some (codes "d", codes "p");
  sitter_get_pod = λ namespace name. some (add_pod_bind_annotation small_pod (pos 0));
  populate_orin_attr = λ path attrs. true;
}

abbrev server : OrinDeviceGrpcServer
server = record {
  orin_id = pos 3;
  resource_name = codes "superedge.io/device-orin-3";
  devices = record { device_id = codes "0-3" } ∷ [];
}

small_pod_asks : list_sets.len (build_request_orin_set small_pod) ≢ 0
unfolding build_request_orin_set request_containers request_limits request_resource has_prefix
    trim_prefix drop_prefix orin_id_from_resource_name parse_int parse_digits scan in_range add
    dedup elem
small_pod_asks e = ground (arith, e)

pre_start_container-bound_example :
    pre_start_container host file server (codes "0-3" ∷ [])
    ≡ ok (
        some (virtual_path server.resource_name (codes "0-3"), get_orin_attrs file (pos 0) (pos 3)))
pre_start_container-bound_example =
    pre_start_container-bound host file server (codes "0-3") [] (codes "d") (codes "p") small_pod
      (pos 0) (omega arith) refl refl small_pod_asks refl

abbrev first : List Text → Text
first [] = []
first (x ∷ xs) = x

abbrev ids : List Text
ids = codes "0-3" ∷ codes "1-3" ∷ []

abbrev swapped_ids : List Text
swapped_ids = codes "1-3" ∷ codes "0-3" ∷ []

ids_swapped : Permᴰ ids swapped_ids
ids_swapped = Permᴰ.swap refl refl

new_device-equals_example :
    (Permᴰ ids swapped_ids
      → equals (new_device first ids (codes "r")) (new_device first swapped_ids (codes "r")) ≡ true)
    × (equals (new_device first ids (codes "r")) (new_device first swapped_ids (codes "r")) ≡ true
        → (z : Text) → count z ids ≡ count z swapped_ids)
new_device-equals_example = new_device-equals first ids swapped_ids (codes "r")

abbrev listed : List PodResources
listed =
    record {
      name = codes "p";
      namespace = codes "d";
      containers =
          record {
            name = codes "c";
            devices = record { resource_name = codes "r"; device_ids = swapped_ids } ∷ [];
          }
          ∷ [];
    }
    ∷ []

abbrev response : Result Text (List PodResources)
response = ok listed

locate-answers_example :
    ((locate first (codes "r") {E = Text} none none (ok listed) (new_device first ids (codes "r"))
        ≡ (none, err no_such_pod))
      × NoPod first (codes "r") (new_device first ids (codes "r")) listed)
    ⊎ ((pc : PodContainer) × (locate first
            (codes "r")
            {E = Text}
            none
            none
            (ok listed)
            (new_device first ids (codes "r"))
          ≡ (none, ok pc))
        × HasPod first (codes "r") (new_device first ids (codes "r")) listed pc)
locate-answers_example =
    locate-answers first (codes "r") (new_device first ids (codes "r")) {E = Text} listed
