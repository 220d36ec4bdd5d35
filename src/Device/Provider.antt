-- ===== src/Device/Provider.antt =====
-- pkg/device/provider/file.go and interface.go: the boards and orins that a node's file lists. Reading
-- and decoding the file is left out.
pub mod Queries
use orin_device_system.Common.{
  ℤ, ℤ_discrete, List, [], ◌∷◌, ◌++◌, map, Option, none, some, Bool, Text, Text_discrete, codes,
  insert, lookup, ite,
}
use orin_device_system.Common.Sets.{IntSets}
use orin_device_system.Pods.{TextMap}

pub record OrinSoc : Type 0 where
  pub id : ℤ
  pub name : Text
  pub ip : Text

pub record BoardDevice : Type 0 where
  pub id : ℤ
  pub device_num : Text
  pub device_type : Text
  pub cluster_name : Text
  pub lidar : Bool
  pub camera : Text
  pub orin_socs : List OrinSoc

pub record OrinFileDevice : Type 0 where
  pub nuc_ip : Text
  pub board_devices : List BoardDevice

pub record FileDeviceProvider : Type 0 where
  pub file_path : Text
  pub file_device : OrinFileDevice

-- The values of an attribute map.
pub data Attr : Type 0 where
  text_attr : Text → Attr
  bool_attr : Bool → Attr

abbrev pub attr_key_board_device_num : Text
attr_key_board_device_num = codes "device_num"

abbrev pub attr_key_board_device_type : Text
attr_key_board_device_type = codes "device_type"

abbrev pub attr_key_board_cluster_name : Text
attr_key_board_cluster_name = codes "cluster_name"

abbrev pub attr_key_board_lidar : Text
attr_key_board_lidar = codes "lidar"

abbrev pub attr_key_board_camera : Text
attr_key_board_camera = codes "camera"

abbrev pub attr_key_orin_ip : Text
attr_key_orin_ip = codes "ip"

abbrev pub attr_key_orin_name : Text
attr_key_orin_name = codes "name"

module _ ⦃S : IntSets⦄ where
  -- the body of the inner loop of `GetOrinClasses`
  unfoldable pub add_class : ℤ → ℤ → List (ℤ × S.IntSet) → List (ℤ × S.IntSet)
  add_class board_id soc_id res = elim (lookup ℤ_discrete soc_id res) [
    | none ↦ insert ℤ_discrete soc_id (S.insert board_id S.empty) res
    | some board_ids ↦ insert ℤ_discrete soc_id (S.insert board_id board_ids) res
  ]

  unfoldable pub add_classes : ℤ → List OrinSoc → List (ℤ × S.IntSet) → List (ℤ × S.IntSet)
  add_classes board_id [] res = res
  add_classes board_id (soc ∷ socs) res = add_classes board_id socs (add_class board_id soc.id res)

  unfoldable pub orin_classes : List BoardDevice → List (ℤ × S.IntSet) → List (ℤ × S.IntSet)
  orin_classes [] res = res
  orin_classes (b ∷ bs) res = orin_classes bs (add_classes b.id b.orin_socs res)

  -- FileDeviceProvider.GetOrinClasses
  unfoldable pub get_orin_classes : FileDeviceProvider → List (ℤ × S.IntSet)
  get_orin_classes fp = orin_classes fp.file_device.board_devices []

-- the body of the loop of `GetBoardAttrs`
unfoldable pub put_board_attrs : BoardDevice → TextMap Attr → TextMap Attr
put_board_attrs b res = insert Text_discrete attr_key_board_camera (text_attr b.camera) (
    insert Text_discrete attr_key_board_lidar (bool_attr b.lidar) (
      insert Text_discrete attr_key_board_cluster_name (text_attr b.cluster_name) (
        insert Text_discrete attr_key_board_device_type (text_attr b.device_type)
          (insert Text_discrete attr_key_board_device_num (text_attr b.device_num) res))))

unfoldable pub board_attrs : List BoardDevice → ℤ → TextMap Attr → TextMap Attr
board_attrs [] board_id res = res
board_attrs (b ∷ bs) board_id res =
    board_attrs bs board_id (ite (ℤ_discrete b.id board_id) (put_board_attrs b res) res)

-- FileDeviceProvider.GetBoardAttrs
unfoldable pub get_board_attrs : FileDeviceProvider → ℤ → TextMap Attr
get_board_attrs fp board_id = board_attrs fp.file_device.board_devices board_id []

unfoldable pub soc_attrs : List OrinSoc → ℤ → TextMap Attr → TextMap Attr
soc_attrs [] orin_id res = res
soc_attrs (s ∷ socs) orin_id res = soc_attrs socs orin_id (
    ite (ℤ_discrete s.id orin_id)
      (insert Text_discrete attr_key_orin_name (text_attr s.name)
        (insert Text_discrete attr_key_orin_ip (text_attr s.ip) res))
      res)

unfoldable pub orin_attrs : List BoardDevice → ℤ → ℤ → TextMap Attr → TextMap Attr
orin_attrs [] board_id orin_id res = res
orin_attrs (b ∷ bs) board_id orin_id res =
    orin_attrs bs board_id orin_id
      (ite (ℤ_discrete b.id board_id) (soc_attrs b.orin_socs orin_id res) res)

-- FileDeviceProvider.GetOrinAttrs
unfoldable pub get_orin_attrs : FileDeviceProvider → ℤ → ℤ → TextMap Attr
get_orin_attrs fp board_id orin_id = orin_attrs fp.file_device.board_devices board_id orin_id []

-- FileDeviceProvider.GetBoards
unfoldable pub get_boards : FileDeviceProvider → List ℤ
get_boards fp = map (λ (b : BoardDevice). b.id) fp.file_device.board_devices

unfoldable pub soc_ids : List OrinSoc → List ℤ
soc_ids [] = []
soc_ids (s ∷ socs) = s.id ∷ soc_ids socs

unfoldable pub board_orins : List BoardDevice → ℤ → List ℤ → List ℤ
board_orins [] board_id res = res
board_orins (b ∷ bs) board_id res =
    board_orins bs board_id (ite (ℤ_discrete b.id board_id) (res ++ soc_ids b.orin_socs) res)

-- FileDeviceProvider.GetBoardOrins
unfoldable pub get_board_orins : FileDeviceProvider → ℤ → List ℤ
get_board_orins fp board_id = board_orins fp.file_device.board_devices board_id []
