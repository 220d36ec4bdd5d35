-- ===== src/Device/Plugin/PreStart.antt =====
-- `PreStartContainer` of pkg/device/plugin/orin.go, for a pod with the annotation of `Bind`.
use orin_device_system.Common.{
  ℕ, ◌==◌, ◌≢◌, ℤ, List, ◌∷◌, some, true, false, Text, ok, ◌≡◌, refl, arith,
}
use orin_device_system.Common.Sets.{IntSets}
use orin_device_system.Names.RoundTrip.{IsInt64, parse_int-format_int}
use orin_device_system.Pods.{Pod, add_pod_bind_annotation, build_request_orin_set}
use orin_device_system.Pods.Annotations.{board_annotation-add}
use orin_device_system.Device.Provider.{FileDeviceProvider, get_orin_attrs}
use orin_device_system.Device.Plugin.{
  Host, OrinDeviceGrpcServer, virtual_path, write_attrs, pre_start_pod, pre_start_located,
  pre_start_container,
}

nonzero : (n : ℕ) → n ≢ 0 → (n == 0) ≡ false
nonzero n h = ground arith

module _ ⦃S : IntSets⦄ (host : Host) (fp : FileDeviceProvider) (s : OrinDeviceGrpcServer) where
  -- If the devices are located at a pod that requests some orin and that was annotated with board
  -- `b`, an int, and the attributes can be written, then `PreStartContainer` writes the attributes
  -- of this server's orin on board `b`, under the first device.
  pub pre_start_container-bound :
      (device_id : Text) (ids : List Text) (namespace name : Text) (pod : Pod) (b : ℤ)
      → IsInt64 b
      → host.locate (device_id ∷ ids) ≡ some (namespace, name)
      → host.sitter_get_pod namespace name ≡ some (add_pod_bind_annotation pod b)
      → S.len (build_request_orin_set pod) ≢ 0
      → host.populate_orin_attr
          (virtual_path s.resource_name device_id)
          (get_orin_attrs fp b s.orin_id)
        ≡ true
      → pre_start_container host fp s (device_id ∷ ids)
        ≡ ok (some (virtual_path s.resource_name device_id, get_orin_attrs fp b s.orin_id))
  unfolding pre_start_container pre_start_located pre_start_pod write_attrs add_pod_bind_annotation
      build_request_orin_set
  pre_start_container-bound device_id ids namespace name pod b int64 located found asked written =
      let annotated = board_annotation-add pod b in
      let parsed = parse_int-format_int b int64 in
      let some_asked : (S.len (build_request_orin_set (add_pod_bind_annotation pod b)) == 0)
          ≡ false =
        nonzero (S.len (build_request_orin_set pod)) asked in
      rw (located, pre_start_located)
        (rw (found, pre_start_located)
          (rw (annotated, pre_start_pod)
            (rw (parsed, pre_start_pod) (rw written (rw some_asked refl)))))
