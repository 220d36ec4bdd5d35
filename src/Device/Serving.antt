-- ===== src/Device/Serving.antt =====
-- pkg/device/plugin/orin.go: the rest of the device plugin: the start of its servers, the calls
-- that tell the kubelet of the devices, and the file that a container finds its orin in. The file
-- system, JSON and the stream to the kubelet are arguments.
use orin_device_system.Common.{
  List, [], ◌∷◌, Option, none, some, Bool, true, Text, codes, Result, ok, err,
}
use orin_device_system.Pods.{TextMap}
use orin_device_system.Device.Provider.{Attr}
use orin_device_system.Device.Paths.{path_join}
use orin_device_system.Device.Plugin.{PluginDevice, OrinDeviceGrpcServer, DevicePluginServer}
use orin_device_system.Device.Server.{PluginRun, run_start}

module _ {E : Type 0} where
  -- OrinDevicePlugin.Run: every server starts its own `Run`.
  unfoldable pub run_plugins : TextMap DevicePluginServer → TextMap (PluginRun E)
  run_plugins [] = []
  run_plugins ((name, p) ∷ odp) = (p.resource_name, run_start) ∷ run_plugins odp

  -- OrinDeviceGrpcServer.ListAndWatch: the devices are sent once, and the call waits for the end of
  -- the stream, unless sending fails.
  unfoldable pub list_and_watch : (List PluginDevice → Option E) → OrinDeviceGrpcServer → Option E
  list_and_watch send s = send s.devices

-- OrinDeviceGrpcServer.GetDevicePluginOptions: whether `PreStartContainer` is to be called
unfoldable pub get_device_plugin_options : OrinDeviceGrpcServer → Bool
get_device_plugin_options s = true

-- What `populateOrinAttr` calls.
pub record AttrFiles : Type 1 where
  pub Files : Type 0
  pub FileError : Type 0
  pub mkdir_all : Files → Text → Files × Option FileError
  pub marshal : TextMap Attr → Result FileError Text
  pub write_file : Files → Text → Text → Files × Option FileError

module _ (env : AttrFiles) where
  open env use {Files, FileError, mkdir_all, marshal, write_file}

  -- `populateOrinAttr`, after its call of `MkdirAll`
  unfoldable pub write_config :
      Files × Option FileError → Text → TextMap Attr → Files × Option FileError
  write_config (fs, some e) config_path attr = (fs, some e)
  write_config (fs, none) config_path attr = elim (marshal attr) [
    | err e ↦ (fs, some e)
    | ok bs ↦ write_file fs config_path bs
  ]

  unfoldable pub populate_orin_attr : Files → Text → TextMap Attr → Files × Option FileError
  populate_orin_attr fs vpath attr =
      write_config (mkdir_all fs vpath) (path_join vpath (codes "config.json")) attr
