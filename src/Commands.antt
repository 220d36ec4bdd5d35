-- ===== src/Commands.antt =====
-- cmd/scheduler/scheduler.go and cmd/deviceplugin/deviceplugin.go: how the two programs start and
-- end. What client-go and net/http answer are arguments; `klog.Fatal` ends the program.
pub mod Signals
use orin_device_system.Common.{
  ℕ, zero, suc, ℤ, List, [], ◌∷◌, Option, none, some, Bool, true, false, Text, Text_discrete,
  Result, ok, err, lookup, if◌then◌else◌,
}
use orin_device_system.Common.Sets.{IntSets}
use orin_device_system.Pods.{TextMap, is_empty}
use orin_device_system.Device.Provider.{FileDeviceProvider}
use orin_device_system.Device.Plugin.{DevicePluginServer, new_orin_device_plugin}
use orin_device_system.Device.Server.{PluginRun}
use orin_device_system.Device.Serving.{run_plugins}
use orin_device_system.Controller.Rounds.{NewControllerError, wait_for_caches}

-- What `BuildClientSet` calls of client-go.
pub record KubeConfig : Type 1 where
  pub Config : Type 0
  pub Client : Type 0
  pub KubeError : Type 0
  pub in_cluster_config : Result KubeError Config
  pub build_config_from_flags : Text → Result KubeError Config
  pub new_for_config : Config → Result KubeError Client

-- How a step of a program ends: with a value, with an error, or with the program.
pub data Started (E A : Type 0) : Type 0 where
  started : A → Started E A
  failed : E → Started E A
  fatal : E → Started E A

module _ (kube : KubeConfig) where
  open kube use {
    Config, Client, KubeError, in_cluster_config, build_config_from_flags, new_for_config,
  }

  unfoldable pub client_of : Result KubeError Config → Started KubeError Client
  client_of (err e) = failed e
  client_of (ok config) = elim (new_for_config config) [
    | err e ↦ fatal e
    | ok client ↦ started client
  ]

  -- `BuildClientSet`, the same in both programs
  unfoldable pub build_client_set : Text → Started KubeError Client
  build_client_set kubeconfig_path = client_of (
      if is_empty kubeconfig_path
      then in_cluster_config
      else build_config_from_flags kubeconfig_path)

  -- Why the scheduler's `main` ends by itself.
  pub data SchedulerEnd : Type 0 where
    no_client : KubeError → SchedulerEnd
    no_controller : NewControllerError → SchedulerEnd
    no_server : Text → SchedulerEnd

  unfoldable pub serve_extender : Option Text → Option SchedulerEnd
  serve_extender none = none
  serve_extender (some e) = some (no_server e)

  unfoldable pub with_controller :
      Result NewControllerError (Unit {0}) → Option Text → Option SchedulerEnd
  with_controller (err e) listen = some (no_controller e)
  with_controller (ok _) listen = serve_extender listen

  -- `main` of the scheduler: `none` while it serves. `listen` is the error of `ListenAndServe`.
  unfoldable pub scheduler_main : Text → Bool → Bool → Option Text → Option SchedulerEnd
  scheduler_main kubeconfig nodes_synced pods_synced listen = elim (build_client_set kubeconfig) [
    | failed e ↦ some (no_client e)
    | fatal e ↦ some (no_client e)
    | started client ↦ with_controller (wait_for_caches nodes_synced pods_synced) listen
  ]

  -- Why the device plugin's `main` ends before its servers run.
  pub data PluginEnd (ApiError : Type 0) : Type 0 where
    no_plugin_client : KubeError → PluginEnd ApiError
    sitter_not_synced invalid_provider provider_failed : PluginEnd ApiError
    node_not_patched : ApiError → PluginEnd ApiError

  module _ ⦃S : IntSets⦄ {World ApiError E : Type 0}
      (apply_status : World → Text → TextMap ℤ → World × Option ApiError)
      (providers : TextMap (Text → Option FileDeviceProvider)) where
    unfoldable pub plugins_running :
        World × Result ApiError (TextMap DevicePluginServer)
        → World × Result (PluginEnd ApiError) (TextMap (PluginRun E))
    plugins_running (w, err e) = (w, err (node_not_patched e))
    plugins_running (w, ok odp) = (w, ok (run_plugins odp))

    -- `main`, from the choice of a provider on
    unfoldable pub with_provider :
        World
        → (ℕ → ℤ)
        → Text
        → Text
        → Text
        → World × Result (PluginEnd ApiError) (TextMap (PluginRun E))
    with_provider w huge device_provider config node_name =
        elim (lookup Text_discrete device_provider providers) [
          | none ↦ (w, err invalid_provider)
          | some create ↦ (elim (create config) [
            | none ↦ (w, err provider_failed)
            | some p ↦ plugins_running (new_orin_device_plugin apply_status w huge p node_name)
          ])
        ]

    -- `main` of the device plugin; `synced` is what `WaitForCacheSync` answers.
    unfoldable pub device_plugin_main :
        World
        → (ℕ → ℤ)
        → Text
        → Bool
        → Text
        → Text
        → Text
        → World × Result (PluginEnd ApiError) (TextMap (PluginRun E))
    device_plugin_main w huge kubeconfig synced device_provider config node_name =
        elim (build_client_set kubeconfig) [
          | failed e ↦ (w, err (no_plugin_client e))
          | fatal e ↦ (w, err (no_plugin_client e))
          | started client ↦
              if synced
              then with_provider w huge device_provider config node_name
              else (w, err sitter_not_synced)
        ]
