-- ===== src/Lib.antt =====
-- A verification library for the device system that schedules pods onto the orins (SoCs) of boards:
-- a device plugin publishes the boards of a node as resources, and a scheduler extender filters and
-- scores nodes, chooses a board for a pod and keeps the books of what is taken.
--
-- Each file models code of the repository:
--   Names         pkg/common/common.go, pkg/scheduler/manager/util.go (resource names; the decimal
--                 numbers of strconv that they use)
--   Topo          pkg/scheduler/manager/topo/mazuinfo.go (BoardDetails, OrinDetails); Topo.Forget for
--                 its maps without their order, as a quotient
--   DecimalMap    pkg/scheduler/manager/decimalmap.go
--   Allocator     pkg/scheduler/manager/allocator.go
--   Pods          the pods and nodes of the API server; BuildRequestOrinSet of cache.go, the pod
--                 annotations of util.go and the predicates on pods of controller.go
--   NodeInfo      pkg/scheduler/manager/cache.go: NodeInfo, addPod, deletePod, NewNodeInfo, and the
--                 maps that its fields share
--   Cache         pkg/scheduler/manager/cache.go: scheduleCache and its methods; any
--                 calls of them (Cache.Calls, Cache.Histories), and calls whose pod additions are
--                 accepted (Cache.Reachable)
--   Manager       pkg/scheduler/manager/manager.go: Predicate, Priority; Normalize of util.go
--   Manager.Parallel  Parallelize of util.go with its goroutines and its channel, and Predicate and
--                 Priority on top of it
--   Manager.Bind  pkg/scheduler/manager/manager.go: GetPodFromApiserver, Bind; Manager.Bind.Filtered for
--                 Bind after Predicate
--   Manager.Race  two calls of Bind at once, up to AssumePod
--   Manager.Choice, Manager.Sharing, Manager.Ledger  how the choice of the allocator and addPod fit
--                 together; placements and deletions of pods on a node, as a step relation; and the
--                 abstract ledger of leases that these steps implement
--   Manager.Bounds  the IDs in the books of a node after such steps
--   Controller    pkg/scheduler/manager/controller.go: the event handlers, syncPod and the worker;
--                 Controller.Rounds for Run and the waits of NewController
--   Routes        pkg/scheduler/routes: the handlers of the extender (bind.go, predicates.go,
--                 priorities.go); routes.go in Routes.Http and Routes.Serve
--   Program       the scheduler as a whole: informer events, synced keys and binds on one cache
--   Commands      cmd/scheduler/scheduler.go, cmd/deviceplugin/deviceplugin.go
--   Device.Provider  pkg/device/provider/file.go, interface.go
--   Device.Plugin, Device.Serving  pkg/device/plugin/orin.go
--   Device.Server    pkg/device/plugin/plugin.go
--   Device.Types     pkg/device/types/device.go
--   Device.Keys, Device.Paths  pkg/device/types/pod.go, and what it calls of path and strings
--   Device.Locator   pkg/device/kubeapis/locator.go, pkg/device/podresources/server.go, client.go
--   Device.Client    pkg/device/podresources/client.go, constants.go; a new locator
--   Device.Sitter    pkg/device/kubeapis/sitter.go
--   Common        shared names, Go's maps as association lists, int64 arithmetic, and sets.Int and
--                 sets.String of k8s.io/apimachinery as interfaces with their documented laws
--   Examples      the theorems at concrete inputs
--
-- The parts interact as follows. The plugin (Device.Plugin) reads the device file and patches the
-- node with a number per board; NewNodeInfo reads this number back. The extender's routes call
-- Predicate, Priority and Bind, which read and change the cache; the controller's handlers change
-- the same cache when pods and nodes change. Bind writes the board into an annotation of the pod,
-- and PreStartContainer of the plugin finds the pod and reads the annotation.
--
-- A function of the code is a definition of the same name in snake case. A method that changes its
-- receiver returns the receiver after the call; an error is an Option or a Result beside it, since
-- Go keeps what a method changed before it failed. A panic is the outcome `panic`. An int and an
-- int64 are integers with wrap-around at 64 bits where the code computes with them; only 100 minus the
-- number of free orins of a node is not wrapped, a number far below 2^63.
--
-- A Go map is a list of pairs, in one order that `range` may visit: theorems hold for every list
-- with distinct keys. Maps are values, with one exception: Allocatable takes over maps of Total, and
-- deletePod changes a map of Allocatable in place. NodeInfo.shares_total says which boards of
-- Allocatable have the very map that Total has, and `release` changes Total too on such a board. No
-- other map that a field of the cache holds is changed in place while a second one holds it.
--
-- Each method of the cache holds its lock, so it is one step. The goroutines of Parallelize take
-- turns that a schedule lists; a work piece is one step, since what it changes is one atomic slot,
-- one entry under a mutex, or a slot of its own. Predicate and Priority without schedule take the
-- order of the pieces as an argument. In Program every event is one step, a whole Bind included:
-- no other call of the cache comes between the calls of one Bind. A request whose handler panics
-- keeps what it changed, and the program goes on, since net/http recovers the panic. Manager.Race
-- takes two calls of Bind apart, since the choice of a board and AssumePod are not one step in the
-- code. A plugin's server is a state machine over the phases of `Run`, with what it meets at each
-- move as input.
--
-- The API server and retry.Do are parameters (Manager.Bind.Api, Manager.Bind.Retry), and so are the
-- listers and key functions of client-go (Controller.Informers, Device.Sitter.PodSource), its
-- configuration (Commands.KubeConfig), encoding/json (Routes.Http.Codec, Device.Keys.DeviceJson),
-- what the plugin calls on the host (Device.Plugin.Host, Device.Serving.AttrFiles), the dial of gRPC,
-- the hash of a device list, url.Parse, and the conversion to int64 of floats from 10^19 on (`huge`).
-- Fuel bounds only the decimal printer, where a number has no more digits than its value plus one;
-- the other loops run over a list: pieces, schedules, keys, moves.
--
-- Not modelled: what the logs say of their arguments, command line flags, the informers and the rate
-- limiter of the queue inside client-go, the YAML of the device file, the transport of gRPC and HTTP,
-- and the generated protocol code.
pub mod Common
pub mod Topo
pub mod Names
pub mod DecimalMap
pub mod Allocator
pub mod Pods
pub mod NodeInfo
pub mod Cache
pub mod Manager
pub mod Controller
pub mod Routes
pub mod Program
pub mod Commands
pub mod Device
mod Examples
