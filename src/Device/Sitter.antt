-- ===== src/Device/Sitter.antt =====
-- pkg/device/kubeapis/sitter.go: the pods of one node, from an informer with a field selector. The
-- informer's store and the API server are arguments.
use orin_device_system.Common.{
  List, [], ◌∷◌, ◌++◌, Option, none, some, Bool, true, false, Text, Text_discrete, codes, Result,
  ok, err, ite, if◌then◌else◌,
}
use orin_device_system.Pods.{Pod, Node}

-- `nodeNameFilter`: the field selector that the informer lists and watches pods with
unfoldable pub node_name_filter : Text → Text
node_name_filter node_name = codes "spec.nodeName=" ++ node_name

-- What the sitter asks of client-go and of the API server.
pub record PodSource (E : Type 0) : Type 0 where
  pub get_pod_from_apiserver : Text → Text → Result E Pod
  pub get_node_from_apiserver : Text → Result E Node
  pub not_found : Text → Text → E

-- The informer, once it is set, with the pods in its store and whether it has synced.
pub record PodInformer : Type 0 where
  pub selector : Text
  pub store : List Pod
  pub synced : Bool

pub record PodSitter (E : Type 0) : Type 0 where
  pub client : PodSource E
  pub pod_informer : Option PodInformer

unfoldable pub find_pod : Text → Text → List Pod → Option Pod
find_pod namespace name [] = none
find_pod namespace name (pod ∷ pods) =
    if ite (Text_discrete pod.namespace namespace) (ite (Text_discrete pod.name name) true false)
      false
    then some pod
    else find_pod namespace name pods

module _ {E : Type 0} where
  -- `NewSitter`: nothing is stored before `Start`
  unfoldable pub new_sitter : PodSource E → Text → PodSitter E
  new_sitter client node_name = record {
    client = client;
    pod_informer =
        some (record { selector = node_name_filter node_name; store = []; synced = false });
  }

  -- PodSitter.GetPod, from the informer's store
  unfoldable pub get_pod : PodSitter E → Text → Text → Result E Pod
  get_pod p namespace name = elim p.pod_informer [
    | none ↦ err (p.client.not_found namespace name)
    | some informer ↦ (elim (find_pod namespace name informer.store) [
      | none ↦ err (p.client.not_found namespace name)
      | some pod ↦ ok pod
    ])
  ]

  -- PodSitter.GetPodFromApiServer and GetNodeFromApiServer
  unfoldable pub get_pod_from_api_server : PodSitter E → Text → Text → Result E Pod
  get_pod_from_api_server p namespace name = p.client.get_pod_from_apiserver namespace name

  unfoldable pub get_node_from_api_server : PodSitter E → Text → Result E Node
  get_node_from_api_server p name = p.client.get_node_from_apiserver name

  -- PodSitter.HasSynced
  unfoldable pub has_synced : PodSitter E → Bool
  has_synced p = elim p.pod_informer [ none ↦ false | some informer ↦ informer.synced ]
