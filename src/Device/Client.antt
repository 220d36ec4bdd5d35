-- ===== src/Device/Client.antt =====
-- pkg/device/podresources/client.go and kubeapis/locator.go: the kubelet's endpoint, and the client
-- that a locator connects to it. gRPC's dial, `url.Parse` and the escaping of paths are arguments.
use orin_device_system.Common.{
  [], ◌∷◌, ◌++◌, Option, some, Text, codes, Result, ok, err, ◌≡◌, refl, ap, ◌∙◌, Text_discrete,
}
use orin_device_system.Device.Paths.{
  path_join, path_clean, path_of, is_rooted, split, onto_first, clean_elements, clean_element,
  join_parts,
}
use orin_device_system.Device.Locator.{
  Url, EndpointError, get_address_and_dialer, parse_endpoint_with_fallback_protocol, parse_endpoint,
  endpoint_of, with_fallback, address_of,
}

abbrev pub pod_resource_root : Text
pod_resource_root = codes "/var/lib/kubelet/pod-resources"

abbrev pub socket_name : Text
socket_name = codes "kubelet"

-- url.URL{Scheme: "unix", Path: path}.String()
unfoldable pub unix_url : (Text → Text) → Text → Text
unix_url escape [] = codes "unix:"
unix_url escape (c ∷ path) = codes "unix://" ++ escape (c ∷ path)

-- `LocalEndpoint`; the scheme and its slashes are cleaned as a part of the path.
unfoldable pub local_endpoint : (Text → Text) → Text → Text → Text
local_endpoint escape path file = path_join (unix_url escape path) (file ++ codes ".sock")

pub data ClientError (E : Type 0) : Type 0 where
  bad_endpoint : EndpointError → ClientError E
  dial_error : E → ClientError E

module _ {E Conn : Type 0} (url_parse : Text → Option Url) (dial : Text → Result E Conn) where
  unfoldable pub dialed : Result EndpointError Text → Result (ClientError E) Conn
  dialed (err e) = err (bad_endpoint e)
  dialed (ok addr) = elim (dial addr) [ err e ↦ err (dial_error e) | ok conn ↦ ok conn ]

  -- `GetClient`: the connection of the client
  unfoldable pub get_client : Text → Result (ClientError E) Conn
  get_client socket = dialed (get_address_and_dialer url_parse socket)

  -- A locator: the error of its last client, or its client's connection.
  pub record KubeletDeviceLocator : Type 0 where
    pub resource : Text
    pub client : Result (ClientError E) Conn

  -- NewKubeletDeviceLocator
  unfoldable pub new_kubelet_device_locator : (Text → Text) → Text → KubeletDeviceLocator
  new_kubelet_device_locator escape resource = record {
    resource = resource;
    client = get_client (local_endpoint escape pod_resource_root socket_name);
  }

abbrev pub kubelet_socket_path : Text
kubelet_socket_path = pod_resource_root ++ codes "/kubelet.sock"

kubelet_endpoint :
    (escape : Text → Text)
    → escape pod_resource_root ≡ pod_resource_root
    → local_endpoint escape pod_resource_root socket_name ≡ codes "unix:" ++ kubelet_socket_path
unfolding local_endpoint unix_url path_join path_clean path_of is_rooted split onto_first
    clean_elements clean_element Text_discrete join_parts
kubelet_endpoint escape plain =
    ap (λ p. path_join (codes "unix://" ++ p) (codes "kubelet.sock")) plain ∙ refl

-- Where escaping leaves the kubelet's directory as it is, and the URL unix:/var/... parses to the
-- scheme unix and the path after it, a new locator dials the socket kubelet.sock in this directory,
-- and keeps the connection or the error.
pub new_kubelet_device_locator-dials :
    {E Conn : Type 0} (url_parse : Text → Option Url) (dial : Text → Result E Conn)
    (escape : Text → Text) (resource : Text)
    → escape pod_resource_root ≡ pod_resource_root
    → url_parse (codes "unix:" ++ kubelet_socket_path)
      ≡ some (record { scheme = codes "unix"; host = []; path = kubelet_socket_path })
    → (new_kubelet_device_locator url_parse dial escape resource).client
      ≡ dialed url_parse dial (ok kubelet_socket_path)
unfolding new_kubelet_device_locator get_client get_address_and_dialer
    parse_endpoint_with_fallback_protocol parse_endpoint endpoint_of with_fallback address_of
    Text_discrete
new_kubelet_device_locator-dials url_parse dial escape resource plain parsed =
    ap (get_client url_parse dial) (kubelet_endpoint escape plain)
    ∙ rw (parsed, parse_endpoint) refl
