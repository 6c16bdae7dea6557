-- ===== src/Proxy/Hosts.antt =====
-- Which hosts may be spoken to: pkg/util/strutils.go, and the checks of
-- pkg/transport/udp_destination.go and pkg/transport/websocket_client.go.
use spanreed_netcode_proxy.Prelude.{Bool, true, false, String, List, [], ◌∷◌, if◌then◌else◌}
use spanreed_netcode_proxy.Proxy.State.{same_name}
pub mod Listing

pub contains : String → List String → Bool
contains s [] = false
contains s (c ∷ list) = if same_name c s then true else contains s list

unfoldable pub is_destination_allowed :
    (allow_all : Bool) (allowlist denylist : List String) (destination : String) → Bool
unfolding contains
is_destination_allowed allow_all allowlist denylist destination =
    if contains destination denylist
    then false
    else if allow_all
    then true
    else contains destination allowlist

-- `CheckOrigin` of the upgrader, of the header `Origin`.
unfoldable pub check_origin :
    (allow_all_hosts : Bool) (allowlisted_hosts denylisted_hosts : List String) (origin : String)
    → Bool
unfolding contains
check_origin allow_all_hosts allowlisted_hosts denylisted_hosts origin =
    if contains origin denylisted_hosts
    then false
    else if allow_all_hosts
    then true
    else contains origin allowlisted_hosts
