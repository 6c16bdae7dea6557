-- ===== src/Wire/ProxyDestInnerMsg.antt =====
-- gen/spanreed-message/proxy-dest-inner-msg.ts: `enum ProxyDestInnerMsg`, and the functions that choose the class of a table by it.
use spanreed_netcode_proxy.Prelude.{ℕ, Option, none, some, ◌==◌, if◌then◌else◌}

pub data ProxyDestInnerMsg : Type 0 where
  none_ proxy_dest_connection_request proxy_dest_client_message proxy_dest_close_connection :
      ProxyDestInnerMsg

-- The value on the wire.
abbrev pub proxy_dest_inner_msg_value : ProxyDestInnerMsg → ℕ
proxy_dest_inner_msg_value none_ = 0
proxy_dest_inner_msg_value proxy_dest_connection_request = 1
proxy_dest_inner_msg_value proxy_dest_client_message = 2
proxy_dest_inner_msg_value proxy_dest_close_connection = 3

-- `ProxyDestInnerMsg[type]`: the name that a value has, if any.
abbrev pub proxy_dest_inner_msg_name : ℕ → Option ProxyDestInnerMsg
proxy_dest_inner_msg_name type =
    if type == 0
    then some none_
    else if type == 1
    then some proxy_dest_connection_request
    else if type == 2
    then some proxy_dest_client_message
    else if type == 3
    then some proxy_dest_close_connection
    else none

-- The accessor is given an object of the class that the name says; a class is its name here.
switch_proxy_dest_inner_msg :
    {A : Type 0} → Option ProxyDestInnerMsg → (ProxyDestInnerMsg → Option A) → Option A
switch_proxy_dest_inner_msg none accessor = none
switch_proxy_dest_inner_msg (some none_) accessor = none
switch_proxy_dest_inner_msg (some proxy_dest_connection_request) accessor =
    accessor proxy_dest_connection_request
switch_proxy_dest_inner_msg (some proxy_dest_client_message) accessor =
    accessor proxy_dest_client_message
switch_proxy_dest_inner_msg (some proxy_dest_close_connection) accessor =
    accessor proxy_dest_close_connection

unfoldable pub union_to_proxy_dest_inner_msg :
    {A : Type 0} → ℕ → (ProxyDestInnerMsg → Option A) → Option A
unfolding switch_proxy_dest_inner_msg
union_to_proxy_dest_inner_msg type accessor =
    switch_proxy_dest_inner_msg (proxy_dest_inner_msg_name type) accessor

unfoldable pub union_list_to_proxy_dest_inner_msg :
    {A : Type 0} → ℕ → (ℕ → ProxyDestInnerMsg → Option A) → ℕ → Option A
unfolding switch_proxy_dest_inner_msg
union_list_to_proxy_dest_inner_msg type accessor index =
    switch_proxy_dest_inner_msg (proxy_dest_inner_msg_name type) (accessor index)
