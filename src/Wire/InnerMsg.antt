-- ===== src/Wire/InnerMsg.antt =====
-- gen/spanreed-message/inner-msg.ts: `enum InnerMsg`, and the functions that choose the class of a table by it.
use spanreed_netcode_proxy.Prelude.{ℕ, Option, none, some, ◌==◌, if◌then◌else◌}

pub data InnerMsg : Type 0 where
  none_ proxy_message connection_verdict close_connection : InnerMsg

-- The value on the wire.
abbrev pub inner_msg_value : InnerMsg → ℕ
inner_msg_value none_ = 0
inner_msg_value proxy_message = 1
inner_msg_value connection_verdict = 2
inner_msg_value close_connection = 3

-- `InnerMsg[type]`: the name that a value has, if any.
abbrev pub inner_msg_name : ℕ → Option InnerMsg
inner_msg_name type =
    if type == 0
    then some none_
    else if type == 1
    then some proxy_message
    else if type == 2
    then some connection_verdict
    else if type == 3
    then some close_connection
    else none

-- The accessor is given an object of the class that the name says; a class is its name here.
switch_inner_msg : {A : Type 0} → Option InnerMsg → (InnerMsg → Option A) → Option A
switch_inner_msg none accessor = none
switch_inner_msg (some none_) accessor = none
switch_inner_msg (some proxy_message) accessor = accessor proxy_message
switch_inner_msg (some connection_verdict) accessor = accessor connection_verdict
switch_inner_msg (some close_connection) accessor = accessor close_connection

unfoldable pub union_to_inner_msg : {A : Type 0} → ℕ → (InnerMsg → Option A) → Option A
unfolding switch_inner_msg
union_to_inner_msg type accessor = switch_inner_msg (inner_msg_name type) accessor

unfoldable pub union_list_to_inner_msg : {A : Type 0} → ℕ → (ℕ → InnerMsg → Option A) → ℕ → Option A
unfolding switch_inner_msg
union_list_to_inner_msg type accessor index =
    switch_inner_msg (inner_msg_name type) (accessor index)
