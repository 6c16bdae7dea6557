-- ===== src/Wire/Message.antt =====
-- gen/hello-spanreed/message.ts: `enum Message`, and the functions that choose the class of a table by it.
use spanreed_netcode_proxy.Prelude.{ℕ, Option, none, some, ◌==◌, if◌then◌else◌}

pub data Message : Type 0 where
  none_ server_chat_message server_game_state_message : Message

-- The value on the wire.
abbrev pub message_value : Message → ℕ
message_value none_ = 0
message_value server_chat_message = 1
message_value server_game_state_message = 2

-- `Message[type]`: the name that a value has, if any.
abbrev pub message_name : ℕ → Option Message
message_name type =
    if type == 0
    then some none_
    else if type == 1
    then some server_chat_message
    else if type == 2
    then some server_game_state_message
    else none

-- The accessor is given an object of the class that the name says; a class is its name here.
switch_message : {A : Type 0} → Option Message → (Message → Option A) → Option A
switch_message none accessor = none
switch_message (some none_) accessor = none
switch_message (some server_chat_message) accessor = accessor server_chat_message
switch_message (some server_game_state_message) accessor = accessor server_game_state_message

unfoldable pub union_to_message : {A : Type 0} → ℕ → (Message → Option A) → Option A
unfolding switch_message
union_to_message type accessor = switch_message (message_name type) accessor

unfoldable pub union_list_to_message : {A : Type 0} → ℕ → (ℕ → Message → Option A) → ℕ → Option A
unfolding switch_message
union_list_to_message type accessor index = switch_message (message_name type) (accessor index)
