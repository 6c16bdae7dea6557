-- ===== src/Wire/UserMessage.antt =====
-- gen/hello-spanreed/user-message.ts: `enum UserMessage`, and the functions that choose the class of
-- a table by it. color.ts: `enum Color`.
use spanreed_netcode_proxy.Prelude.{ℕ, Option, none, some, ◌==◌, if◌then◌else◌}

pub data UserMessage : Type 0 where
  none_ user_connect_message user_click_message user_chat_message user_ping_message : UserMessage

-- The value on the wire.
abbrev pub user_message_value : UserMessage → ℕ
user_message_value none_ = 0
user_message_value user_connect_message = 1
user_message_value user_click_message = 2
user_message_value user_chat_message = 3
user_message_value user_ping_message = 4

-- `UserMessage[type]`: the name that a value has, if any.
abbrev pub user_message_name : ℕ → Option UserMessage
user_message_name type =
    if type == 0
    then some none_
    else if type == 1
    then some user_connect_message
    else if type == 2
    then some user_click_message
    else if type == 3
    then some user_chat_message
    else if type == 4
    then some user_ping_message
    else none

-- The accessor is given an object of the class that the name says; a class is its name here.
switch_user_message : {A : Type 0} → Option UserMessage → (UserMessage → Option A) → Option A
switch_user_message none accessor = none
switch_user_message (some none_) accessor = none
switch_user_message (some user_connect_message) accessor = accessor user_connect_message
switch_user_message (some user_click_message) accessor = accessor user_click_message
switch_user_message (some user_chat_message) accessor = accessor user_chat_message
switch_user_message (some user_ping_message) accessor = accessor user_ping_message

unfoldable pub union_to_user_message : {A : Type 0} → ℕ → (UserMessage → Option A) → Option A
unfolding switch_user_message
union_to_user_message type accessor = switch_user_message (user_message_name type) accessor

unfoldable pub union_list_to_user_message :
    {A : Type 0} → ℕ → (ℕ → UserMessage → Option A) → ℕ → Option A
unfolding switch_user_message
union_list_to_user_message type accessor index =
    switch_user_message (user_message_name type) (accessor index)

pub data Color : Type 0 where
  red green blue indigo fire_orange : Color

abbrev pub color_value : Color → ℕ
color_value red = 0
color_value green = 1
color_value blue = 2
color_value indigo = 3
color_value fire_orange = 4
