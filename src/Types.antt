-- ===== src/Types.antt =====
-- bpserver/types.go: the constants, and the state of the server and of its clients.
use burnout_paradise_server.Common.{ℕ, ◌^◌, List, Bool, Option, Bytes}

abbrev pub local_persona_id : ℕ
local_persona_id = 1

abbrev pub local_peer_game_port : ℕ
local_peer_game_port = 1024

abbrev pub first_instance_game_port : ℕ
first_instance_game_port = 3659

abbrev pub last_instance_game_port : ℕ
last_instance_game_port = 4095

-- 0x80000.
abbrev pub game_started_sys_flag : ℕ
game_started_sys_flag = 2 ^ 19

-- `*serviceClient`. Pointers are compared and looked up in the server's store of clients.
abbrev pub Ptr : Type 0
Ptr = ℕ

abbrev pub nil : Ptr
nil = 0

-- What the server knows of a service connection. `can_write` says that the field `write` is set.
pub record ServiceClient : Type 0 where
  pub persona_id : ℕ
  pub persona_name : Bytes
  pub address : Bytes
  pub game_port : ℕ
  pub user_params : Bytes
  pub user_flags : Bytes
  pub can_write : Bool

-- A map from clients to the empty struct is the list of its keys, each once; the nil map is empty.
pub record LocalLobby : Type 0 where
  pub request : Bytes
  pub host : Ptr
  pub players : List Ptr
  pub result_reports : List Ptr

pub record Config : Type 0 where
  pub advertise_address : Bytes
  pub game_port : ℕ
  pub session_id : ℕ
  pub mask : Bytes

-- The server, with the store that its pointers lead into. `persona_ids` is an association list.
pub record Server : Type 0 where
  pub config : Config
  pub next_persona_id : ℕ
  pub persona_ids : List (Bytes × ℕ)
  pub lobby : Option LocalLobby
  pub client : Ptr → ServiceClient
