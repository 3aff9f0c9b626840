-- ===== src/Lobby/Merge.antt =====
-- bpserver/lobby.go: a partial update of the game request.
pub mod ReadBack
use burnout_paradise_server.Common.{[], ◌∷◌, List, Option, none, some, Bytes, codes}
use burnout_paradise_server.Payload.{get_payload_field, get_payload_field_value}
use burnout_paradise_server.Record.Game.{line}

abbrev pub merge_keys : List Bytes
merge_keys =
    codes "NAME"
    ∷ codes "PARAMS"
    ∷ codes "USERPARAMS"
    ∷ codes "MINSIZE"
    ∷ codes "MAXSIZE"
    ∷ codes "CUSTFLAGS"
    ∷ codes "SYSFLAGS"
    ∷ codes "PRIV"
    ∷ codes "SEED"
    ∷ codes "USERFLAGS"
    ∷ []

-- The value of a key: the update's, and the base's if the update has none.
unfoldable pub merged_value : Bytes → Bytes → Bytes → Bytes
merged_value base update key = elim (get_payload_field_value update key) [
  | none ↦ get_payload_field base key
  | some value ↦ value
]

unfoldable pub merged_lines : Bytes → Bytes → List Bytes → Bytes
merged_lines base update [] = 0 ∷ []
merged_lines base update (key ∷ keys) =
    line key (merged_value base update key) (merged_lines base update keys)

unfoldable pub merge_local_game_request : Bytes → Bytes → Bytes
merge_local_game_request base update = merged_lines base update merge_keys
