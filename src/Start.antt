-- ===== src/Start.antt =====
-- bpserver/server.go: the checks of the configuration, the new server, and session ids.
pub mod Serving
use burnout_paradise_server.Common.{
  ℕ, ◌^◌, ◌<◌, ◌≡◌, refl, ◌∙◌, ap, List, [], ◌∷◌, Bool, true, false, not, ◌||◌, ◌&&◌, Option, none,
  some, Bytes, ltb, ◌==◌, if◌then◌else◌, length, lt→ltb, arith, some_eq, if_cases,
}
use burnout_paradise_server.Net.{Net}
use burnout_paradise_server.Challenge.{decode_hex}
use burnout_paradise_server.Number.{ℤ, pos, negsuc, parse_digits, format_nat}
use burnout_paradise_server.Number.RoundTrip.{parse_digits-format}
use burnout_paradise_server.Payload.Address.{is_some}
use burnout_paradise_server.Types.{Server, ServiceClient, local_persona_id}

-- `strconv.ParseUint(value, 10, 32)`, without its error's text.
unfoldable pub session_id_of : Option ℕ → Option ℕ
session_id_of none = none
session_id_of (some n) = if ltb n (2 ^ 32) then some n else none

unfoldable pub parse_session_id : Bytes → Option ℕ
unfolding session_id_of
parse_session_id value = session_id_of (parse_digits value)

-- The store behind the pointers has no client yet.
abbrev pub no_client : ServiceClient
no_client = record {
  persona_id = 0;
  persona_name = [];
  address = [];
  game_port = 0;
  user_params = [];
  user_flags = [];
  can_write = false;
}

-- A port of 1 to 65535.
unfoldable pub check_port : ℤ → Option ℕ
check_port (negsuc n) = none
check_port (pos n) = if ltb n 1 || ltb 65535 n then none else some n

unfoldable pub is_mask : Bytes → Bool
is_mask mask = is_some (decode_hex mask) && (length mask == 32)

unfoldable pub start_server : Bytes → Option ℕ → ℕ → Bytes → Option Server
start_server address none session mask = none
start_server address (some port) session mask =
    if not (is_mask mask)
    then none
    else some (record {
      config = record {
        advertise_address = address;
        game_port = port;
        session_id = session;
        mask = mask;
      };
      next_persona_id = local_persona_id;
      persona_ids = [];
      lobby = none;
      client = λ p. no_client;
    })

-- `none` is an error.
unfoldable pub new : Net → Bytes → ℤ → ℕ → Bytes → Option Server
unfolding start_server check_port is_mask
new net address port session mask =
    if not (is_some (net.parse_ip address))
    then none
    else start_server address (check_port port) session mask

-- Every session id of 32 bits is read back from its decimal text.
pub parse_session_id-format : (n : ℕ) → n < 2 ^ 32 → parse_session_id (format_nat n) ≡ some n
unfolding parse_session_id session_id_of
parse_session_id-format n h =
    ap session_id_of (parse_digits-format n) ∙ rw (lt→ltb n (2 ^ 32) h) refl

-- And every text that is read gives one.
pub parse_session_id-bound : (value : Bytes) (n : ℕ) → parse_session_id value ≡ some n → n < 2 ^ 32
unfolding parse_session_id session_id_of
parse_session_id-bound value n = bounded (parse_digits value)
  where
    bounded : (o : Option ℕ) → session_id_of o ≡ some n → n < 2 ^ 32
    bounded none = λ e. cc
    bounded (some k) =
        if_cases (λ (o : Option ℕ). o ≡ some n → n < 2 ^ 32) (ltb k (2 ^ 32)) _ _
          (λ h e. ground (arith, h, some_eq e)) (λ h e. cc)
