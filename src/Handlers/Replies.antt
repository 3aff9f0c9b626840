-- ===== src/Handlers/Replies.antt =====
-- bpserver/handlers.go: the payloads of the replies.
use burnout_paradise_server.Common.{
  ℕ, ◌+◌, ◌-◌, [], ◌∷◌, ◌++◌, Bool, false, Bytes, codes, if◌then◌else◌,
}
use burnout_paradise_server.Text.{between}
use burnout_paradise_server.Number.{format_nat}
use burnout_paradise_server.Types.{Config}

-- A payload that ends in a NUL.
abbrev pub sealed : Bytes → Bytes
sealed payload = payload ++ 0 ∷ []

abbrev pub local_session_key_hex : Bytes
local_session_key_hex = codes "6c6f63616c2d62702d73657276657221"

abbrev pub local_persona_login_key : Bytes
local_persona_login_key = codes "local-bp-persona-session"

-- `serviceIdleTimeout.Milliseconds()`.
abbrev pub service_idle_milliseconds : ℕ
service_idle_milliseconds = 120000

unfoldable pub directory_payload : Config → Bytes
directory_payload c = sealed (
    codes "ADDR="
    ++ c.advertise_address
    ++ codes "\tPORT="
    ++ format_nat c.game_port
    ++ codes "\tSESS="
    ++ format_nat c.session_id
    ++ codes "\tMASK="
    ++ c.mask)

unfoldable pub skey_payload : Bytes
skey_payload = sealed (codes "SKEY=$" ++ local_session_key_hex ++ codes "\nDP=LOCAL\n")

-- A request for the news of a number.
unfoldable pub is_numeric : Bytes → Bool
is_numeric (c ∷ []) = between b'0' b'9' c
is_numeric _ = false

-- The FOURCC new0 with the number added.
unfoldable pub news_id : ℕ → Bytes → ℕ
news_id id (c ∷ []) = if between b'0' b'9' c then 0x6e657730 + (c - b'0') else id
news_id id _ = id

unfoldable pub news_payload : Bytes → Bytes
unfolding is_numeric
news_payload name =
    if is_numeric name
    then sealed (codes "SPAMMABLE=0\nSPAMDEFAULT=NNN\n")
    else sealed (codes "QOS_PORT=0\n")

account_lines : Bytes → Bytes → Bytes
account_lines name advertise =
    codes "NAME="
    ++ name
    ++ codes "\nPERSONAS="
    ++ name
    ++ codes "\nMAIL="
    ++ name
    ++ codes "@localhost\nADDR="
    ++ advertise
    ++ codes "\nNUCLEUSMSG=0\nSPAMMABLE=0\nSPAMDEFAULT="

unfoldable pub auth_payload : Bytes → Bytes → Bytes
unfolding account_lines
auth_payload name advertise = sealed (account_lines name advertise ++ codes "NNN\n")

unfoldable pub acct_payload : Bytes → Bytes → Bytes → Bytes
unfolding account_lines
acct_payload name spam advertise =
    sealed (account_lines name advertise ++ spam ++ codes "\nSPAM=" ++ spam ++ codes "\n")

unfoldable pub pers_payload : Bytes → Bytes
pers_payload persona = sealed (
    codes "PERS="
    ++ persona
    ++ codes "\nLKEY="
    ++ local_persona_login_key
    ++ codes "\nIDLE="
    ++ format_nat service_idle_milliseconds
    ++ codes "\n")

unfoldable pub kick_payload : Bytes → Bytes
kick_payload reason = sealed (codes "REASON=" ++ reason ++ codes "\n")
