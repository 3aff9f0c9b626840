-- ===== src/Lobby/Ops/RaceFlag.antt =====
-- bpserver/lobby.go: the flag of a running race in a request.
use burnout_paradise_server.Common.{
  ◌≡◌, ap, ◌∙◌, true, false, inl, inr, arith, Bytes, codes, Option-cases,
}
use burnout_paradise_server.Number.{or_mask, and_not_mask, has_mask, parse_int}
use burnout_paradise_server.Number.RoundTrip.{Fits}
use burnout_paradise_server.Number.Range.{parse_int-Fits}
use burnout_paradise_server.Number.Masks.{
  has_mask-or_mask, has_mask-and_not_mask, or_mask-Fits, and_not_mask-Fits,
}
use burnout_paradise_server.Payload.{get_payload_field, decimal_field}
use burnout_paradise_server.Types.{LocalLobby, game_started_sys_flag}
use burnout_paradise_server.Lobby.Flags.{sys_flags-with_flags}
use burnout_paradise_server.Lobby.Ops.{sys_flags, flags_of, with_flags}

sys_flags-Fits : (request : Bytes) → Fits 32 (sys_flags request)
unfolding sys_flags flags_of
sys_flags-Fits request =
    elim (Option-cases
      (parse_int 32 (decimal_field (get_payload_field request (codes "SYSFLAGS")) (codes "0")))) [
        | inl e ↦ rw (flags_of, e) (unfold Fits in omega arith)
        | inr (z, e) ↦ rw (flags_of, e) (parse_int-Fits _ z e)
      ]

-- A reader finds the flag cleared in the request with the cleared flags, whatever the request was before.
pub flag_cleared :
    (l : LocalLobby)
    → has_mask
        (sys_flags
          (with_flags l (and_not_mask (sys_flags l.request) game_started_sys_flag)).request)
        game_started_sys_flag
      ≡ false
flag_cleared l =
    ap (λ z. has_mask z game_started_sys_flag)
      (sys_flags-with_flags l _ (and_not_mask-Fits 19 _ (omega arith) (sys_flags-Fits l.request)))
    ∙ has_mask-and_not_mask 19 (sys_flags l.request)

-- And set in the one with the set flags.
pub flag_set :
    (l : LocalLobby)
    → has_mask
        (sys_flags (with_flags l (or_mask (sys_flags l.request) game_started_sys_flag)).request)
        game_started_sys_flag
      ≡ true
flag_set l =
    ap (λ z. has_mask z game_started_sys_flag)
      (sys_flags-with_flags l _ (or_mask-Fits 19 _ (omega arith) (sys_flags-Fits l.request)))
    ∙ has_mask-or_mask 19 (sys_flags l.request)
