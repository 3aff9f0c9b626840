-- ===== src/Handlers/Handle.antt =====
-- bpserver/handlers.go: what `handleConnection` does with a frame.
pub mod Growth
pub mod Verdicts
pub mod Actions
pub mod Calls
pub mod Effects
pub mod Reply
use burnout_paradise_server.Common.{[], ◌∷◌, Option, none, some, codes}
use burnout_paradise_server.Net.{Net}
use burnout_paradise_server.Easo.Frame.{Frame}
use burnout_paradise_server.Lobby.Notify.{Wire, frame_of}
use burnout_paradise_server.Handlers.{
  State, Request, request_of, offer, ticket, directory, addr, skey, news, sele, auth, acct, pers,
  fget, usld, slst, rent, rrlc, rrgt, rrup, gpsc, gqwk, gjoi, gsea, fupr, rank, rvup, gset, gsta,
  hchk, png,
}
use burnout_paradise_server.Handlers.Writes.{Outcome, done, send}
use burnout_paradise_server.Handlers.Cases.{
  on_addr, on_pers, on_offer, on_directory, on_skey, on_news, on_sele, on_auth, on_acct, on_fget,
  on_usld, on_slst, on_rent, on_rrlc, on_rrgt, on_rrup, on_gpsc, on_join, on_gsea, on_fupr, on_rank,
  on_rvup, on_gset, on_gsta, on_hchk,
}

module _ (net : Net) (wire : Wire) where
  -- The switch over the type of a frame.
  unfoldable pub handle_request : Request → State → Frame → Outcome
  unfolding on_addr on_pers on_offer on_directory on_skey on_news on_sele on_auth on_acct on_fget
      on_usld on_slst on_rent on_rrlc on_rrgt on_rrup on_gpsc on_join on_gsea on_fupr on_rank
      on_rvup on_gset on_gsta on_hchk
  handle_request offer st frame = on_offer net wire st frame
  handle_request ticket st frame = done net wire st
  handle_request directory st frame = on_directory net wire st frame
  handle_request addr st frame = done net wire (on_addr net wire st frame.payload)
  handle_request skey st frame = on_skey net wire st frame
  handle_request news st frame = on_news net wire st frame
  handle_request sele st frame = on_sele net wire st frame
  handle_request auth st frame = on_auth net wire st frame
  handle_request acct st frame = on_acct net wire st frame
  handle_request pers st frame = on_pers net wire st frame
  handle_request fget st frame = on_fget net wire st frame
  handle_request usld st frame = on_usld net wire st frame
  handle_request slst st frame = on_slst net wire st frame
  handle_request rent st frame = on_rent net wire st frame
  handle_request rrlc st frame = on_rrlc net wire st frame
  handle_request rrgt st frame = on_rrgt net wire st frame
  handle_request rrup st frame = on_rrup net wire st frame
  handle_request gpsc st frame = on_gpsc net wire st frame
  handle_request gqwk st frame = on_join net wire (codes "gqwk") st frame
  handle_request gjoi st frame = on_join net wire (codes "gjoi") st frame
  handle_request gsea st frame = on_gsea net wire st frame
  handle_request fupr st frame = on_fupr net wire st frame
  handle_request rank st frame = on_rank net wire st frame
  handle_request rvup st frame = on_rvup net wire st frame
  handle_request gset st frame = on_gset net wire st frame
  handle_request gsta st frame = on_gsta net wire st frame
  handle_request hchk st frame = on_hchk net wire st frame
  handle_request png st frame = done net wire st

  unfoldable pub dispatch : Option Request → State → Frame → Outcome
  unfolding handle_request
  dispatch none st frame = done net wire st
  dispatch (some r) st frame = handle_request r st frame

  -- One round of the loop over frames.
  unfoldable pub handle : State → Frame → Outcome
  unfolding dispatch
  handle st frame = dispatch (request_of frame.kind) st frame

  -- `~png` on a tick: an error closes the connection.
  unfoldable pub keepalive_tick : State → Outcome
  unfolding send
  keepalive_tick st = send net wire st (frame_of (codes "~png") (0 ∷ [])) (done net wire)
