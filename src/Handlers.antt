-- ===== src/Handlers.antt =====
-- bpserver/handlers.go: the state of a connection, and the requests that it answers.
pub mod Replies
pub mod Writes
pub mod Games
pub mod Cases
pub mod Handle
pub mod World
use burnout_paradise_server.Common.{
  List, [], ◌∷◌, Bool, true, false, Option, none, some, Bytes, codes, bytes_eq, if◌then◌else◌,
}
use burnout_paradise_server.Types.{Server, Ptr}
use burnout_paradise_server.Lobby.Notify.{Sent}

-- The variables of `handleConnection`. `self` is the connection's client; a directory connection has one
-- as the address that its frames go to, and only a service connection has it in the server's store.
pub record Session : Type 0 where
  pub self : Ptr
  pub is_service : Bool
  pub remote : Option Bytes
  pub game_create_request : Bytes
  pub persona_name : Bytes
  pub client_address : Bytes
  pub keepalive : Bool

-- What a handler works on: its own variables, the shared server, and the frames that were sent so far.
pub record State : Type 0 where
  pub session : Session
  pub server : Server
  pub log : List Sent

-- How a handler ends: the loop goes on, the function returns, or the process ends.
pub data Verdict : Type 0 where
  goes_on hangs_up panics : Verdict

-- The cases of the switch on the type of a frame, but the default.
pub data Request : Type 0 where
  offer ticket directory addr skey news sele auth acct pers : Request
  fget usld slst rent rrlc rrgt rrup gpsc gqwk gjoi gsea : Request
  fupr rank rvup gset gsta hchk png : Request

abbrev pub kind_of : Request → Bytes
kind_of offer = codes "@tic"
kind_of ticket = codes "?tic"
kind_of directory = codes "@dir"
kind_of addr = codes "addr"
kind_of skey = codes "skey"
kind_of news = codes "news"
kind_of sele = codes "sele"
kind_of auth = codes "auth"
kind_of acct = codes "acct"
kind_of pers = codes "pers"
kind_of fget = codes "fget"
kind_of usld = codes "usld"
kind_of slst = codes "slst"
kind_of rent = codes "rent"
kind_of rrlc = codes "rrlc"
kind_of rrgt = codes "rrgt"
kind_of rrup = codes "rrup"
kind_of gpsc = codes "gpsc"
kind_of gqwk = codes "gqwk"
kind_of gjoi = codes "gjoi"
kind_of gsea = codes "gsea"
kind_of fupr = codes "fupr"
kind_of rank = codes "rank"
kind_of rvup = codes "rvup"
kind_of gset = codes "gset"
kind_of gsta = codes "gsta"
kind_of hchk = codes "hchk"
kind_of png = codes "~png"

abbrev requests : List Request
requests =
    offer ∷ ticket ∷ directory ∷ addr ∷ skey ∷ news ∷ sele ∷ auth ∷ acct ∷ pers ∷ fget ∷ usld ∷ slst
    ∷ rent ∷ rrlc ∷ rrgt ∷ rrup ∷ gpsc ∷ gqwk ∷ gjoi ∷ gsea ∷ fupr ∷ rank ∷ rvup ∷ gset ∷ gsta
    ∷ hchk ∷ png ∷ []

unfoldable pub find_request : Bytes → List Request → Option Request
find_request kind [] = none
find_request kind (r ∷ rs) =
    let rest = find_request kind rs in if bytes_eq (kind_of r) kind then some r else rest

-- `none` is the default.
unfoldable pub request_of : Bytes → Option Request
unfolding find_request
request_of kind = find_request kind requests
