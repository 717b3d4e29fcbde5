-- ===== src/Core/Client/Delivery.antt =====
-- A request that reaches src/core/client.c over several events, and the answer to it.
use litehttp_c.Base.{◌<◌, ◌≡◌, Bool, List, [], ◌∷◌, ◌++◌, some, Bytes, length}
use litehttp_c.Util.ErrorCode.{HttpErr}
use litehttp_c.Util.Text.{Text, concat}
use litehttp_c.Http.ParseCtx.{Build, Mem}
use litehttp_c.Core.Server.{ClientData}
use litehttp_c.Core.Client.{Backend, read_would_block, handle_client_fd}
use litehttp_c.Core.Client.Events.{kept}
use litehttp_c.Core.Client.Reads.{delivering}

-- Events of one client that keep it, each with the pieces that its reads deliver. The last list is of
-- what they send.
pub data Events (T : Text) (B : Backend) (build : Build) (mem : Mem)
    : B.State
      → ClientData T.Str
      → List (List Bytes)
      → B.State
      → ClientData T.Str
      → List Bytes
      → Type 0 where
  done : {s : B.State} {client : ClientData T.Str} → Events T B build mem s client [] s client []
  event :
      {s s1 s2 : B.State} {client client1 client2 : ClientData T.Str} {pieces : List Bytes}
      {events : List (List Bytes)} {sent sent' : List Bytes} {result : HttpErr} (del_ok : Bool)
      → handle_client_fd T B build mem s client (delivering pieces (read_would_block ∷ [])) del_ok
        ≡ some (kept B T s1 client1 sent result)
      → Events T B build mem s1 client1 events s2 client2 sent'
      → Events T B build mem s client (pieces ∷ events) s2 client2 (sent ++ sent')

-- Each event has data.
abbrev pub HaveData : List (List Bytes) → Type 0
HaveData [] = Unit {0}
HaveData (pieces ∷ events) = (0 < length (concat pieces)) × HaveData events

abbrev pub all_data : List (List Bytes) → Bytes
all_data [] = []
all_data (pieces ∷ events) = concat pieces ++ all_data events
