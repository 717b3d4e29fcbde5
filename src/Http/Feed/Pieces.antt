-- ===== src/Http/Feed/Pieces.antt =====
-- A request that reaches `http_parse_feed` of src/http/http_parse_dfa.c in pieces of any size.
pub mod Split
pub mod Waiting
pub mod States
pub mod Enter
pub mod Pause
pub mod Finish
use litehttp_c.Base.{
  ℕ, ◌+◌, ◌<◌, ◌≡◌, refl, sym, ◌∙◌, ap, inl, List, [], ◌∷◌, ◌++◌, some, Bytes, length, arith,
  append-nil, length-append,
}
use litehttp_c.Util.ErrorCode.{HttpErr, http_success}
use litehttp_c.Util.Text.{concat}
use litehttp_c.Http.ParseCtx.{HttpParseCtx, fresh_ctx, Build, Mem}
use litehttp_c.Http.Feed.{http_parse_feed}
use litehttp_c.Http.Feed.Message.{message_text, message_of, IsMessage, Granted}
use Waiting.{AsksForMore}
use States.{Waits, waits_request}
use Pause.{piece_pause}
use Finish.{Assembled, piece_finish}

-- A node is fed the pieces one after the other, each to the node that the one before it left, and each
-- but the last is answered by a code that asks for more.
pub data Fed (build : Build) (mem : Mem)
    : HttpParseCtx → List Bytes → HttpParseCtx → HttpErr → Type 0 where
  last :
      {c d : HttpParseCtx} {piece : Bytes} {e : HttpErr}
      → http_parse_feed build mem c piece ≡ some (d ∷ [], e)
      → Fed build mem c (piece ∷ []) d e
  more :
      {c next d : HttpParseCtx} {piece : Bytes} {pieces : List Bytes} {asked e : HttpErr}
      → http_parse_feed build mem c piece ≡ some (next ∷ [], asked)
      → AsksForMore asked
      → Fed build mem next pieces d e
      → Fed build mem c (piece ∷ pieces) d e

abbrev pub AreFilled : List Bytes → Type 0
AreFilled [] = Unit {0}
AreFilled (piece ∷ pieces) = (0 < length piece) × AreFilled pieces

module _ (build : Build) (mem : Mem) (method path version : Bytes) (fields : List (Bytes × Bytes))
    (body : Bytes) (good : IsMessage method path version fields body) (granted : Granted mem) where
  feed_from :
      (c : HttpParseCtx) (piece : Bytes) (pieces : List Bytes)
      → AreFilled pieces
      → Waits method path version fields body (piece ++ concat pieces) c
      → (d : HttpParseCtx) × Fed build mem c (piece ∷ pieces) d http_success
        × Assembled
            (message_text method path version fields body)
            (message_of method path version fields body)
            d
  feed_from c piece [] filled w =
      let w' : Waits method path version fields body piece c = rw (← append-nil piece) w in
      let (d, e, done) =
        piece_finish method path version fields body build mem good granted c piece w' in
      (d, last e, done)
  feed_from c piece (next ∷ pieces) filled w =
      let (m, asked, e, why, w') =
        piece_pause method path version fields body build mem good granted c piece
          (next ++ concat pieces) (omega (arith, filled.0, length-append next (concat pieces))) w in
      let (d, f, done) = feed_from m next pieces filled.1 w' in (d, more e why f, done)

  -- However a request with fewer than 99 fields and the body that they announce is cut into pieces,
  -- feeding the pieces one after the other to a new node asks for more after each piece but the last,
  -- and then gives one finished request at the end of the whole text: its method, version, path and body
  -- are those of the message, and so are its headers' fields and the numbers read from their values.
  -- What the views of the headers read is left open, since a later piece may move the text that
  -- they point into. It holds in either build, with no empty piece behind the first, when the memory
  -- is granted and a string can hold the text.
  pub http_parse_feed_pieces :
      (piece : Bytes) (pieces : List Bytes)
      → AreFilled pieces
      → piece ++ concat pieces ≡ message_text method path version fields body
      → (d : HttpParseCtx) × Fed build mem fresh_ctx (piece ∷ pieces) d http_success
        × Assembled
            (message_text method path version fields body)
            (message_of method path version fields body)
            d
  http_parse_feed_pieces piece pieces filled e =
      feed_from fresh_ctx piece pieces filled
        (waits_request (record { state_is = inl refl; fresh_is = refl; text_is = e }))
