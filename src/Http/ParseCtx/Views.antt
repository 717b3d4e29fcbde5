-- ===== src/Http/ParseCtx/Views.antt =====
-- The views into `post` that a node of src/http/http_parse_ctx_internal.h holds. An append to `post` may
-- move its block (util/string_t.c), and then the views that were made before read whatever stands in
-- the old place; only an empty view reads nothing.
use litehttp_c.Base.{◌≡◌, Bool, List, [], ◌∷◌, ◌++◌, Bytes, ℕ, refl, ap, ◌∙◌}
use litehttp_c.Util.StringView.{StringView, null, view}
use litehttp_c.Http.Types.{HttpHeaderField}
use litehttp_c.Http.HdrValue.{HttpHeader}
use litehttp_c.Http.Request.{HttpRequest}
use litehttp_c.Http.ParseCtx.{HttpParseCtx}

module _ (reads : Bytes → Bytes) where
  abbrev pub stale : Bytes → Bytes
  stale [] = []
  stale (b ∷ bs) = reads (b ∷ bs)

  abbrev pub stale_view : StringView → StringView
  stale_view null = null
  stale_view (view bs) = view (stale bs)

  abbrev pub stale_header : HttpHeader → HttpHeader
  stale_header h = record h {
    name = stale_view h.name;
    value = record h.value { value_sv = stale_view h.value.value_sv };
  }

  abbrev pub stale_lines : List Bytes → List Bytes
  stale_lines [] = []
  stale_lines (l ∷ ls) = stale l ∷ stale_lines ls

  abbrev pub stale_headers : List HttpHeader → List HttpHeader
  stale_headers [] = []
  stale_headers (h ∷ hs) = stale_header h ∷ stale_headers hs

  abbrev pub stale_request : HttpRequest → HttpRequest
  stale_request request = record request { header_list = stale_headers request.header_list }

  abbrev pub moved_ctx : HttpParseCtx → HttpParseCtx
  moved_ctx ctx = record ctx {
    request_line = stale ctx.request_line;
    header_list = stale_lines ctx.header_list;
    body_view = stale ctx.body_view;
    http_request = stale_request ctx.http_request;
  }

-- A header without its views: the field, and what was read from the value.
abbrev pub header_kind : HttpHeader → HttpHeaderField × Bool × ℕ
header_kind h = (h.field, h.value.has_parsed_type, h.value.word)

abbrev pub header_kinds : List HttpHeader → List (HttpHeaderField × Bool × ℕ)
header_kinds [] = []
header_kinds (h ∷ hs) = header_kind h ∷ header_kinds hs

-- Requests that differ at most in what the views of their headers read.
pub record Like (r t : HttpRequest) : Type 0 where
  pub method_is : r.method ≡ t.method
  pub path_is : r.path ≡ t.path
  pub version_is : r.version ≡ t.version
  pub body_is : r.body ≡ t.body
  pub kinds_are : header_kinds r.header_list ≡ header_kinds t.header_list

header_kinds-stale :
    (reads : Bytes → Bytes) (hs : List HttpHeader)
    → header_kinds (stale_headers reads hs) ≡ header_kinds hs
header_kinds-stale reads [] = refl
header_kinds-stale reads (h ∷ hs) = ap (◌∷◌ (header_kind h)) (header_kinds-stale reads hs)

pub stale-Like :
    (reads : Bytes → Bytes) (r t : HttpRequest) → Like r t → Like (stale_request reads r) t
stale-Like reads r t l = record {
  method_is = l.method_is;
  path_is = l.path_is;
  version_is = l.version_is;
  body_is = l.body_is;
  kinds_are = header_kinds-stale reads r.header_list ∙ l.kinds_are;
}

pub header_kinds-append :
    (hs more : List HttpHeader) → header_kinds (hs ++ more) ≡ header_kinds hs ++ header_kinds more
header_kinds-append [] more = refl
header_kinds-append (h ∷ hs) more = ap (◌∷◌ (header_kind h)) (header_kinds-append hs more)

pub same-Like : (r t : HttpRequest) → r ≡ t → Like r t
same-Like r t e = record {
  method_is = ap (λ q. q.method) e;
  path_is = ap (λ q. q.path) e;
  version_is = ap (λ q. q.version) e;
  body_is = ap (λ q. q.body) e;
  kinds_are = ap (λ q. header_kinds q.header_list) e;
}

pub Like-trans : (r s t : HttpRequest) → Like r s → Like s t → Like r t
Like-trans r s t l k = record {
  method_is = l.method_is ∙ k.method_is;
  path_is = l.path_is ∙ k.path_is;
  version_is = l.version_is ∙ k.version_is;
  body_is = l.body_is ∙ k.body_is;
  kinds_are = l.kinds_are ∙ k.kinds_are;
}
