-- ===== src/Tests/Answers.antt =====
-- Runs of the responses, the resources and the dispatcher.
use litehttp_c.Base.{
  ℕ, ◌≡◌, ◌≢◌, refl, true, false, List, [], ◌∷◌, Option, none, some, Bytes, codes, take, replicate,
  arith, if◌then◌else◌,
}
use litehttp_c.Util.ErrorCode.{HttpErr, http_success}
use litehttp_c.Util.StringView.{
  StringView, null, view, string_view_equal, string_view_compare, strncmp,
}
use litehttp_c.Util.Text.{Text, string_text}
use litehttp_c.Http.Types.{http_get_version_sv, http_get_header_field_sv}
use litehttp_c.Http.ParseCtx.{debug}
use litehttp_c.Http.Request.{HttpRequest, fresh_request}
use litehttp_c.Http.Response.{HttpResponse, http_response_to_string}
use litehttp_c.Http.Response.Render.{http_response_to_string_lem}
use litehttp_c.Http.Resource.{
  MappedMemory, no_memory, mapped, PutRet, key_present, key_new, KHash, TableState, live, Opened,
  open_fails, maps, Calls, get_resource_cached, get_resource_refreshed, get_resource_lazy,
  resource_getter_release,
}
use litehttp_c.Http.Resource.Cache.{second_request_empty, refreshed_present, release_dangling}
use litehttp_c.Core.SocketUtil.{get_absolue_path, get_absolue_path_lem}
use litehttp_c.Core.Dispatch.{GetCalls, handle_http_request}
use litehttp_c.Core.Dispatch.Get.{Granted, ok_response, get_twice}

abbrev pub junk : ℕ → ℕ
junk i = 170

abbrev pub strings : Text
strings = string_text junk

-- A table as a list of its keys and values.
abbrev pub Table : Type 0
Table = List (StringView × MappedMemory)

abbrev pub lookup : Table → StringView → Option MappedMemory
lookup [] k = none
lookup ((k', m) ∷ t) k = if string_view_equal k' k then some m else lookup t k

abbrev pub ret_of : Option MappedMemory → PutRet
ret_of none = key_new
ret_of (some m) = key_present

pub ret_present : (r : Option MappedMemory) (m : MappedMemory) → r ≡ some m → ret_of r ≡ key_present
ret_present r m e = rw e refl

pub ret_new : (r : Option MappedMemory) → r ≡ none → ret_of r ≢ key_present
ret_new none e = ground arith
ret_new (some m) e = ground arith

abbrev pub values_of : Table → List MappedMemory
values_of [] = []
values_of ((k, m) ∷ t) = m ∷ values_of t

abbrev pub table : KHash
table = record {
  Table = Table;
  empty = [];
  get = lookup;
  put = λ t k m. (k, m) ∷ t;
  put_ret = λ t k. ret_of (lookup t k);
  values = values_of;
  get_empty = λ k. refl;
  get_put = λ t k k' m ok. refl;
  put_ret_present = λ t k m e. ret_present (lookup t k) m e;
  put_ret_new = λ t k e. ret_new (lookup t k) e;
}

abbrev response : HttpResponse
response = ok_response (codes "5") (view (codes "hello"))

http_response_to_string_lem_example :
    (post : strings.Str) × (http_response_to_string strings response ≡ some (post, http_success))
    × strings.Valid post
    × (strings.text post
        ≡ codes
            "HTTP/1.0 200 OK\r\nContent-Type: text/html; charset=UTF-8\r\nContent-Length: 5\r\n\r\nhello\r\n")
unfolding http_get_version_sv http_get_header_field_sv
http_response_to_string_lem_example =
    http_response_to_string_lem strings response 200 (ground arith) refl (omega arith) (omega arith)
      (omega arith)

absolue_path_test :
    (path : strings.Str) × (get_absolue_path strings
        (some (codes "/srv"))
        true
        (codes "html")
        (codes "index.html")
      ≡ some (some path, http_success))
    × strings.Valid path
    × (strings.text path ≡ codes "/srv/html/index.html")
absolue_path_test =
    get_absolue_path_lem strings (codes "/srv") (codes "html") (codes "index.html") (omega arith)

abbrev pub reading : Opened → ℕ → Calls Table
reading opened n = record {
  lock_ok = true;
  unlock_to_open_ok = true;
  lock_again_ok = true;
  unlock_ok = true;
  files = λ path. opened;
  path_buf = replicate n 170;
  meanwhile = λ t. t;
}

second_request_empty_example :
    (t1 : Table) × (get_resource_cached table debug
        (reading (maps (codes "hi")) 3)
        (live [])
        (view (codes "/a"))
        no_memory
      ≡ some (live t1, record { len = 2; data_ptr = mapped (codes "hi") }, http_success))
    × (get_resource_cached table debug
          (reading open_fails 3)
          (live t1)
          (view (codes "/a"))
          no_memory
        ≡ some (live t1, no_memory, http_success))
second_request_empty_example =
    second_request_empty table debug (reading (maps (codes "hi")) 3) (reading open_fails 3) []
      (codes "/a") refl
      (record {
        first_lock = refl;
        first_unlock = refl;
        second_lock = refl;
        last_unlock = refl;
        room = refl;
        nul_free = ground arith;
        nobody_put = refl;
        put_room = ground arith;
      })
      (omega arith) refl refl

abbrev cached : Table
cached = (view (codes "/a"), no_memory) ∷ []

cached_get : lookup cached (view (codes "/a")) ≡ some no_memory
unfolding string_view_equal string_view_compare strncmp
cached_get = refl

refreshed_test :
    get_resource_refreshed table debug
      (reading open_fails 3)
      (live cached)
      (view (codes "/a"))
      no_memory
    ≡ none
refreshed_test =
    refreshed_present table (reading open_fails 3) cached (codes "/a") no_memory no_memory no_memory
      cached_get cached_get refl refl refl refl (ground arith)

release_dangling_test :
    (s : TableState Table) × (ms : List MappedMemory) × (e : HttpErr) × (resource_getter_release
        table false
        (live cached)
      ≡ some (s, ms, e))
    × (get_resource_lazy table debug (reading open_fails 3) s (view (codes "/a")) no_memory false
        ≡ none)
    × (resource_getter_release table true s ≡ none)
release_dangling_test =
    release_dangling table debug (reading open_fails 3) cached (view (codes "/a")) no_memory false
      true

abbrev pub request : HttpRequest
request = record fresh_request { path = codes "a" }

abbrev pub getting : Opened → Bytes → GetCalls Table
getting opened later = record {
  cwd = some (codes "/s");
  path_memory = true;
  resource = reading opened 7;
  response_memory = true;
  list_memory = true;
  push_type = true;
  push_length = true;
  numbuf_later = later;
}

pub getting-Granted :
    (opened : Opened) (later : Bytes) → Granted (getting opened later) (codes "/s")
getting-Granted opened later = record {
  cwd_is = refl;
  path_granted = refl;
  response_granted = refl;
  list_granted = refl;
  type_granted = refl;
  length_granted = refl;
}

-- The dead buffer still holds the length the first time, and something else the second time.
get_twice_example :
    (t1 : Table) × (handle_http_request strings table debug
        (getting (maps (codes "hello")) (codes "5"))
        (codes "h")
        (live [])
        request
      ≡ some
          (live t1, some (ok_response (take 1 (codes "5")) (view (codes "hello"))), http_success))
    × (handle_http_request strings table debug
          (getting open_fails (codes "?"))
          (codes "h")
          (live t1)
          request
        ≡ some (live t1, some (ok_response (take 1 (codes "?")) null), http_success))
unfolding litehttp_c.Util.StringT.Decimal.digits_onto
get_twice_example =
    get_twice strings table debug (codes "h") (codes "/s")
      (getting (maps (codes "hello")) (codes "5")) (getting open_fails (codes "?")) [] request
      (view (codes "hello")) (getting-Granted (maps (codes "hello")) (codes "5"))
      (getting-Granted open_fails (codes "?")) refl (omega arith) refl
      (record {
        first_lock = refl;
        first_unlock = refl;
        second_lock = refl;
        last_unlock = refl;
        room = refl;
        nul_free = ground arith;
        nobody_put = refl;
        put_room = ground arith;
      })
      refl refl refl
