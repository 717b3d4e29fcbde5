-- ===== src/Tests/Resources.antt =====
-- Threads that share the cache of src/http/resource_getter.c.
use litehttp_c.Base.{◌≡◌, refl, false, [], some, Bytes, codes, replicate, arith}
use litehttp_c.Util.ErrorCode.{http_success}
use litehttp_c.Util.StringView.{view}
use litehttp_c.Http.ParseCtx.{debug}
use litehttp_c.Http.Resource.{Opened, maps, mapped, MappedMemory, open_resource}
use litehttp_c.Http.Resource.Cache.{open_resource_lem}
use litehttp_c.Http.Resource.Threads.{Threads, Reach, at_rest}
use litehttp_c.Http.Resource.Threads.Safety.{Inv, Reach-Inv}
use litehttp_c.Http.Resource.Threads.Race.{race_stops}
use litehttp_c.Tests.Answers.{table}

-- Every file has this text.
abbrev files : Bytes → Opened
files path = maps (codes "hi")

abbrev hi : MappedMemory
hi = record { len = 2; data_ptr = mapped (codes "hi") }

opened_hi :
    open_resource files (replicate 3 170) (view (codes "/a")) ≡ some (hi, http_success, false)
opened_hi = open_resource_lem files (replicate 3 170) (codes "/a") (ground arith) refl

raced : (s : Threads table) × Reach table debug files (at_rest table []) s × (s.running ≡ false)
raced =
    race_stops table files [] (codes "/a") (replicate 3 170) hi http_success false refl
      (ground arith) opened_hi (ground arith) (omega arith)

Reach-Inv_example : Inv table files raced.0
Reach-Inv_example = Reach-Inv table files debug raced.0 raced.1
