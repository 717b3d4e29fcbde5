-- ===== src/Http/Resource/Cache.antt =====
-- What a client of src/http/resource_getter.c gets, request after request.
use litehttp_c.Base.{
  ◌+◌, ◌-◌, ◌^◌, ◌<◌, ◌≡◌, ◌≢◌, refl, ◌∙◌, Bool, true, false, List, [], ◌∷◌, none, some, Bytes,
  length, take, get_or, arith, ltb, inl, take_all,
}
use litehttp_c.Util.ErrorCode.{HttpErr, http_success, http_err_pthread_mutex_destroy}
use litehttp_c.Util.StringView.{StringView, view, string_view_to_buf, string_view_equal}
use litehttp_c.Util.StringView.Compare.{NulFree, string_view_equal_iff}
use litehttp_c.Util.StringView.Buffer.{string_view_to_buf-Holds}
use litehttp_c.Http.HdrValue.Scanning.{c_string}
use litehttp_c.Http.ParseCtx.{Build, debug}
use litehttp_c.Http.ParseCtx.Tokens.{check-true}
use litehttp_c.Http.Resource.{
  MappedMemory, no_memory, freed, resource_getter_release, KHash, TableState, live, Opened,
  opened_result, open_resource, Calls, PutRet, put_failed, key_present, key_new, is_failed,
  is_present, get_resource_cached, get_resource_refreshed, get_resource_lazy, read_resource,
}

c_string_held :
    (bs b : Bytes)
    → NulFree bs
    → take (length bs) b ≡ bs
    → get_or b (length bs) 1 ≡ 0
    → c_string b ≡ bs
c_string_held [] [] f p z = refl
c_string_held [] (y ∷ ys) f p z = ground arith
c_string_held (x ∷ xs) [] f p z = ground arith
c_string_held (x ∷ xs) (y ∷ ys) f p z =
    let q : (y ≡ x) × (take (length xs) ys ≡ xs) = ground arith in
    let rest = c_string_held xs ys f.1 q.1 z in ground arith

-- For a path with no NUL byte, `open_resource` asks the file system for exactly that path, and passes
-- on what it answers.
pub open_resource_lem :
    (files : Bytes → Opened) (buf path : Bytes)
    → NulFree path
    → length buf ≡ length path + 1
    → open_resource files buf (view path) ≡ some (opened_result (files path))
unfolding open_resource
open_resource_lem files buf path f room =
    let (b, e, held) = string_view_to_buf-Holds path buf (inl (omega arith)) in
    let whole = take_all (length buf - 1) path (omega arith) in
    let text = c_string_held path b f (rw (← whole) held.0) (rw (← whole) held.1) in
    let e' : string_view_to_buf (view path) buf (length path + 1)
        ≡ some (b, ltb (length path) (length buf)) =
      rw (← room) e in
    rw (e', text) refl

pub equal_self :
    (path : Bytes)
    → NulFree path
    → length path < 2 ^ 31
    → string_view_equal (view path) (view path) ≡ true
equal_self path f h = (string_view_equal_iff path path f h h).1 refl

module _ (H : KHash) where
  -- A cached request for a path that the table holds leaves the table and `*res` as they are: it
  -- does not hand the stored memory to the caller, and yet it succeeds when the mutex does.
  pub cached_hit :
      (build : Build) (calls : Calls H.Table) (t : H.Table) (path : StringView)
      (res m : MappedMemory)
      → H.get t path ≡ some m
      → calls.lock_ok ≡ true
      → calls.unlock_ok ≡ true
      → get_resource_cached H build calls (live t) path res ≡ some (live t, res, http_success)
  unfolding get_resource_cached get_resource_lazy
  cached_hit build calls t path res m found locked unlocked = simp (found, locked, unlocked)

  -- What a call needs of its mutex, of the other threads and of its buffer to read a file.
  pub record Reads (calls : Calls H.Table) (t : H.Table) (path : Bytes) : Type 0 where
    pub first_lock : calls.lock_ok ≡ true
    pub first_unlock : calls.unlock_to_open_ok ≡ true
    pub second_lock : calls.lock_again_ok ≡ true
    pub last_unlock : calls.unlock_ok ≡ true
    pub room : length calls.path_buf ≡ length path + 1
    pub nul_free : NulFree path
    pub nobody_put : H.get (calls.meanwhile t) (view path) ≡ none
    pub put_room : H.put_ret (calls.meanwhile t) (view path) ≢ put_failed

  pub not_failed : (r : PutRet) → r ≢ put_failed → is_failed r ≡ false
  not_failed put_failed n = absurd (n refl)
  not_failed key_present n = refl
  not_failed key_new n = refl

  pub not_present : (r : PutRet) → r ≢ key_present → is_present r ≡ false
  not_present put_failed n = refl
  not_present key_present n = absurd (n refl)
  not_present key_new n = refl

  read_new :
      (build : Build) (calls : Calls H.Table) (t : H.Table) (path : Bytes) (res : MappedMemory)
      → Reads calls t path
      → read_resource H build calls t (view path) res
        ≡ some (
          live (H.put (calls.meanwhile t) (view path) (opened_result (calls.files path)).0),
          (opened_result (calls.files path)).0,
          http_success,
        )
  unfolding read_resource
  read_new build calls t path res r =
      let opened = open_resource_lem calls.files calls.path_buf path r.nul_free r.room in
      let nf = not_failed (H.put_ret (calls.meanwhile t) (view path)) r.put_room in
      let np =
        not_present (H.put_ret (calls.meanwhile t) (view path))
          (H.put_ret_new (calls.meanwhile t) (view path) r.nobody_put) in
      simp (r.first_unlock, opened, r.second_lock, nf, np, r.last_unlock, check-true build)

  -- A first cached request for a path that nobody has read succeeds whatever the file system answers,
  -- a file that cannot be opened included, and gives the memory that `open_resource` left; the same
  -- request again succeeds with the empty view that the caller started from. The path has no NUL byte
  -- and is shorter than 2^31, the mutex calls succeed, and the table has room.
  pub second_request_empty :
      (build : Build) (calls calls' : Calls H.Table) (t : H.Table) (path : Bytes)
      → H.get t (view path) ≡ none
      → Reads calls t path
      → length path < 2 ^ 31
      → calls'.lock_ok ≡ true
      → calls'.unlock_ok ≡ true
      → (t1 : H.Table) × (get_resource_cached H build calls (live t) (view path) no_memory
          ≡ some (live t1, (opened_result (calls.files path)).0, http_success))
        × (get_resource_cached H build calls' (live t1) (view path) no_memory
            ≡ some (live t1, no_memory, http_success))
  unfolding get_resource_cached get_resource_lazy
  second_request_empty build calls calls' t path new r short locked unlocked =
      let m = (opened_result (calls.files path)).0 in
      let t1 = H.put (calls.meanwhile t) (view path) m in
      let stored : H.get t1 (view path) ≡ some m =
        H.get_put (calls.meanwhile t) (view path) (view path) m r.put_room
        ∙ simp (equal_self path r.nul_free short) in
      let reads = read_new build calls t path no_memory r in
      (
        t1,
        simp (r.first_lock, new, reads),
        cached_hit build calls' t1 (view path) no_memory m stored locked unlocked,
      )

  -- In a build with assertions, a refreshing request for a path that the table still holds when the
  -- file has been read stops the program. The path has no NUL byte, and the mutex calls up to there
  -- succeed.
  pub refreshed_present :
      (calls : Calls H.Table) (t : H.Table) (path : Bytes) (res m m' : MappedMemory)
      → H.get t (view path) ≡ some m
      → H.get (calls.meanwhile t) (view path) ≡ some m'
      → calls.lock_ok ≡ true
      → calls.unlock_to_open_ok ≡ true
      → calls.lock_again_ok ≡ true
      → length calls.path_buf ≡ length path + 1
      → NulFree path
      → get_resource_refreshed H debug calls (live t) (view path) res ≡ none
  unfolding get_resource_refreshed get_resource_lazy read_resource
  refreshed_present calls t path res m m' here still locked unlocked again room f =
      let opened = open_resource_lem calls.files calls.path_buf path f room in
      let p = H.put_ret_present (calls.meanwhile t) (view path) m' still in
      simp (locked, here, unlocked, opened, again, p)

  -- When the mutex cannot be destroyed, a release leaves `table` pointing to freed memory: the next
  -- request, cached or refreshing, and the next release are faults.
  pub release_dangling :
      (build : Build) (calls : Calls H.Table) (t : H.Table) (path : StringView) (res : MappedMemory)
      (flush ok : Bool)
      → (s : TableState H.Table) × (ms : List MappedMemory) × (e : HttpErr)
        × (resource_getter_release H false (live t) ≡ some (s, ms, e))
        × (get_resource_lazy H build calls s path res flush ≡ none)
        × (resource_getter_release H ok s ≡ none)
  unfolding resource_getter_release get_resource_lazy
  release_dangling build calls t path res flush ok =
      (freed, H.values t, http_err_pthread_mutex_destroy, refl, refl, refl)
