-- ===== src/Http/Resource.antt =====
-- src/http/resource_getter.c: the cache of mapped files. The hash table of klib, the file system and
-- the outcomes of the mutex calls are arguments; between unlocking and locking again other threads may
-- change the table. `none` is a fault.
pub mod Cache
pub mod Threads
use litehttp_c.Base.{
  ℕ, ◌+◌, ◌≡◌, ◌≢◌, Bool, true, false, not, ◌&&◌, List, [], Option, none, some, Bytes, length,
  if◌then◌else◌, ◌>>=◌, ◌>>◌, Alloc,
}
use litehttp_c.Util.ErrorCode.{
  HttpErr, http_success, http_err_malloc, http_err_open, http_err_fstat, http_err_mmap,
  http_err_pthread_mutex_init, http_err_pthread_mutex_destroy, http_err_pthread_mutex_lock,
  http_err_pthread_mutex_unlock, http_err_hash_uninitialized,
}
use litehttp_c.Util.StringView.{StringView, string_view_len, string_view_to_buf, string_view_equal}
use litehttp_c.Http.HdrValue.Scanning.{c_string}
use litehttp_c.Http.ParseCtx.{Build, check}

-- A pointer to mapped memory: null, `MAP_FAILED`, or the bytes of a file.
pub data MapData : Type 0 where
  null_data map_failed : MapData
  mapped : Bytes → MapData

pub record MappedMemory : Type 0 where
  pub len : ℕ
  pub data_ptr : MapData

abbrev pub no_memory : MappedMemory
no_memory = record { len = 0; data_ptr = null_data }

-- What `kh_put` reports: no room, a key that was there, or a new key.
pub data PutRet : Type 0 where
  put_failed key_present key_new : PutRet

abbrev pub is_present : PutRet → Bool
is_present key_present = true
is_present _ = false

abbrev pub is_failed : PutRet → Bool
is_failed put_failed = true
is_failed _ = false

-- `khash_t(path2resmem)`: `put` is `kh_put` and the store to the slot it gives. Keys are compared by
-- `string_view_equal`.
pub record KHash : Type 1 where
  pub Table : Type 0
  pub empty : Table
  pub get : Table → StringView → Option MappedMemory
  pub put : Table → StringView → MappedMemory → Table
  pub put_ret : Table → StringView → PutRet
  pub values : Table → List MappedMemory
  pub get_empty : (k : StringView) → get empty k ≡ none
  pub get_put :
      (t : Table) (k k' : StringView) (m : MappedMemory)
      → put_ret t k ≢ put_failed
      → get (put t k m) k' ≡ (if string_view_equal k k' then some m else get t k')
  pub put_ret_present :
      (t : Table) (k : StringView) (m : MappedMemory) → get t k ≡ some m → put_ret t k ≡ key_present
  pub put_ret_new : (t : Table) (k : StringView) → get t k ≡ none → put_ret t k ≢ key_present

-- The static variable `table`; after a failed release it points to freed memory.
pub data TableState (A : Type 0) : Type 0 where
  unset freed : TableState A
  live : A → TableState A

-- What the file system answers for a path.
pub data Opened : Type 0 where
  open_fails fstat_fails : Opened
  mmap_fails : ℕ → Opened
  maps : Bytes → Opened

-- The memory, the result, and whether the descriptor stays open.
abbrev pub opened_result : Opened → MappedMemory × HttpErr × Bool
opened_result open_fails = (no_memory, http_err_open, false)
opened_result fstat_fails = (no_memory, http_err_fstat, true)
opened_result (mmap_fails n) = (record { len = n; data_ptr = map_failed }, http_err_mmap, true)
opened_result (maps bs) = (record { len = length bs; data_ptr = mapped bs }, http_success, false)

-- The path is copied to a buffer that has room for its terminator.
unfoldable pub open_resource :
    (Bytes → Opened) → Bytes → StringView → Option (MappedMemory × HttpErr × Bool)
open_resource files path_buf path =
    string_view_to_buf path path_buf (string_view_len path + 1) >>= λ r.
    some (opened_result (files (c_string r.0)))

-- The outcome is that of `munmap`; the result does not depend on it.
unfoldable pub close_resource : Bool → MappedMemory → HttpErr
close_resource munmap_ok mem = http_success

-- The outcomes of one call's mutex operations, in their order, and what it finds in the file system.
pub record Calls (A : Type 0) : Type 0 where
  pub lock_ok : Bool
  pub unlock_to_open_ok : Bool
  pub lock_again_ok : Bool
  pub unlock_ok : Bool
  pub files : Bytes → Opened
  pub path_buf : Bytes
  pub meanwhile : A → A

module _ (H : KHash) where
  unfoldable pub resource_getter_initial : Bool → Bool → TableState H.Table × HttpErr
  resource_getter_initial init_ok mutex_ok =
      if not init_ok
      then (unset, http_err_malloc)
      else if not mutex_ok
      then (live H.empty, http_err_pthread_mutex_init)
      else (live H.empty, http_success)

  -- The state, the memory that is unmapped, and the result.
  unfoldable pub resource_getter_release :
      Bool → TableState H.Table → Option (TableState H.Table × List MappedMemory × HttpErr)
  resource_getter_release destroy_ok unset = some (unset, [], http_err_hash_uninitialized)
  resource_getter_release destroy_ok freed = none
  resource_getter_release destroy_ok (live t) =
      if not destroy_ok
      then some (freed, H.values t, http_err_pthread_mutex_destroy)
      else some (unset, H.values t, http_success)

  abbrev finish : Bool → H.Table → MappedMemory → TableState H.Table × MappedMemory × HttpErr
  finish unlock_ok t res =
      if unlock_ok
      then (live t, res, http_success)
      else (live t, res, http_err_pthread_mutex_unlock)

  -- The branch that reads the file. `resmem` is what `open_resource` leaves; its result is not looked at.
  unfoldable pub read_resource :
      Build
      → Calls H.Table
      → H.Table
      → StringView
      → MappedMemory
      → Option (TableState H.Table × MappedMemory × HttpErr)
  read_resource build calls t path res =
      if not calls.unlock_to_open_ok
      then some (live t, res, http_err_pthread_mutex_unlock)
      else open_resource calls.files calls.path_buf path >>= λ opened.
          (let t' = calls.meanwhile t in
            if not calls.lock_again_ok
            then some (live t', opened.0, http_err_pthread_mutex_lock)
            else if is_failed (H.put_ret t' path)
            then none
            else check build (not (is_present (H.put_ret t' path)))
              >> some (finish calls.unlock_ok (H.put t' path opened.0) opened.0))

  -- `*res` is an argument and a result.
  unfoldable pub get_resource_lazy :
      Build
      → Calls H.Table
      → TableState H.Table
      → StringView
      → MappedMemory
      → Bool
      → Option (TableState H.Table × MappedMemory × HttpErr)
  get_resource_lazy build calls unset path res flush =
      some (unset, res, http_err_hash_uninitialized)
  get_resource_lazy build calls freed path res flush = none
  get_resource_lazy build calls (live t) path res flush =
      if not calls.lock_ok
      then some (live t, res, http_err_pthread_mutex_lock)
      else elim (H.get t path) [
        | none ↦ read_resource build calls t path res
        | some resmem ↦
            if flush
            then read_resource build calls t path res
            else some (finish calls.unlock_ok t res)
      ]

  unfoldable pub get_resource_cached :
      Build
      → Calls H.Table
      → TableState H.Table
      → StringView
      → MappedMemory
      → Option (TableState H.Table × MappedMemory × HttpErr)
  get_resource_cached build calls table path res =
      get_resource_lazy build calls table path res false

  unfoldable pub get_resource_refreshed :
      Build
      → Calls H.Table
      → TableState H.Table
      → StringView
      → MappedMemory
      → Option (TableState H.Table × MappedMemory × HttpErr)
  get_resource_refreshed build calls table path res =
      get_resource_lazy build calls table path res true
