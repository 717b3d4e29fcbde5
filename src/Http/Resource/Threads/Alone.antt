-- ===== src/Http/Resource/Threads/Alone.antt =====
-- A call of `get_resource_lazy` of src/http/resource_getter.c that no other thread disturbs.
use litehttp_c.Base.{ℕ, ◌≡◌, true, Option, none, some}
use litehttp_c.Util.ErrorCode.{HttpErr, http_success}
use litehttp_c.Util.StringView.{StringView}
use litehttp_c.Http.ParseCtx.{Build}
use litehttp_c.Http.Resource.{MappedMemory, KHash, TableState, live, Calls}
use litehttp_c.Http.Resource.Threads.{outside, Threads, Reach}

-- The mutex never fails.
pub record Locks {A : Type 0} (calls : Calls A) : Type 0 where
  pub first_lock : calls.lock_ok ≡ true
  pub first_unlock : calls.unlock_to_open_ok ≡ true
  pub second_lock : calls.lock_again_ok ≡ true
  pub last_unlock : calls.unlock_ok ≡ true

module _ (H : KHash) (build : Build) (calls : Calls H.Table) (locks : Locks calls) (i : ℕ) where
  -- Thread `i` has come back, and the table is the one of the call's result.
  pub record Returned (s : Threads H) (r : Option (TableState H.Table × MappedMemory × HttpErr))
      (s' : Threads H) : Type 0 where
    pub steps : Reach H build calls.files s s'
    pub outside_is : s'.pc i ≡ outside
    pub free_is : s'.holder ≡ none
    pub running_is : s'.running ≡ true
    pub result_is : (res : MappedMemory) × (r ≡ some (live s'.table, res, http_success))
