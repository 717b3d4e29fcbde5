-- ===== src/Http/Resource/Threads.antt =====
-- `get_resource_lazy` of src/http/resource_getter.c in several threads that share the table and its
-- mutex. A step is what one thread does between two points where another may come between; every call
-- of the mutex succeeds, and a lock waits until nobody holds it.
pub mod Safety
pub mod Race
pub mod Alone
use litehttp_c.Base.{ℕ, ◌≡◌, ◌⊎◌, Bool, true, false, Option, none, some, Bytes, ◌==◌, if◌then◌else◌}
use litehttp_c.Util.ErrorCode.{HttpErr}
use litehttp_c.Util.StringView.{StringView}
use litehttp_c.Http.ParseCtx.{Build, debug, release}
use litehttp_c.Http.Resource.{
  MappedMemory, KHash, Opened, open_resource, key_present, put_failed, is_present, is_failed,
}

-- Where a thread stands: outside; behind the first lock; behind the unlock in front of the file;
-- with the file; behind the second lock; in front of the last unlock.
pub data Pc : Type 0 where
  outside : Pc
  looking : StringView → Bool → Pc
  opening : StringView → Pc
  with_file : StringView → MappedMemory → Pc
  storing : StringView → MappedMemory → Pc
  leaving : Pc

-- Between a lock and its unlock.
abbrev pub in_lock : Pc → Bool
in_lock (looking _ _) = true
in_lock (storing _ _) = true
in_lock leaving = true
in_lock outside = false
in_lock (opening _) = false
in_lock (with_file _ _) = false

abbrev pub update : (ℕ → Pc) → ℕ → Pc → ℕ → Pc
update pc i p j = if i == j then p else pc j

module _ (H : KHash) where
  pub record Threads : Type 0 where
    pub table : H.Table
    pub holder : Option ℕ
    pub pc : ℕ → Pc
    pub running : Bool

  -- Nobody has called.
  abbrev pub at_rest : H.Table → Threads
  at_rest t = record { table = t; holder = none; pc = λ i. outside; running = true }

  -- Thread `i` moves, and the mutex is then held by `holder`.
  abbrev pub move : Threads → ℕ → Option ℕ → Pc → Threads
  move s i holder p = record s { holder = holder; pc = update s.pc i p }

  pub data Step (build : Build) (files : Bytes → Opened) : Threads → Threads → Type 0 where
    call :
        (s : Threads) (i : ℕ) (path : StringView) (flush : Bool)
        → s.pc i ≡ outside
        → s.holder ≡ none
        → Step build files s (move s i (some i) (looking path flush))
    hit :
        (s : Threads) (i : ℕ) (path : StringView) (m : MappedMemory)
        → s.pc i ≡ looking path false
        → H.get s.table path ≡ some m
        → Step build files s (move s i s.holder leaving)
    miss :
        (s : Threads) (i : ℕ) (path : StringView) (flush : Bool)
        → s.pc i ≡ looking path flush
        → (H.get s.table path ≡ none) ⊎ (flush ≡ true)
        → Step build files s (move s i none (opening path))
    open_file :
        (s : Threads) (i : ℕ) (path : StringView) (buf : Bytes) (m : MappedMemory) (e : HttpErr)
        (leaked : Bool)
        → s.pc i ≡ opening path
        → open_resource files buf path ≡ some (m, e, leaked)
        → Step build files s (move s i s.holder (with_file path m))
    lock_again :
        (s : Threads) (i : ℕ) (path : StringView) (m : MappedMemory)
        → s.pc i ≡ with_file path m
        → s.holder ≡ none
        → Step build files s (move s i (some i) (storing path m))
    store :
        (s : Threads) (i : ℕ) (path : StringView) (m : MappedMemory)
        → s.pc i ≡ storing path m
        → is_failed (H.put_ret s.table path) ≡ false
        → (build ≡ release) ⊎ (is_present (H.put_ret s.table path) ≡ false)
        → Step build files s (record (move s i s.holder leaving) { table = H.put s.table path m })
    fail :
        (s : Threads) (i : ℕ) (path : StringView) (m : MappedMemory)
        → s.pc i ≡ storing path m
        → build ≡ debug
        → is_present (H.put_ret s.table path) ≡ true
        → Step build files s (record s { running = false })
    unlock : (s : Threads) (i : ℕ) → s.pc i ≡ leaving → Step build files s (move s i none outside)

  -- A failed assertion ends the program, and no step follows it.
  pub data Reach (build : Build) (files : Bytes → Opened) (s : Threads) : Threads → Type 0 where
    here : Reach build files s s
    later :
        {t u : Threads}
        → Reach build files s t
        → t.running ≡ true
        → Step build files t u
        → Reach build files s u
