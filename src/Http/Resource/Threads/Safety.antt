-- ===== src/Http/Resource/Threads/Safety.antt =====
-- What holds whenever threads run `get_resource_lazy` of src/http/resource_getter.c.
use mathlib.Core.Path.{subst}
use litehttp_c.Base.{
  ℕ, ◌≢◌, ◌≡◌, refl, ◌∙◌, ap, ◌⊎◌, inl, inr, Bool, true, false, Option, none, some, Bytes, ◌==◌,
  ==_iff, Bool-cases, if◌then◌else◌, arith,
}
use litehttp_c.Util.ErrorCode.{HttpErr}
use litehttp_c.Util.StringView.{StringView, string_view_equal}
use litehttp_c.Http.ParseCtx.{Build}
use litehttp_c.Http.Resource.{
  MappedMemory, KHash, Opened, open_resource, PutRet, put_failed, is_failed,
}
use litehttp_c.Http.Resource.Threads.{
  Pc, outside, looking, opening, with_file, storing, leaving, in_lock, update, Threads, at_rest,
  move, Step, call, hit, miss, open_file, lock_again, store, fail, unlock, Reach, here, later,
}

-- The file system gave this memory for this path.
abbrev pub ReadFrom : (Bytes → Opened) → StringView → MappedMemory → Type 0
ReadFrom files path m =
    (buf : Bytes) × (e : HttpErr) × (leaked : Bool) × (open_resource files buf path
      ≡ some (m, e, leaked))

-- A thread that carries memory carries that of its path.
abbrev Carries : (Bytes → Opened) → Pc → Type 0
Carries files (with_file path m) = ReadFrom files path m
Carries files (storing path m) = ReadFrom files path m
Carries files outside = Unit {0}
Carries files (looking _ _) = Unit {0}
Carries files (opening _) = Unit {0}
Carries files leaving = Unit {0}

module _ (H : KHash) (files : Bytes → Opened) where
  -- The mutex is held by every thread between a lock and its unlock, so that there is at most one; and
  -- each entry of the table is what the file system gave for an equal path.
  pub record Inv (s : Threads H) : Type 0 where
    pub exclusive : (i : ℕ) → in_lock (s.pc i) ≡ true → s.holder ≡ some i
    pub stored :
        (key : StringView) (m : MappedMemory)
        → H.get s.table key ≡ some m
        → (path : StringView) × (string_view_equal path key ≡ true) × ReadFrom files path m
    pub carried : (i : ℕ) → Carries files (s.pc i)

  pub update_self : (pc : ℕ → Pc) (i : ℕ) (p : Pc) → update pc i p i ≡ p
  update_self pc i p = rw ((==_iff i i).1 refl) refl

  -- A predicate of every thread, when one of them moves.
  update_all :
      (P : ℕ → Pc → Type 0) (pc : ℕ → Pc) (i : ℕ) (p : Pc)
      → P i p
      → ((j : ℕ) → i ≢ j → P j (pc j))
      → (j : ℕ) → P j (update pc i p j)
  update_all P pc i p new old j = elim (Bool-cases (i == j)) [
    | inl e ↦ rw e (subst (λ k. P k p) ((==_iff i j).0 e) new)
    | inr e ↦ rw e (old j (λ q. ground (arith, e, q)))
  ]

  move-carried :
      (s : Threads H) (i : ℕ) (holder : Option ℕ) (p : Pc)
      → Inv s
      → Carries files p
      → (j : ℕ) → Carries files ((move H s i holder p).pc j)
  move-carried s i holder p v c =
      update_all (λ j q. Carries files q) s.pc i p c (λ j n. v.carried j)

  -- The thread that moves is the holder, or nobody is.
  move-exclusive :
      (s : Threads H) (i : ℕ) (holder : Option ℕ) (p : Pc)
      → Inv s
      → (s.holder ≡ some i) ⊎ (s.holder ≡ none)
      → (in_lock p ≡ true → holder ≡ some i)
      → (j : ℕ) → in_lock ((move H s i holder p).pc j) ≡ true
      → holder ≡ some j
  move-exclusive s i holder p v own new =
      update_all (λ j q. in_lock q ≡ true → holder ≡ some j) s.pc i p new
        (λ j n e. absurd (alone own j n (v.exclusive j e)))
    where
      alone : (s.holder ≡ some i) ⊎ (s.holder ≡ none) → (j : ℕ) → i ≢ j → s.holder ≡ some j → ⊥
      alone (inl o) j n q = n (cc)
      alone (inr o) j n q = cc

  -- A step outside the lock leaves the mutex to whoever holds it.
  outside-exclusive :
      (s : Threads H) (i : ℕ) (p : Pc)
      → Inv s
      → in_lock p ≡ false
      → (j : ℕ) → in_lock ((move H s i s.holder p).pc j) ≡ true
      → s.holder ≡ some j
  outside-exclusive s i p v out =
      update_all (λ j q. in_lock q ≡ true → s.holder ≡ some j) s.pc i p (λ e. cc)
        (λ j n. v.exclusive j)

  holds :
      (s : Threads H) (i : ℕ) {p : Pc} → Inv s → s.pc i ≡ p → in_lock p ≡ true → s.holder ≡ some i
  holds s i v e l = v.exclusive i (ap in_lock e ∙ l)

  -- A put adds an entry and keeps the others.
  put-stored :
      (s : Threads H) (path : StringView) (m : MappedMemory)
      → Inv s
      → ReadFrom files path m
      → is_failed (H.put_ret s.table path) ≡ false
      → (key : StringView) (m' : MappedMemory) → H.get (H.put s.table path m) key ≡ some m'
      → (path' : StringView) × (string_view_equal path' key ≡ true) × ReadFrom files path' m'
  put-stored s path m v r room key m' found =
      let law = H.get_put s.table path key m (λ e. absurd (full (H.put_ret s.table path) e room)) in
      elim (Bool-cases (string_view_equal path key)) [
        | inl e ↦
            let new = law ∙ ap (λ b. if b then some m else H.get s.table key) e in
            let same : m ≡ m' = cc in (path, e, subst (ReadFrom files path) same r)
        | inr e ↦
            let kept = law ∙ ap (λ b. if b then some m else H.get s.table key) e in
            let old : H.get s.table key ≡ some m' = cc in v.stored key m' old
      ]
    where
      full : (r : PutRet) → r ≡ put_failed → is_failed r ≡ false → ⊥
      full r e f = ground (arith, e, f)

  Step-Inv : {build : Build} {s t : Threads H} → Step H build files s t → Inv s → Inv t
  Step-Inv (call s i path flush p q) v = record {
    exclusive = move-exclusive s i (some i) (looking path flush) v (inr q) (λ e. refl);
    stored = v.stored;
    carried = move-carried s i (some i) (looking path flush) v tt;
  }
  Step-Inv (hit s i path m p g) v = record {
    exclusive =
        move-exclusive s i s.holder leaving v (inl (holds s i v p refl)) (λ e. holds s i v p refl);
    stored = v.stored;
    carried = move-carried s i s.holder leaving v tt;
  }
  Step-Inv (miss s i path flush p g) v = record {
    exclusive =
        move-exclusive s i none (opening path) v (inl (holds s i v p refl)) (λ e. absurd (cc));
    stored = v.stored;
    carried = move-carried s i none (opening path) v tt;
  }
  Step-Inv (open_file s i path buf m e leaked p o) v = record {
    exclusive = outside-exclusive s i (with_file path m) v refl;
    stored = v.stored;
    carried = move-carried s i s.holder (with_file path m) v (buf, e, leaked, o);
  }
  Step-Inv (lock_again s i path m p q) v = record {
    exclusive = move-exclusive s i (some i) (storing path m) v (inr q) (λ e. refl);
    stored = v.stored;
    carried = move-carried s i (some i) (storing path m) v (subst (Carries files) p (v.carried i));
  }
  Step-Inv (store s i path m p room new) v = record {
    exclusive =
        move-exclusive s i s.holder leaving v (inl (holds s i v p refl)) (λ e. holds s i v p refl);
    stored = put-stored s path m v (subst (Carries files) p (v.carried i)) room;
    carried = move-carried s i s.holder leaving v tt;
  }
  Step-Inv (fail s i path m p d present) v = record {
    exclusive = v.exclusive;
    stored = v.stored;
    carried = v.carried;
  }
  Step-Inv (unlock s i p) v = record {
    exclusive = move-exclusive s i none outside v (inl (holds s i v p refl)) (λ e. absurd (cc));
    stored = v.stored;
    carried = move-carried s i none outside v tt;
  }

  -- However any number of threads interleave their requests from the empty table on, in either build, at
  -- most one of them is between a lock and its unlock, and it holds the mutex; each entry of the table,
  -- and the memory that a thread is about to store, is what the file system gave for that path.
  pub Reach-Inv :
      (build : Build) (s : Threads H) → Reach H build files (at_rest H H.empty) s → Inv s
  Reach-Inv build s here = record {
    exclusive = λ i e. absurd (cc);
    stored = λ key m e. absurd (no_entry key m e);
    carried = λ i. tt;
  }
    where
      no_entry : (key : StringView) (m : MappedMemory) → H.get H.empty key ≡ some m → ⊥
      no_entry key m e = ground (arith, e, H.get_empty key)
  Reach-Inv build s (later {t = t} r run step) = Step-Inv step (Reach-Inv build t r)
