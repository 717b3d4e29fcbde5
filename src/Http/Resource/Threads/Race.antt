-- ===== src/Http/Resource/Threads/Race.antt =====
-- Two threads that ask `get_resource_cached` of src/http/resource_getter.c for one new file at once.
use litehttp_c.Base.{
  ◌^◌, ◌<◌, ◌≡◌, ◌≢◌, refl, ◌∙◌, ap, inl, inr, Bool, false, none, some, Bytes, length,
}
use litehttp_c.Util.ErrorCode.{HttpErr}
use litehttp_c.Util.StringView.{view}
use litehttp_c.Util.StringView.Compare.{NulFree}
use litehttp_c.Http.ParseCtx.{debug}
use litehttp_c.Http.Resource.{MappedMemory, KHash, Opened, open_resource, put_failed, is_present}
use litehttp_c.Http.Resource.Cache.{equal_self, not_failed, not_present}
use litehttp_c.Http.Resource.Threads.{
  looking, opening, with_file, storing, leaving, outside, Threads, at_rest, move, call, miss,
  open_file, lock_again, store, fail, unlock, Reach, here, later,
}

module _ (H : KHash) (files : Bytes → Opened) (t : H.Table) (path buf : Bytes) (m : MappedMemory)
    (e : HttpErr) (leaked : Bool) where
  pub race_stops :
      H.get t (view path) ≡ none
      → H.put_ret t (view path) ≢ put_failed
      → open_resource files buf (view path) ≡ some (m, e, leaked)
      → NulFree path
      → length path < 2 ^ 31
      → (s : Threads H) × Reach H debug files (at_rest H t) s × (s.running ≡ false)
  race_stops new room opened nul_free short =
      let k = view path in
      let s0 = at_rest H t in
      let s1 = move H s0 0 (some 0) (looking k false) in
      let r1 = later here refl (call s0 0 k false refl refl) in
      let s2 = move H s1 0 none (opening k) in
      let r2 = later r1 refl (miss s1 0 k false refl (inl new)) in
      let s3 = move H s2 1 (some 1) (looking k false) in
      let r3 = later r2 refl (call s2 1 k false refl refl) in
      let s4 = move H s3 1 none (opening k) in
      let r4 = later r3 refl (miss s3 1 k false refl (inl new)) in
      let s5 = move H s4 0 none (with_file k m) in
      let r5 = later r4 refl (open_file s4 0 k buf m e leaked refl opened) in
      let s6 = move H s5 1 none (with_file k m) in
      let r6 = later r5 refl (open_file s5 1 k buf m e leaked refl opened) in
      let s7 = move H s6 0 (some 0) (storing k m) in
      let r7 = later r6 refl (lock_again s6 0 k m refl refl) in
      let t' = H.put t k m in
      let s8 = record (move H s7 0 (some 0) leaving) { table = t' } in
      let room' = not_failed H (H.put_ret t k) room in
      let new' = not_present H (H.put_ret t k) (H.put_ret_new t k new) in
      let r8 = later r7 refl (store s7 0 k m refl room' (inr new')) in
      let s9 = move H s8 0 none outside in
      let r9 = later r8 refl (unlock s8 0 refl) in
      let s10 = move H s9 1 (some 1) (storing k m) in
      let r10 = later r9 refl (lock_again s9 1 k m refl refl) in
      let stored : H.get t' k ≡ some m =
        H.get_put t k k m room ∙ simp (equal_self path nul_free short) in
      let present = ap is_present (H.put_ret_present t' k m stored) in
      (record s10 { running = false }, later r10 refl (fail s10 1 k m refl refl present), refl)
