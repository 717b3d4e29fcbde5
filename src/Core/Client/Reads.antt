-- ===== src/Core/Client/Reads.antt =====
-- What `read_client` of src/core/client.c collects, and how the end of the stream is handled.
use litehttp_c.Base.{
  ◌+◌, ◌^◌, ◌<◌, ◌≡◌, refl, sym, ◌∙◌, ap, Bool, true, false, not, List, [], ◌∷◌, ◌++◌, append_assoc,
  append-nil, none, some, Bytes, length, length-append, if◌then◌else◌, arith, ◌>>=◌,
}
use litehttp_c.Util.ErrorCode.{http_err_client_close, http_err_epoll_ctl_del}
use litehttp_c.Util.Text.{Text, concat}
use litehttp_c.Http.ParseCtx.{Build, Mem}
use litehttp_c.Core.Server.{ClientData}
use litehttp_c.Core.Client.{Backend, ReadResult, read_data, read_end, read_client, handle_client_fd}

-- Reads that deliver the pieces and then go on with `reads`.
abbrev pub delivering : List Bytes → List ReadResult → List ReadResult
delivering [] reads = reads
delivering (piece ∷ pieces) reads = read_data piece ∷ delivering pieces reads

module _ (T : Text) where
  -- When the pieces have arrived, whatever the reads go on with, the string is valid and stands for
  -- all their bytes in order, if these are below the limit of the strings.
  pub read_client-delivering :
      (pieces : List Bytes) (s : T.Str) (reads : List ReadResult)
      → T.Valid s
      → length (concat pieces) + length (T.text s) + 1 < 2 ^ 30
      → (s' : T.Str) × (read_client T s (delivering pieces reads) ≡ read_client T s' reads)
        × T.Valid s'
        × (T.text s' ≡ T.text s ++ concat pieces)
  unfolding read_client
  read_client-delivering [] s reads v h = (s, refl, v, sym (append-nil (T.text s)))
  read_client-delivering (p ∷ ps) s reads v h =
      let n = length-append p (concat ps) in
      let (s1, e1, v1, t1) = T.append_lem s p v (omega arith) in
      let (s2, e2, v2, t2) =
        read_client-delivering ps s1 reads v1
          (omega (arith, ap (λ (t : Bytes). length t) t1, length-append (T.text s) p)) in
      (
        s2,
        ap (λ r. r >>= λ more. read_client T more (delivering ps reads)) e1 ∙ e2,
        v2,
        t2 ∙ ap (λ t. t ++ concat ps) t1 ∙ append_assoc (T.text s) p (concat ps),
      )

  -- When the stream ends behind data, the data is dropped: nothing is parsed or sent, the client is
  -- freed while its descriptor stays open, and the descriptor that is closed is that of epoll. The
  -- data is below the limit of the strings.
  pub client_close :
      (B : Backend) (build : Build) (mem : Mem) (s : B.State) (client : ClientData T.Str)
      (pieces : List Bytes) (reads : List ReadResult) (del_ok : Bool)
      → length (concat pieces) + 1 < 2 ^ 30
      → handle_client_fd T B build mem s client (delivering pieces (read_end ∷ reads)) del_ok
        ≡ some (record {
          state = s;
          client = none;
          epoll_fd_open = false;
          client_fd_open = true;
          watched = not del_ok;
          sent = [];
          result = if del_ok then http_err_client_close else http_err_epoll_ctl_del;
        })
  unfolding handle_client_fd read_client
  client_close B build mem s client pieces reads del_ok h =
      let (s', e, v, t) =
        read_client-delivering pieces T.init (read_end ∷ reads) T.init_Valid
          (omega (arith, ap (λ (t : Bytes). length t) T.init_text)) in
      simp e
