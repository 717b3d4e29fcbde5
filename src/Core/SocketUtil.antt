-- ===== src/Core/SocketUtil.antt =====
-- src/core/socket_util.c. The outcomes of the system calls are arguments.
use litehttp_c.Base.{
  ℕ, ◌+◌, ◌/◌, ◌%◌, ◌^◌, ◌<◌, ◌≡◌, ◌∙◌, ap, Bool, true, false, not, List, [], ◌∷◌, ◌++◌, Option,
  none, some, Bytes, codes, length, ◌==◌, if◌then◌else◌, ◌>>=◌, arith, length-append, append_assoc,
  append-nil,
}
use litehttp_c.Util.ErrorCode.{
  HttpErr, http_success, http_err_malloc, http_err_getcwd, http_err_fcntl_f_getfl,
  http_err_fcntl_f_setfl,
}
use litehttp_c.Util.Text.{Text, append_each, append_each_lem, concat}

-- `flag | O_NONBLOCK`
abbrev pub with_nonblock : ℕ → ℕ
with_nonblock flag = if flag / 2048 % 2 == 1 then flag else flag + 2048

-- The arguments are the flags that `F_GETFL` gives and the outcome of `F_SETFL`; the result has the
-- flags that are set.
unfoldable pub setnoblocking : Option ℕ → Bool → Option ℕ × HttpErr
setnoblocking none set_ok = (none, http_err_fcntl_f_getfl)
setnoblocking (some flag) false = (none, http_err_fcntl_f_setfl)
setnoblocking (some flag) true = (some (with_nonblock flag), http_success)

pub record EpollUsrdata : Type 0 where
  pub fd : ℕ
  pub ip : Bytes
  pub port : ℕ

-- `calloc` is not tested: without memory the store to `fd` is a fault.
unfoldable pub create_epoll_usrdata : Bool → ℕ → Option EpollUsrdata
create_epoll_usrdata false fd = none
create_epoll_usrdata true fd = some (record { fd = fd; ip = []; port = 0 })

-- The block that `epoll_usrdata_free` gives back.
abbrev pub epoll_usrdata_free : EpollUsrdata → List EpollUsrdata
epoll_usrdata_free data' = data' ∷ []

module _ (T : Text) where
  -- The argument is what `inet_ntop` writes.
  unfoldable pub ipv4_net2str : Bytes → Option T.Str
  ipv4_net2str printed = T.of_cstr printed

  -- The arguments are the directory that `getcwd` gives, whether there is memory for it, and the base
  -- directory of the configuration.
  unfoldable pub get_absolue_path :
      Option Bytes → Bool → Bytes → Bytes → Option (Option T.Str × HttpErr)
  get_absolue_path none memory base_dir postfix = some (none, http_err_getcwd)
  get_absolue_path (some cwd) memory base_dir postfix =
      if not memory
      then some (none, http_err_malloc)
      else T.of_cstr cwd >>= λ path.
          append_each T path ((b'/' ∷ []) ∷ base_dir ∷ (b'/' ∷ []) ∷ postfix ∷ []) >>= λ path'.
          some (some path', http_success)

  -- The path of a resource is the working directory, the base directory and the path of the request,
  -- with a slash between each two, when there is memory and the whole path is below the limit of the
  -- strings.
  pub get_absolue_path_lem :
      (cwd base_dir postfix : Bytes)
      → length (cwd ++ codes "/" ++ base_dir ++ codes "/" ++ postfix) + 1 < 2 ^ 30
      → (path : T.Str) × (get_absolue_path (some cwd) true base_dir postfix
          ≡ some (some path, http_success))
        × T.Valid path
        × (T.text path ≡ cwd ++ codes "/" ++ base_dir ++ codes "/" ++ postfix)
  unfolding get_absolue_path
  get_absolue_path_lem cwd base_dir postfix small =
      let tail = (b'/' ∷ []) ∷ base_dir ∷ (b'/' ∷ []) ∷ postfix ∷ [] in
      let whole : concat tail ≡ codes "/" ++ base_dir ++ codes "/" ++ postfix =
        simp (append_assoc, append-nil) in
      let joined : cwd ++ concat tail ≡ cwd ++ codes "/" ++ base_dir ++ codes "/" ++ postfix =
        simp (append_assoc, append-nil) in
      let n = ap (λ (t : Bytes). length t) joined in
      let (s, e, v, t) =
        T.of_cstr_lem cwd (omega (arith, n, length-append cwd (concat tail), small)) in
      let (s', e', v', t') = append_each_lem T tail s v (
        omega (arith, n, length-append cwd (concat tail), ap (λ (t : Bytes). length t) t, small)) in
      (s', simp (e, e'), v', t' ∙ ap (λ t0. t0 ++ concat tail) t ∙ joined)
