-- ===== src/Core/Configure/Values.antt =====
-- What src/core/configure.c makes of the tables of a configuration file.
use litehttp_c.Base.{
  ℕ, ◌+◌, ◌^◌, ◌<◌, ◌≡◌, refl, ◌∙◌, ap, [], ◌∷◌, ◌++◌, Option, none, some, Bytes, codes, length,
  arith, ℤ, pos, ◌>>=◌, ◌⊎◌, inl, inr, size_add, get_or-append_self, take-append_self,
  length-append,
}
use litehttp_c.Util.ErrorCode.{
  HttpErr, http_success, http_err_unset_fatal, http_err_unset_use_default,
}
use litehttp_c.Util.StringView.{view}
use litehttp_c.Util.StringT.{
  StringT, string_zeroed, string_init_from_cstr, string_take_ownership, heap,
}
use litehttp_c.Util.StringT.Valid.{IsValid, contents}
use litehttp_c.Util.StringT.Write.{mk, heap_IsValid, string_len_suc}
use litehttp_c.Util.StringT.Init.{string_init_from_string_view-Gives}
use litehttp_c.Core.Configure.{
  handle_threads_value, listen_que_value, max_events_value, host_value, port_value, base_dir_value,
  TomlString, TomlTable, Toml, ServerConfig, CoreConfig, int_of_int64, core_of, server_of,
  config_core, config_server, server_zeroed,
}

-- The value of a key, or the program's default.
abbrev pub or_default : ℕ → Option ℤ → ℤ
or_default d none = pos d
or_default d (some i) = int_of_int64 i

abbrev pub both_set : Option ℤ → Option ℤ → HttpErr
both_set (some a) (some b) = http_success
both_set none b = http_err_unset_use_default
both_set (some a) none = http_err_unset_use_default

core_values :
    (threads que : Option ℤ) (config : CoreConfig)
    → max_events_value que
        (listen_que_value que (handle_threads_value threads (config, http_success)))
      ≡ (
        record {
          handle_threads = or_default 4 threads;
          listen_que = or_default 10 que;
          max_events = or_default 100 que;
        },
        both_set threads que,
      )
core_values none none config = refl
core_values none (some j) config = refl
core_values (some i) none config = refl
core_values (some i) (some j) config = refl

-- With a `core` table, the number of threads and the queue length are the values of their keys or
-- the defaults 4 and 10, and the number of events of one wait is the value of the key of the queue
-- length, or 100: the result, an error code included, depends on no third key.
pub config_core_lem :
    (toml : Toml) (table : TomlTable) (config : CoreConfig)
    → toml (codes "core") ≡ some table
    → config_core toml config ≡ (
      record {
        handle_threads = or_default 4 (table.toml_int (codes "handle_threads"));
        listen_que = or_default 10 (table.toml_int (codes "listen_que"));
        max_events = or_default 100 (table.toml_int (codes "listen_que"));
      },
      both_set (table.toml_int (codes "handle_threads")) (table.toml_int (codes "listen_que")),
    )
unfolding config_core
config_core_lem toml table config found =
    ap (λ t. core_of t config) found
    ∙ core_values (table.toml_int (codes "handle_threads")) (table.toml_int (codes "listen_que"))
        config

-- What the parser documents of a string: the block is the text and its terminator.
pub record IsToml (s : TomlString) (text : Bytes) : Type 0 where
  pub block_is : s.block ≡ text ++ (0 ∷ [])
  pub sl_is : s.sl ≡ length text
  pub not_huge : length text + 1 < 2 ^ 64

owned :
    (small text : Bytes)
    → length small ≡ 16
    → IsValid (mk small (heap (text ++ (0 ∷ []))) (length text + 1) (length text + 1))
      × (contents (mk small (heap (text ++ (0 ∷ []))) (length text + 1) (length text + 1)) ≡ text)
owned small text h =
    let room = length-append text (0 ∷ []) in
    (
      heap_IsValid small (text ++ (0 ∷ [])) (length text) (length text + 1) h (omega (arith, room))
          (omega arith) (get_or-append_self (length text) text 0 [] 1 refl),
      rw (string_len_suc (length text)) (take-append_self (length text) text (0 ∷ []) refl),
    )

-- A string that takes over a parser's block is valid and stands for the text.
take_ownership-IsValid :
    (s : StringT) (t : TomlString) (text : Bytes)
    → length s.small ≡ 16
    → IsToml t text
    → IsValid (string_take_ownership s t.block t.sl)
      × (contents (string_take_ownership s t.block t.sl) ≡ text)
unfolding string_take_ownership
take_ownership-IsValid s t text small h =
    let size : size_add t.sl 1 ≡ length text + 1 = omega (arith, h.sl_is, h.not_huge) in
    rw (size, h.block_is) (owned s.small text small)

default_host :
    (junk : ℕ → ℕ) (config : ServerConfig)
    → (host : StringT) × (host_value (some junk) none config
        ≡ some (record config { host = host }, http_err_unset_use_default))
      × IsValid host
      × (contents host ≡ codes "127.0.0.1")
default_host junk config =
    let (host, e, v, t) =
      string_init_from_string_view-Gives junk (view (codes "127.0.0.1")) (omega arith) in
    (
      host,
      unfold string_init_from_cstr in
          ap (λ r. r >>= λ r'. some (record config { host = r'.0 }, http_err_unset_use_default)) e,
      v,
      t,
    )

-- The text of a key, or the default one, whose use the result reports.
abbrev pub HostIs : Option TomlString → Bytes → HttpErr → Type 0
HostIs none text err = (text ≡ codes "127.0.0.1") × (err ≡ http_err_unset_use_default)
HostIs (some s) text err = IsToml s text × (err ≡ http_success)

host_value_lem :
    (junk : ℕ → ℕ) (host : Option TomlString) (text : Bytes) (err : HttpErr)
    → HostIs host text err
    → (s : StringT) × (host_value (some junk) host server_zeroed
        ≡ some (record server_zeroed { host = s }, err))
      × IsValid s
      × (contents s ≡ text)
host_value_lem junk none text err h =
    let (s, e, v, t) = default_host junk server_zeroed in (s, rw (h.1) e, v, rw (h.0) t)
host_value_lem junk (some t) text err h =
    let (v, c) = take_ownership-IsValid string_zeroed t text refl h.0 in
    (string_take_ownership string_zeroed t.block t.sl, rw (h.1) refl, v, c)

-- The error code that the port adds.
abbrev pub port_code : Option ℤ → HttpErr → HttpErr
port_code none err = http_err_unset_use_default
port_code (some i) err = err

port_value_lem :
    (port : Option ℤ) (config : ServerConfig) (err : HttpErr)
    → port_value port (config, err)
      ≡ (record config { port = or_default 2233 port }, port_code port err)
port_value_lem none config err = refl
port_value_lem (some i) config err = refl

-- With a `server` table that sets a base directory, the configuration of a program that has just
-- started succeeds, or reports the use of a default for the host or the port: the host is a valid
-- string of the text that the file sets or of 127.0.0.1, the port is the file's or 2233, and the base
-- directory is a valid string of the text in the file. The parser's strings are as it documents them.
pub config_server_lem :
    (junk : ℕ → ℕ) (toml : Toml) (table : TomlTable) (host base : Bytes) (herr : HttpErr)
    (dir : TomlString)
    → toml (codes "server") ≡ some table
    → HostIs (table.toml_string (codes "host")) host herr
    → table.toml_string (codes "base_dir") ≡ some dir
    → IsToml dir base
    → (h d : StringT) × (config_server (some junk) toml server_zeroed
        ≡ some (
          record { host = h; port = or_default 2233 (table.toml_int (codes "port")); base_dir = d },
          port_code (table.toml_int (codes "port")) herr,
        ))
      × IsValid h
      × (contents h ≡ host)
      × IsValid d
      × (contents d ≡ base)
unfolding config_server
config_server_lem junk toml table host base herr dir found hosted based at =
    let (h, e, v, t) = host_value_lem junk (table.toml_string (codes "host")) host herr hosted in
    let (w, u) = take_ownership-IsValid string_zeroed dir base refl at in
    let port = table.toml_int (codes "port") in
    let with_port = port_value_lem port (record server_zeroed { host = h }) herr in
    (
      h,
      string_take_ownership string_zeroed dir.block dir.sl,
      ap (λ t. server_of (some junk) t server_zeroed) found
          ∙ ap
              (λ r. r >>= λ c.
                some (base_dir_value (table.toml_string (codes "base_dir")) (port_value port c)))
              e
          ∙ ap (λ c. some (base_dir_value (table.toml_string (codes "base_dir")) c)) with_port
          ∙ ap
              (λ b. some (
                base_dir_value b (
                  record server_zeroed { host = h; port = or_default 2233 port },
                  port_code port herr,
                )))
              based,
      v,
      t,
      w,
      u,
    )

-- Without a `server` table, or with one that sets no base directory, configuring the server is a fatal
-- error.
pub config_server_fatal :
    (junk : ℕ → ℕ) (toml : Toml) (table : TomlTable) (host : Bytes) (herr : HttpErr)
    → (toml (codes "server") ≡ none)
      ⊎ ((toml (codes "server") ≡ some table)
          × HostIs (table.toml_string (codes "host")) host herr
          × (table.toml_string (codes "base_dir") ≡ none))
    → (config : ServerConfig) × (config_server (some junk) toml server_zeroed
        ≡ some (config, http_err_unset_fatal))
unfolding config_server
config_server_fatal junk toml table host herr (inl missing) =
    (server_zeroed, ap (λ t. server_of (some junk) t server_zeroed) missing)
config_server_fatal junk toml table host herr (inr (found, hosted, missing)) =
    let (h, e, v, t) = host_value_lem junk (table.toml_string (codes "host")) host herr hosted in
    let port = table.toml_int (codes "port") in
    let c = port_value port (record server_zeroed { host = h }, herr) in
    (
      c.0,
      ap (λ t. server_of (some junk) t server_zeroed) found
          ∙ ap
              (λ r. r >>= λ c.
                some (base_dir_value (table.toml_string (codes "base_dir")) (port_value port c)))
              e
          ∙ ap (λ b. some (base_dir_value b c)) missing,
    )
