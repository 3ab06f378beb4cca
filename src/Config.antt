-- ===== src/Config.antt =====
-- config/config.go: reading the configuration. The sections that the code only hands on, the TOML
-- library, the log library and the file system belong to others.
pub mod Loading
mod Examples
use catshadow.Prelude.{
  Bool, Bytes, String, List, [], ◌∷◌, Option, none, some, Result, ok, err, not, ◌&&◌, ◌==◌,
  string_comparable, if◌then◌else◌,
}

-- The sections of the client library's configuration that are handed on as they are.
pub record Sections : Type 1 where
  pub UpstreamProxy : Type 0
  pub Debug : Type 0
  pub NonvotingAuthority : Type 0
  pub VotingAuthority : Type 0
  pub Panda : Type 0
  pub Reunion : Type 0

-- `config.Logging` of the client library.
pub record Logging : Type 0 where
  pub disable : Bool
  pub file : String
  pub level : String

-- Why a configuration is refused; `foreign` stands for an error of a library.
pub data ConfigError : Type 0 where
  foreign : String → ConfigError
  not_absolute : ConfigError
  undecoded : List String → ConfigError

-- `Config`; a section that the file does not have is a nil pointer.
pub record Config (s : Sections) : Type 0 where
  pub client_logging : Option Logging
  pub logging : Option Logging
  pub upstream_proxy : Option s.UpstreamProxy
  pub debug : Option s.Debug
  pub nonvoting_authority : Option s.NonvotingAuthority
  pub voting_authority : Option s.VotingAuthority
  pub panda : Option s.Panda
  pub reunion : Option s.Reunion

-- `config.Config` of the client library.
pub record LibraryConfig (s : Sections) : Type 0 where
  pub logging : Option Logging
  pub upstream_proxy : Option s.UpstreamProxy
  pub debug : Option s.Debug
  pub nonvoting_authority : Option s.NonvotingAuthority
  pub voting_authority : Option s.VotingAuthority
  pub panda : Option s.Panda
  pub reunion : Option s.Reunion

-- What other repositories compute. `fixup_and_minimally_validate` changes the configuration in place;
-- `decode` says which keys of the file it has not decoded; `log_new` makes a log backend.
pub record Libraries (s : Sections) (Backend : Type 0) : Type 0 where
  pub fixup_and_minimally_validate : LibraryConfig s → Option ConfigError × LibraryConfig s
  pub decode : Bytes → Result (Config s × List String) ConfigError
  pub is_abs : String → Bool
  pub log_new : String → String → Bool → Result Backend ConfigError
  pub read_file : String → Result Bytes ConfigError

module _ {s : Sections} {Backend : Type 0} (libraries : Libraries s Backend) where
  open libraries use {fixup_and_minimally_validate, decode, is_abs, log_new, read_file}

  unfoldable pub client_config : Config s → Result (LibraryConfig s) ConfigError
  client_config c =
      let (e, cfg) = fixup_and_minimally_validate (record {
        logging = c.client_logging;
        upstream_proxy = c.upstream_proxy;
        debug = c.debug;
        nonvoting_authority = c.nonvoting_authority;
        voting_authority = c.voting_authority;
        panda = c.panda;
        reunion = c.reunion;
      }) in
      elim e [ some x ↦ err x | none ↦ ok cfg ]

  -- The result is `none` where the pointer to the section is nil, which panics.
  unfoldable pub init_log_backend : Config s → Option (Result Backend ConfigError)
  init_log_backend c = elim c.logging [
    | none ↦ none
    | some l ↦
        if not l.disable && not (l.file == "") && not (is_abs l.file)
        then some (err not_absolute)
        else some (log_new l.file l.level l.disable)
  ]

  unfoldable pub load : Bytes → Result (Config s) ConfigError
  load b = elim (decode b) [
    | err e ↦ err e
    | ok (cfg, []) ↦ ok cfg
    | ok (cfg, key ∷ keys) ↦ err (undecoded (key ∷ keys))
  ]

  unfoldable pub load_file : String → Result (Config s) ConfigError
  load_file f = elim (read_file f) [ err e ↦ err e | ok b ↦ load b ]
