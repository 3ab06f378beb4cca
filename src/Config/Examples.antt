-- ===== src/Config/Examples.antt =====
-- A configuration file that has no section for the client's log.
use catshadow.Prelude.{◌≡◌, true, String, [], ◌∷◌, none, some, ok, string_comparable, refl}
use catshadow.Config.{Sections, Config, Libraries, load_file}
use catshadow.Config.Loading.{load_file-init_log_backend}

abbrev sections : Sections
sections = record {
  UpstreamProxy = Unit;
  Debug = Unit;
  NonvotingAuthority = Unit;
  VotingAuthority = Unit;
  Panda = Unit;
  Reunion = Unit;
}

abbrev bare : Config sections
bare = record {
  client_logging = some (record { disable = true; file = ""; level = "DEBUG" });
  logging = none;
  upstream_proxy = none;
  debug = none;
  nonvoting_authority = some tt;
  voting_authority = none;
  panda = none;
  reunion = none;
}

abbrev libraries : Libraries sections String
libraries = record {
  fixup_and_minimally_validate = λ c. (none, c);
  decode = λ b. ok (bare, []);
  is_abs = λ f. true;
  log_new = λ f level disable. ok f;
  read_file = λ f. ok (1 ∷ []);
}

load_file-init_log_backend_example : load_file libraries "catshadow.toml" ≡ ok bare
load_file-init_log_backend_example =
    (load_file-init_log_backend libraries "catshadow.toml" (1 ∷ []) bare refl refl).0
