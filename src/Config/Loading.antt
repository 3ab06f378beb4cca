-- ===== src/Config/Loading.antt =====
-- What becomes of a configuration file.
use catshadow.Prelude.{
  ◌≡◌, ◌≢◌, ==_iff, true, false, Bytes, String, [], none, some, ok, err, ◌==◌, string_comparable,
  arith, Bool-cases, Option-cases, ◌⊎◌, inl, inr,
}
use catshadow.Config.{
  Sections, Logging, Config, not_absolute, Libraries, load, load_file, init_log_backend,
}

module _ {s : Sections} {Backend : Type 0} (libraries : Libraries s Backend) where
  open libraries use {decode, is_abs, read_file, log_new}

  -- Logging is disabled, or the path is empty or absolute.
  abbrev pub IsAllowed : Logging → Type 0
  IsAllowed l = (l.disable ≡ true) ⊎ ((l.file ≡ "") ⊎ (is_abs l.file ≡ true))

  -- A file whose keys are all known and that has no section for the client's log is loaded without an
  -- error, and then setting the log up panics. With such a section, setting it up gives what the log
  -- library makes of the section's path and level and of whether logging is disabled, if the path is
  -- absolute or empty or logging is disabled; with any other path it gives an error.
  pub load_file-init_log_backend :
      (f : String) (b : Bytes) (cfg : Config s)
      → read_file f ≡ ok b
      → decode b ≡ ok (cfg, [])
      → (load_file libraries f ≡ ok cfg)
        × ((cfg.logging ≡ none) × (init_log_backend libraries cfg ≡ none)
            ⊎ ((l : Logging) × (cfg.logging ≡ some l)
                × ((IsAllowed l
                      × (init_log_backend libraries cfg ≡ some (log_new l.file l.level l.disable)))
                    ⊎ ((l.disable ≡ false)
                        × (l.file ≢ "")
                        × (is_abs l.file ≡ false)
                        × (init_log_backend libraries cfg ≡ some (err not_absolute))))))
  unfolding load_file load init_log_backend
  load_file-init_log_backend f b cfg e e' = (
    ground (arith, e, e'),
    elim (Option-cases cfg.logging) [
      | inl n ↦ inl (n, ground (arith, n))
      | inr (l, n) ↦ inr (
        l,
        n,
        elim (Bool-cases l.disable) [
          | inl off ↦ inl (inl off, ground (arith, n, off))
          | inr on ↦ elim (Bool-cases (l.file == "")) [
            | inl empty ↦
                inl (
                  inr (inl (ground (arith, empty, ==_iff l.file ""))),
                  ground (arith, n, on, empty),
                )
            | inr named ↦ elim (Bool-cases (is_abs l.file)) [
              | inl absolute ↦ inl (inr (inr absolute), ground (arith, n, on, named, absolute))
              | inr relative ↦ inr (
                on,
                λ x. ground (arith, x, named, ==_iff l.file ""),
                relative,
                ground (arith, n, on, named, relative),
              )
            ]
          ]
        ],
      )
    ],
  )
