-- ===== src/Logging/Handlers.antt =====
-- shared/logging/ecs.py: the root logger that `configure_logging` leaves. The directory of the log
-- file and the file itself are taken to open.
use rules_enrichment_daemon.Prelude.{
  ℕ, String, ◌≡◌, refl, Option, none, some, List, [], ◌∷◌, ◌++◌, if◌then◌else◌,
}
use rules_enrichment_daemon.Bootstrap.Config.{Settings}

pub data Formatter : Type 0 where
  -- `ecs_logging.StdlibFormatter()`
  ecs : Formatter
  plain : (format : String) → Formatter

pub data Handler : Type 0 where
  stream : Formatter → Handler
  file : (path : String) → Formatter → Handler

pub record RootLogger : Type 0 where
  pub level : ℕ
  pub handlers : List Handler

abbrev pub formatter_of : Settings → Formatter
formatter_of s =
    if s.log_ecs_enabled then ecs else plain "%(asctime)s %(levelname)s %(name)s %(message)s"

abbrev add_handler : Handler → RootLogger → RootLogger
add_handler h root = record root { handlers = root.handlers ++ h ∷ [] }

-- `getattr(logging, name, logging.INFO)`
abbrev pub level_or_info : Option ℕ → ℕ
level_or_info none = 20
level_or_info (some n) = n

-- `configure_logging`; `level` reads a name of the module `logging`
unfoldable pub configure_logging :
    (upper : String → String) → (level : String → Option ℕ) → Settings → RootLogger → RootLogger
configure_logging upper level s root =
    let cleared : RootLogger = record {
      level = level_or_info (level (upper s.log_level));
      handlers = [];
    } in
    let streamed =
      if s.log_to_stdout then add_handler (stream (formatter_of s)) cleared else cleared in
    if s.log_to_file then add_handler (file s.log_file_path (formatter_of s)) streamed else streamed

-- Configuring again, as each `Bootstrap` does, leaves what configuring once leaves, whatever was
-- configured before.
configure_logging-configure_logging :
    (upper : String → String) (level : String → Option ℕ) (s t : Settings) (root : RootLogger)
    → configure_logging upper level s (configure_logging upper level t root)
      ≡ configure_logging upper level s root
unfolding configure_logging
configure_logging-configure_logging upper level s t root = refl
