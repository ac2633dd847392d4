-- ===== src/Console.antt =====
-- `ConsoleLogger` of adapter/driven/console_logger.rs. The state is what the process has written,
-- a line at a time.
pub mod Lines
use ddd_samples.Prelude.{
  ℕ, suc, ⊤, String, ◌+++◌, insert_text, Option, none, some, List, [], ◌∷◌, ◌++◌, map, is_empty,
  not, if◌then◌else◌,
}
use ddd_samples.Value.{Uuid}
use ddd_samples.World.{LogLevel, debug_level, info_level, warning_level, error_level}

-- `LogEntry` of the adapter.
pub record LogEntry : Type 0 where
  pub timestamp : ℕ
  pub level : LogLevel
  pub message : String
  pub correlation_id : Option Uuid
  pub component : String
  pub execution_time : Option ℕ
  pub additional_context : List (String × String)

pub record Streams : Type 0 where
  pub stdout : List String
  pub stderr : List String
  pub ticks : ℕ  -- how often the clock was read

-- The clock, the texts of other crates, and the order in which a `HashMap` is walked.
pub record Platform : Type 0 where
  pub now : ℕ → ℕ
  pub show_time : ℕ → String
  pub show_uuid : Uuid → String
  pub debug_duration : ℕ → String
  pub walk : List (String × String) → List (String × String)

-- `LogEntry::new`, at a reading of the clock.
abbrev pub new : ℕ → LogLevel → String → String → LogEntry
new now level message component = record {
  timestamp = now;
  level = level;
  message = message;
  correlation_id = none;
  component = component;
  execution_time = none;
  additional_context = [];
}

-- `LogEntry::with_correlation_id`
unfoldable pub with_correlation_id : Uuid → LogEntry → LogEntry
with_correlation_id correlation_id self = record self { correlation_id = some correlation_id }

-- `LogEntry::with_execution_time`
unfoldable pub with_execution_time : ℕ → LogEntry → LogEntry
with_execution_time execution_time self = record self { execution_time = some execution_time }

-- `LogEntry::with_context`
unfoldable pub with_context : String → String → LogEntry → LogEntry
with_context key value self = record self {
  additional_context = insert_text key value self.additional_context;
}

abbrev pub level_str : LogLevel → String
level_str debug_level = "DEBUG"
level_str info_level = "INFO"
level_str warning_level = "WARN"
level_str error_level = "ERROR"

abbrev pub join : String → List String → String
join separator [] = ""
join separator (s ∷ []) = s
join separator (s ∷ t ∷ rest) = s +++ separator +++ join separator (t ∷ rest)

abbrev pub push_if : {A : Type 0} → (A → String) → Option A → List String → List String
push_if f none parts = parts
push_if f (some a) parts = parts ++ f a ∷ []

module _ (platform : Platform) where
  abbrev pub context_str : List (String × String) → String
  context_str context = join ", " (map (λ e. e.0 +++ "=" +++ e.1) (platform.walk context))

  -- `LogEntry::format`
  unfoldable pub format : LogEntry → String
  format self =
      let head : List String =
        ("[" +++ platform.show_time self.timestamp +++ "]")
        ∷ ("[" +++ level_str self.level +++ "]")
        ∷ ("[" +++ self.component +++ "]")
        ∷ [] in
      let correlated =
        push_if (λ i. "[correlation_id: " +++ platform.show_uuid i +++ "]") self.correlation_id
          head in
      let timed =
        push_if (λ t. "[execution_time: " +++ platform.debug_duration t +++ "]") self.execution_time
          correlated in
      let parts = timed ++ self.message ∷ [] in
      join " " (
        if not (is_empty self.additional_context)
        then parts ++ ("[" +++ context_str self.additional_context +++ "]") ∷ []
        else parts)

  -- `if let Some(corr_id) = correlation_id { entry = entry.with_correlation_id(corr_id); }`
  abbrev pub correlated : Option Uuid → LogEntry → LogEntry
  correlated none entry = entry
  correlated (some corr_id) entry = with_correlation_id corr_id entry

  -- `for (key, value) in ctx { entry = entry.with_context(key, value); }`
  abbrev pub with_all : List (String × String) → LogEntry → LogEntry
  with_all [] entry = entry
  with_all ((key, value) ∷ ctx) entry = with_all ctx (with_context key value entry)

  abbrev pub contextual : Option (List (String × String)) → LogEntry → LogEntry
  contextual none entry = entry
  contextual (some ctx) entry = with_all (platform.walk ctx) entry

  -- The entry that a call of the logger at this level makes.
  abbrev pub entry_of :
      LogLevel → String → String → Option Uuid → Option (List (String × String)) → ℕ → LogEntry
  entry_of level component message correlation_id context ticks =
      contextual context
        (correlated correlation_id (new (platform.now ticks) level message component))

  abbrev print : LogEntry → Streams → Streams
  print entry s = record s { stdout = s.stdout ++ format entry ∷ []; ticks = suc s.ticks }

  abbrev eprint : LogEntry → Streams → Streams
  eprint entry s = record s { stderr = s.stderr ++ format entry ∷ []; ticks = suc s.ticks }

  -- `Logger::debug`
  unfoldable pub debug :
      String → String → Option Uuid → Option (List (String × String)) → Streams → Streams
  debug component message i ctx s = print (entry_of debug_level component message i ctx s.ticks) s

  -- `Logger::info`
  unfoldable pub info :
      String → String → Option Uuid → Option (List (String × String)) → Streams → Streams
  info component message i ctx s = print (entry_of info_level component message i ctx s.ticks) s

  -- `Logger::warn`
  unfoldable pub warn :
      String → String → Option Uuid → Option (List (String × String)) → Streams → Streams
  warn component message i ctx s = print (entry_of warning_level component message i ctx s.ticks) s

  -- `Logger::error`
  unfoldable pub error :
      String → String → Option Uuid → Option (List (String × String)) → Streams → Streams
  error component message i ctx s = eprint (entry_of error_level component message i ctx s.ticks) s
