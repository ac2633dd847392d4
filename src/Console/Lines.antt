-- ===== src/Console/Lines.antt =====
-- The lines that the four methods of the logger write.
use ddd_samples.Prelude.{
  ℕ, String, ◌+++◌, insert_text, str_eq, ◌≡◌, refl, ap, ◌∙◌, false, Option, none, some, List, [],
  ◌∷◌, map, ◌++◌, append_assoc, append-nil, All,
}
use ddd_samples.Value.{Uuid}
use ddd_samples.World.{LogLevel, debug_level, info_level, warning_level, error_level}
use ddd_samples.Console.{
  LogEntry, Streams, Platform, with_context, with_correlation_id, level_str, join, format, with_all,
  contextual, correlated, context_str, entry_of, debug, info, warn, error,
}
use ddd_samples.Console

-- The method of `Logger` for a level.
abbrev pub method :
    Platform
    → LogLevel
    → String
    → String
    → Option Uuid
    → Option (List (String × String))
    → Streams
    → Streams
method platform debug_level = debug platform
method platform info_level = info platform
method platform warning_level = warn platform
method platform error_level = error platform

-- One line more on the stream of the level, and nothing on the other.
abbrev pub Written : LogLevel → String → Streams → Streams → Type 0
Written error_level line s s' = (s'.stdout ≡ s.stdout) × (s'.stderr ≡ s.stderr ++ line ∷ [])
Written _ line s s' = (s'.stdout ≡ s.stdout ++ line ∷ []) × (s'.stderr ≡ s.stderr)

-- The keys of the second list are new to the first, and differ from each other.
abbrev pub IsFresh : List (String × String) → List (String × String) → Type 0
IsFresh m [] = Unit
IsFresh m ((k, v) ∷ kvs) = All (λ e. str_eq e.0 k ≡ false) m × IsFresh (m ++ (k, v) ∷ []) kvs

-- The parts of a line.
abbrev bracket : String → String
bracket s = "[" +++ s +++ "]"

-- The name of a level.
abbrev pub word : LogLevel → String
word error_level = "ERROR"
word warning_level = "WARN"
word info_level = "INFO"
word debug_level = "DEBUG"

-- Pairs as `key=value`, with commas between them.
abbrev pub listed : List (String × String) → String
listed [] = ""
listed ((key, value) ∷ []) = key +++ "=" +++ value
listed ((key, value) ∷ next ∷ rest) = (key +++ "=" +++ value) +++ ", " +++ listed (next ∷ rest)

level_str-word : (level : LogLevel) → level_str level ≡ word level
level_str-word debug_level = refl
level_str-word info_level = refl
level_str-word warning_level = refl
level_str-word error_level = refl

join-listed :
    (es : List (String × String)) → join ", " (map (λ e. e.0 +++ "=" +++ e.1) es) ≡ listed es
join-listed [] = refl
join-listed (e ∷ []) = refl
join-listed (e ∷ e' ∷ es) =
    ap (λ rest. (e.0 +++ "=" +++ e.1) +++ ", " +++ rest) (join-listed (e' ∷ es))

module _ (platform : Platform) where
  abbrev pub tail : String → List (String × String) → String
  tail message [] = message
  tail message (e ∷ es) = message +++ " " +++ bracket (listed (platform.walk (e ∷ es)))

  abbrev pub tagged : Option Uuid → String → String
  tagged none rest = rest
  tagged (some i) rest = ("[correlation_id: " +++ platform.show_uuid i +++ "]") +++ " " +++ rest

  abbrev pub pairs_of : Option (List (String × String)) → List (String × String)
  pairs_of none = []
  pairs_of (some ctx) = platform.walk ctx

  -- The line of a call: time, level, component, the correlation identifier if there is one, the
  -- message, and the pairs if there are any.
  abbrev pub line : ℕ → LogLevel → String → String → Option Uuid → List (String × String) → String
  line ticks level component message i pairs =
      bracket (platform.show_time (platform.now ticks))
      +++ " "
      +++ (bracket (word level)
          +++ " "
          +++ (bracket component +++ " " +++ tagged i (tail message pairs)))

insert_text_fresh :
    (k v : String) (m : List (String × String))
    → All (λ e. str_eq e.0 k ≡ false) m
    → insert_text k v m ≡ m ++ (k, v) ∷ []
insert_text_fresh k v [] h = refl
insert_text_fresh k v (e ∷ m) h = rw h.0 (ap (◌∷◌ e) (insert_text_fresh k v m h.1))

module _ (platform : Platform) where
  with_all_fresh :
      (kvs : List (String × String)) (entry : LogEntry)
      → IsFresh entry.additional_context kvs
      → with_all platform kvs entry
        ≡ record entry { additional_context = entry.additional_context ++ kvs }
  unfolding with_context
  with_all_fresh [] entry h = rw append-nil refl
  with_all_fresh ((k, v) ∷ kvs) entry h =
      let m = entry.additional_context in
      let first = insert_text_fresh k v m h.0 in
      let next : LogEntry = record entry { additional_context = m ++ (k, v) ∷ [] } in
      ap (λ c. with_all platform kvs (record entry { additional_context = c })) first
      ∙ with_all_fresh kvs next h.1
      ∙ ap (λ c. record entry { additional_context = c }) (append_assoc m ((k, v) ∷ []) kvs)

  -- The entry of a call.
  abbrev full : LogLevel → String → String → Option Uuid → List (String × String) → ℕ → LogEntry
  full level component message i pairs ticks = record {
    timestamp = platform.now ticks;
    level = level;
    message = message;
    correlation_id = i;
    component = component;
    execution_time = none;
    additional_context = pairs;
  }

  correlated-new :
      (level : LogLevel) (component message : String) (i : Option Uuid) (ticks : ℕ)
      → correlated platform i (Console.new (platform.now ticks) level message component)
        ≡ full level component message i [] ticks
  unfolding with_correlation_id
  correlated-new level component message none ticks = refl
  correlated-new level component message (some i) ticks = refl

  entry_of-full :
      (level : LogLevel) (component message : String) (i : Option Uuid)
      (context : Option (List (String × String))) (ticks : ℕ)
      → IsFresh [] (pairs_of platform context)
      → entry_of platform level component message i context ticks
        ≡ full level component message i (pairs_of platform context) ticks
  entry_of-full level component message i none ticks h =
      correlated-new level component message i ticks
  entry_of-full level component message i (some ctx) ticks h =
      ap (with_all platform (platform.walk ctx)) (correlated-new level component message i ticks)
      ∙ with_all_fresh (platform.walk ctx) (full level component message i [] ticks) h

  format-full :
      (level : LogLevel) (component message : String) (i : Option Uuid)
      (pairs : List (String × String)) (ticks : ℕ)
      → format platform (full level component message i pairs ticks)
        ≡ line platform ticks level component message i pairs
  unfolding format
  format-full level component message none [] ticks = rw (level_str-word level) refl
  format-full level component message none (e ∷ es) ticks =
      rw (level_str-word level, join-listed (platform.walk (e ∷ es))) refl
  format-full level component message (some i) [] ticks = rw (level_str-word level) refl
  format-full level component message (some i) (e ∷ es) ticks =
      rw (level_str-word level, join-listed (platform.walk (e ∷ es))) refl

  call_line :
      (level : LogLevel) (component message : String) (i : Option Uuid)
      (context : Option (List (String × String))) (ticks : ℕ)
      → IsFresh [] (pairs_of platform context)
      → format platform (entry_of platform level component message i context ticks)
        ≡ line platform ticks level component message i (pairs_of platform context)
  call_line level component message i context ticks h =
      ap (format platform) (entry_of-full level component message i context ticks h)
      ∙ format-full level component message i (pairs_of platform context) ticks

  -- Each of the four methods of the logger writes one line, to the standard error for `error` and
  -- to the standard output for the others, and nothing to the other stream. The line has the time,
  -- the level as DEBUG, INFO, WARN or ERROR, the component, the correlation identifier if there is
  -- one, the message, and the pairs of the context, each as `key=value`, if there are any; the keys
  -- of the context as it is walked are distinct, as those of a `HashMap` are.
  pub method-Written :
      (level : LogLevel) (component message : String) (i : Option Uuid)
      (context : Option (List (String × String))) (s : Streams)
      → IsFresh [] (pairs_of platform context)
      → Written level
          (line platform s.ticks level component message i (pairs_of platform context))
          s
          (method platform level component message i context s)
  unfolding debug info warn error
  method-Written debug_level component message i context s h = (
    ap (λ x. s.stdout ++ x ∷ []) (call_line debug_level component message i context s.ticks h),
    refl,
  )
  method-Written info_level component message i context s h = (
    ap (λ x. s.stdout ++ x ∷ []) (call_line info_level component message i context s.ticks h),
    refl,
  )
  method-Written warning_level component message i context s h = (
    ap (λ x. s.stdout ++ x ∷ []) (call_line warning_level component message i context s.ticks h),
    refl,
  )
  method-Written error_level component message i context s h = (
    refl,
    ap (λ x. s.stderr ++ x ∷ []) (call_line error_level component message i context s.ticks h),
  )
