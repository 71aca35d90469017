-- ===== src/Logger.antt =====
-- src/logger.h and src/logger.cpp: log lines, which go to `clog` or nowhere.
use distributed_memory.Prelude.{
  ◌≡◌, ◌≢◌, refl, arith, nat_beq, Bool, true, false, Bool-cases, inl, inr, [], ◌∷◌, ◌++◌, Text,
  codes, if◌then◌else◌,
}

-- LogLevel of type.h
pub data LogLevel : Type 0 where
  log_debug log_info log_error : LogLevel

-- `level >= LOG_LEVEL`
abbrev pub reaches : LogLevel → LogLevel → Bool
reaches log_debug log_debug = true
reaches log_debug _ = false
reaches log_info log_error = false
reaches log_info _ = true
reaches log_error _ = true

unfoldable pub level_name : LogLevel → Text
level_name log_debug = codes "debug"
level_name log_info = codes "info"
level_name log_error = codes "error"

-- What was written to `clog`, and whether the stream of the logger has a buffer to write to.
pub record Log : Type 0 where
  pub clog : Text
  pub has_buffer : Bool

-- `logstream << t`
unfoldable pub put_text : Text → Log → Log
put_text t l = if l.has_buffer then record l { clog = l.clog ++ t } else l

-- `time_string.erase( time_string.find('\n', 0), 1 )`, for a text with a newline.
unfoldable pub without_newline : Text → Text
without_newline [] = []
without_newline (b ∷ t) = let rest = without_newline t in if nat_beq b 10 then t else b ∷ rest

-- Logger::log, with the threshold LOG_LEVEL and the text of the time; what a caller puts into the
-- stream that it returns is put behind.
unfoldable pub log : LogLevel → LogLevel → Text → Log → Log
unfolding level_name put_text without_newline
log threshold level now l =
    put_text
      (codes "["
        ++ (without_newline now ++ (codes "] " ++ (codes "[" ++ (level_name level ++ codes "] ")))))
      (record l { has_buffer = reaches level threshold })

module _ (threshold : LogLevel) (now : Text) where
  -- Logger::debug
  unfoldable pub debug : Log → Log
  unfolding log
  debug l = log threshold log_debug now l

  -- Logger::info
  unfoldable pub info : Log → Log
  unfolding log
  info l = log threshold log_info now l

  -- Logger::error
  unfoldable pub error : Log → Log
  unfolding log
  error l = log threshold log_error now l

abbrev pub NoNewline : Text → Type 0
NoNewline [] = Unit {0}
NoNewline (b ∷ t) = (b ≢ 10) × NoNewline t

cut_end : (t : Text) → NoNewline t → without_newline (t ++ codes "\n") ≡ t
unfolding without_newline
cut_end [] h = refl
cut_end (b ∷ t) h = ground (arith, cut_end t h.1, h.0)

-- A message at a level that reaches the threshold is written to `clog` behind the time and the name of
-- its level; one at a lower level writes nothing, whatever was logged before.
pub log_lem :
    (threshold level : LogLevel) (now message : Text) (l : Log)
    → NoNewline now
    → (put_text message (log threshold level (now ++ codes "\n") l)).clog ≡ (
        if reaches level threshold
        then (l.clog
            ++ (codes "["
                ++ (now ++ (codes "] " ++ (codes "[" ++ (level_name level ++ codes "] "))))))
          ++ message
        else l.clog)
unfolding log put_text
log_lem threshold level now message l h =
    rw (cut_end now h)
      (elim (Bool-cases (reaches level threshold)) [ inl t ↦ rw t refl | inr f ↦ rw f refl ])
