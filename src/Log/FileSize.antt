-- ===== src/Log/FileSize.antt =====
-- How large the rollover of src/log.c lets the log file grow.
use emme.Prelude.{
  ◌+◌, ◌-◌, ◌^◌, ◌<◌, ◌≤◌, ◌≡◌, refl, sym, ◌∙◌, true, false, ◌||◌, List, Bytes, length, arith, ◌⊎◌,
  inl, inr, length-take, Bool-cases, ap,
}
use native.Mathlib.Nat.{mod-eq_of_lt}
use emme.Config.Types.{LoggingConfig}
use emme.Log.Entry.{LocalTime, LogEntry, format_message, line_of, formatted_size}
use emme.Log.File.{
  LogFile, Action, Moment, append_entry, check_rollover, rollover_log_file, put_line, is_too_large,
  is_other_day,
}

format_message-short :
    (t : LocalTime) (config : LoggingConfig) (e : LogEntry)
    → length (format_message t config.format e) < formatted_size
unfolding format_message
format_message-short t config e =
    omega (arith, length-take (formatted_size - 1) (line_of t config.format e))

-- The size that the logger counts is that of the file.
abbrev pub IsCounted : LogFile → Type 0
IsCounted f = f.bytes_on_disk ≡ f.current_file_size

-- Behind the check the file is empty, or the line fits.
check_rollover-room :
    (t : LocalTime) (config : LoggingConfig) (m : Moment) (text : Bytes) (f : LogFile)
    → 0 < config.rollover_size
    → config.appender_file ≡ true
    → m.renamed ≡ true
    → f.current_file_size + length text < 2 ^ 64
    → let f' = (check_rollover t config m text f).1 in
      ((f'.current_file_size ≡ 0) × (f'.bytes_on_disk ≡ 0))
      ⊎ ((f' ≡ f) × (f.current_file_size + length text < config.rollover_size))
unfolding check_rollover rollover_log_file is_too_large
check_rollover-room t config m text f some_size file moved small =
    elim (Bool-cases (is_too_large config text f || is_other_day t config m.now f)) [
      | inl e ↦ rw (file, e, moved) (inl (refl, refl))
      | inr e ↦ rw (file, e) (inr (refl, ground (arith, e, mod-eq_of_lt small)))
    ]

-- A line in a file whose size is counted
put_line-IsCounted :
    (text : Bytes) (done : List Action) (f : LogFile)
    → IsCounted f
    → f.current_file_size + length text < 2 ^ 64
    → let f' = (put_line text (done, f)).1 in
      IsCounted f' × (f'.bytes_on_disk ≤ f.bytes_on_disk + length text)
unfolding put_line
put_line-IsCounted text done f counted small = ground (arith, mod-eq_of_lt small, counted)

append_entry-file :
    (t : LocalTime) (config : LoggingConfig) (m : Moment) (e : LogEntry) (f : LogFile)
    → config.appender_file ≡ true
    → let text = format_message t config.format e in
      (append_entry t config m e f).1 ≡ (put_line text (check_rollover t config m text f)).1
unfolding append_entry
append_entry-file t config m e f file = ground (arith, file)

-- Where rename succeeds, writing an entry keeps the size that the logger counts equal to the bytes of the log file,
-- and leaves that file below the rollover size or with that entry's line alone in it, and longer by one line at
-- most. The size was below 2^63 before, and the file rolls over by size.
pub append_entry-small :
    (t : LocalTime) (config : LoggingConfig) (m : Moment) (e : LogEntry) (f : LogFile)
    → 0 < config.rollover_size
    → config.appender_file ≡ true
    → m.renamed ≡ true
    → IsCounted f
    → f.current_file_size < 2 ^ 63
    → let text = format_message t config.format e in
      let f' = (append_entry t config m e f).1 in
      IsCounted f'
      × (f'.bytes_on_disk ≤ f.bytes_on_disk + length text)
      × ((f'.bytes_on_disk ≤ length text) ⊎ (f'.bytes_on_disk < config.rollover_size))
append_entry-small t config m e f some_size file moved counted small =
    let text = format_message t config.format e in
    let short = format_message-short t config e in
    let r = check_rollover t config m text f in
    rw (append_entry-file t config m e f file)
      (elim (check_rollover-room t config m text f some_size file moved
        (omega (arith, short, small))) [
          | inl (z, d) ↦
              (let (kept, size) =
                  put_line-IsCounted text r.0 r.1 (d ∙ sym z) (omega (arith, z, short)) in
                (kept, omega (arith, size, d), inl (omega (arith, size, d))))
          | inr (z, fits) ↦
              (let same = ap (λ (g : LogFile). g.current_file_size) z in
                let disk = ap (λ (g : LogFile). g.bytes_on_disk) z in
                let (kept, size) =
                  put_line-IsCounted text r.0 r.1 (disk ∙ counted ∙ sym same)
                    (omega (arith, same, short, small)) in
                (kept, omega (arith, size, disk), inr (omega (arith, disk, counted, size, fits))))
        ])

-- A rename that fails leaves all bytes in the file, behind which the logger then counts from zero.
failed_rename :
    (t : LocalTime) (config : LoggingConfig) (m : Moment) (f : LogFile)
    → config.appender_file ≡ true
    → m.renamed ≡ false
    → let f' = (rollover_log_file t config m f).1 in
      (f'.bytes_on_disk ≡ f.bytes_on_disk) × (f'.current_file_size ≡ 0)
unfolding rollover_log_file
failed_rename t config m f file lost = rw (file, lost) (refl, refl)
