-- ===== src/Log/Whole.antt =====
-- The snprintf of src/log.c into `formatted_message` cuts no line.
use emme.Prelude.{
  take_all, ℕ, suc, ◌+◌, ◌-◌, ◌/◌, ◌<◌, ◌≤◌, ◌≡◌, refl, ltb, [], Bytes, length, arith, inl, inr,
  Bool-cases, length-append, print_decimal, digits_before, Timespec, ltb→lt,
}
use emme.Config.Types.{
  LogFormat, plain, json, LogLevel, level_debug, level_info, level_warn, level_error,
}
use emme.Log.Entry.{
  LocalTime, LogEntry, format_message, line_of, print_time, print_millis, level_number,
  max_log_entry_size, formatted_size,
}

digits_small :
    (fuel n : ℕ) (text : Bytes)
    → n < 1000
    → length (digits_before (suc (suc (suc fuel))) n text) ≤ length text + 3
unfolding digits_before
digits_small fuel n text h = ground arith

digit_length :
    (fuel n : ℕ) (text : Bytes)
    → n < 10
    → length (digits_before (suc fuel) n text) ≡ suc (length text)
unfolding digits_before
digit_length fuel n text h = ground arith

two_digits :
    (fuel n : ℕ) (text : Bytes)
    → n < 100
    → length (digits_before (suc (suc fuel)) n text) ≤ length text + 2
unfolding digits_before
two_digits fuel n text h = ground arith

print_millis-short : (n : ℕ) → n < 1000 → length (print_millis n) ≤ 3
unfolding print_millis print_decimal
print_millis-short n h = elim (Bool-cases (ltb n 10)) [
  | inl e ↦ rw e (omega (arith, digit_length 19 n [] (ltb→lt n 10 e)))
  | inr e ↦ elim (Bool-cases (ltb n 100)) [
    | inl e' ↦ rw (e, e') (omega (arith, two_digits 18 n [] (ltb→lt n 100 e')))
    | inr e' ↦ rw (e, e') (digits_small 17 n [] h)
  ]
]

level-short : (level : LogLevel) → length (print_decimal (level_number level)) ≡ 1
unfolding print_decimal digits_before
level-short level_debug = refl
level-short level_info = refl
level-short level_warn = refl
level-short level_error = refl

print_time-short :
    (t : LocalTime) (at : Timespec)
    → length (t.message_time at.tv_sec) < 64
    → at.tv_nsec < 1000000000
    → length (print_time t at) < 68
unfolding print_time
print_time-short t at h n =
    let millis = print_millis-short (at.tv_nsec / 1000000) (omega (arith, n)) in
    simp length-append (omega (arith, millis, h))

line_of-short :
    (t : LocalTime) (format : LogFormat) (e : LogEntry)
    → length (print_time t e.timestamp) < 68
    → length e.message < max_log_entry_size
    → length (line_of t format e) < formatted_size
unfolding line_of
line_of-short t plain e h m = simp length-append (omega (arith, h, m, level-short e.level))
line_of-short t json e h m = simp length-append (omega (arith, h, m, level-short e.level))

-- A line has room for the whole message, the time, the level and what stands around them, where the message
-- has been cut by `log_message`, strftime has filled no more than its buffer of 64 bytes and the nanoseconds
-- are below a second; so each line ends as the format says, with a newline.
pub format_message-line_of :
    (t : LocalTime) (format : LogFormat) (e : LogEntry)
    → length (t.message_time e.timestamp.tv_sec) < 64
    → e.timestamp.tv_nsec < 1000000000
    → length e.message < max_log_entry_size
    → format_message t format e ≡ line_of t format e
unfolding format_message
format_message-line_of t format e h n m =
    take_all (formatted_size - 1) (line_of t format e)
      (omega (arith, line_of-short t format e (print_time-short t e.timestamp h n) m))
