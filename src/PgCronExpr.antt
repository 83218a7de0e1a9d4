-- ===== src/PgCronExpr.antt =====
-- crates/common/src/models/pg_cron_expr.rs: the cron expressions that a request may carry, and the
-- time of the next run (crates/api/src/handlers/jobs.rs).
-- The crates `cron`, `chrono_tz` and `chrono` are a parameter.
pub mod Laws
use Prim.Native.Char.{code}
use Prim.Native.String.{◌++◌}
use mathlib.Core.Path.{subst}
use invokr.Base.{
  ℕ, suc, ◌≡◌, refl, sym, String, Bool, true, false, not, ◌&&◌, Option, ◌==◌, eqb→eq, if◌then◌else◌,
}
use invokr.Base.Result.{Result, ok, err, IsOk, expect}
use invokr.Base.Text.{is_whitespace, show_nat}
use invokr.Errors.{AppError, invalid_cron}

pub record Calendar (Schedule Tz : Type 0) : Type 0 where
  -- `str::parse::<cron::Schedule>`, with the error as text.
  pub parse_schedule : String → Result String Schedule
  -- `str::parse::<chrono_tz::Tz>`.
  pub parse_timezone : String → Option Tz
  -- `Schedule::after(…).next()`, in the time zone, from and to UTC.
  pub upcoming : Schedule → Tz → ℕ → Option ℕ

-- The words that begin in a text, after a character of a word or not.
unfoldable pub words_after : Bool → String → ℕ
words_after inside String.[] = 0
words_after inside (String.◌∷◌ c s) =
    let blank = is_whitespace (code c) in
    let rest = words_after (not blank) s in if not blank && not inside then suc rest else rest

-- `split_whitespace().count()`.
abbrev pub field_count : String → ℕ
field_count s = words_after false s

-- The seven fields that the crate `cron` reads.
abbrev pub seven_fields : String → String
seven_fields value = "0 " ++ value ++ " *"

module _ {Schedule Tz : Type 0} (calendar : Calendar Schedule Tz) where
  -- The field of the struct is private: a value is made by `try_from` only, so it has been checked.
  pub record PgCronExpr : Type 0 where
    pub as_str : String
    pub five : field_count as_str ≡ 5
    pub valid : IsOk (calendar.parse_schedule (seven_fields as_str))

  abbrev pub to_seven_field : PgCronExpr → String
  to_seven_field e = seven_fields e.as_str

  -- `expect` has the proof that it does not panic.
  unfoldable pub to_schedule : PgCronExpr → Schedule
  to_schedule e = expect (calendar.parse_schedule (to_seven_field e)) e.valid

  abbrev pub parsed :
      (value : String)
      → field_count value ≡ 5
      → (r : Result String Schedule) → calendar.parse_schedule (seven_fields value) ≡ r
      → Result AppError PgCronExpr
  parsed value five (ok s) h =
      ok (record { as_str = value; five = five; valid = subst IsOk (sym h) tt })
  parsed value five (err text) h = err (invalid_cron text)

  abbrev pub counted :
      (value : String) (five : Bool) → field_count value == 5 ≡ five → Result AppError PgCronExpr
  counted value true h = parsed value (eqb→eq (field_count value) 5 h) _ refl
  counted value false h = err (
      invalid_cron (
        "Cron expression must have exactly 5 fields (min hour dom month dow), got "
        ++ show_nat (field_count value)))

  unfoldable pub try_from : String → Result AppError PgCronExpr
  try_from value = counted value (field_count value == 5) refl

  abbrev pub compute_next_cron : Schedule → Tz → ℕ → Option ℕ
  compute_next_cron schedule tz after = calendar.upcoming schedule tz after
