-- ===== src/PgCronExpr/Laws.antt =====
-- Which texts are cron expressions (crates/common/src/models/pg_cron_expr.rs).
use native.Mathlib.Nat.{ℕ_set}
use invokr.Base.{◌≡◌, refl, ap, ◌∙◌, ◌↔◌, String, Bool, true, false, ◌==◌, arith}
use invokr.Base.Result.{Result, ok, err, IsOk, IsOk-eq}
use invokr.PgCronExpr.{Calendar, PgCronExpr, field_count, seven_fields, parsed, counted, try_from}

module _ {Schedule Tz : Type 0} (calendar : Calendar Schedule Tz) where
  abbrev Parses : String → Type 0
  Parses value = IsOk (calendar.parse_schedule (seven_fields value))

  abbrev make : (t : String) → field_count t ≡ 5 → Parses t → PgCronExpr calendar
  make t five valid = record { as_str = t; five = five; valid = valid }

  -- A checked expression is its text.
  make-eq : (t : String) (p q : field_count t ≡ 5) (v w : Parses t) → make t p v ≡ make t q w
  make-eq t p q v w =
      ap (λ f. make t f v) (ℕ_set _ _ p q)
      ∙ ap (make t q) (IsOk-eq (calendar.parse_schedule (seven_fields t)) v w)

  parsed-ok :
      (t : String) (five : field_count t ≡ 5) (valid : Parses t) (r : Result String Schedule)
      (h : calendar.parse_schedule (seven_fields t) ≡ r)
      → parsed calendar t five r h ≡ ok (make t five valid)
  parsed-ok t five valid (ok s) h = ap ok (make-eq t five five _ valid)
  parsed-ok t five valid (err m) h = absurd (rw h at valid)

  counted-make :
      (t : String) (five : field_count t ≡ 5) (valid : Parses t) (b : Bool)
      (h : field_count t == 5 ≡ b)
      → counted calendar t b h ≡ ok (make t five valid)
  counted-make t five valid true h =
      parsed-ok t _ valid _ refl ∙ ap ok (make-eq t _ five valid valid)
  counted-make t five valid false h = absurd (ground arith)

  -- What was checked once is read back as it was: an update that keeps the expression of a job that
  -- `create` stored does not fail on it.
  try_from-as_str : (e : PgCronExpr calendar) → try_from calendar e.as_str ≡ ok e
  unfolding try_from
  try_from-as_str e = counted-make e.as_str e.five e.valid _ refl

  parsed-as_str :
      (t : String) (five : field_count t ≡ 5) (r : Result String Schedule)
      (h : calendar.parse_schedule (seven_fields t) ≡ r) (e : PgCronExpr calendar)
      → parsed calendar t five r h ≡ ok e
      → t ≡ e.as_str
  parsed-as_str t five (ok s) h e same = cc
  parsed-as_str t five (err m) h e same = absurd cc

  counted-as_str :
      (t : String) (b : Bool) (h : field_count t == 5 ≡ b) (e : PgCronExpr calendar)
      → counted calendar t b h ≡ ok e
      → t ≡ e.as_str
  counted-as_str t true h e same = parsed-as_str t _ _ refl e same
  counted-as_str t false h e same = absurd cc

  -- A text is accepted as a cron expression, and unchanged, exactly when it has five fields and the
  -- crate `cron` parses it between a second `0` and a year `*`.
  try_from_iff :
      (value : String)
      → ((e : PgCronExpr calendar) × (try_from calendar value ≡ ok e) × (e.as_str ≡ value))
        ↔ ((field_count value ≡ 5) × IsOk (calendar.parse_schedule (seven_fields value)))
  unfolding try_from
  try_from_iff value = (
    λ accepted. (rw (← accepted.2) accepted.0.five, rw (← accepted.2) accepted.0.valid),
    λ fit. (make value fit.0 fit.1, counted-make value fit.0 fit.1 _ refl, refl),
  )
