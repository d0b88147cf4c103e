-- ===== src/AprCalculator.antt =====
-- app/processors/apr_calculator.py: the funding rate maths, on floats that are parameters.
use funding_radar.Base.{ℕ, Option, none, some, Result, ok, raise, value_error, ◌>>=◌, if◌then◌else◌}
use funding_radar.Base.Int.{ℤ, pos, leb_ℤ}
use funding_radar.Base.Float.{Floats, lt, num, is_zero, divide}

module _ (F : Floats) where
  open F use {Num, of_int, add, sub, mul, quot, le, round}

  unfoldable pub funding_to_8h : Num → ℤ → Result Num
  unfolding divide
  funding_to_8h rate interval_hours =
      if leb_ℤ interval_hours (pos 0)
      then raise value_error
      else (do ratio ← divide F (num F 8) (of_int interval_hours); ok (mul rate ratio))

  unfoldable pub funding_to_apr : Num → Num
  funding_to_apr rate_8h = mul (mul (mul rate_8h (num F 3)) (num F 365)) (num F 100)

  -- the divisor is the int 3 * 365 * 100
  unfoldable pub apr_to_8h_rate : Num → Num
  apr_to_8h_rate apr = quot apr (num F 109500)

  unfoldable pub funding_to_daily : Num → Num
  funding_to_daily rate_8h = mul rate_8h (num F 3)

  unfoldable pub annualise : Num → ℤ → Result Num
  unfolding funding_to_apr funding_to_8h
  annualise rate interval_hours = do
    rate_8h ← funding_to_8h rate interval_hours
    ok (funding_to_apr rate_8h)

  unfoldable pub round_trip_fee_apr : Num → Num
  round_trip_fee_apr taker_fee_pct = mul taker_fee_pct (num F 4)

  unfoldable pub entry_exit_fee_pct : Num → Num → Num
  entry_exit_fee_pct taker_fee_pct_a taker_fee_pct_b = add taker_fee_pct_a taker_fee_pct_b

  pub record Pnl : Type 0 where
    pub gross_pnl_usd : Num
    pub entry_fee_usd : Num
    pub exit_fee_usd : Num
    pub net_pnl_usd : Num
    pub net_apr : Num
    pub breakeven_days : Option Num

  -- `round(x, n) if x else None` of an optional float: zero is falsy.
  unfoldable pub rounded_or_none : ℕ → Option Num → Option Num
  rounded_or_none digits none = none
  rounded_or_none digits (some x) = if is_zero F x then none else some (round x digits)

  -- `a / b * ...` by an int constant that is not zero
  abbrev pub percent : Num → Num
  percent x = quot x (num F 100)

  unfoldable pub breakeven : Num → Num → Option Num
  breakeven total_fees_usd daily_yield_usd =
      if lt F (num F 0) daily_yield_usd then some (quot total_fees_usd daily_yield_usd) else none

  unfoldable pub realised_apr : Num → Num → Num → Result Num
  unfolding divide
  realised_apr net_pnl_usd capital_usd days =
      if lt F (num F 0) days
      then (do
        yield ← divide F net_pnl_usd capital_usd
        ok (mul (mul yield (quot (num F 365) days)) (num F 100)))
      else ok (num F 0)

  unfoldable pub calculate_pnl : Num → Num → Num → Num → Num → Result Pnl
  unfolding realised_apr breakeven rounded_or_none
  calculate_pnl funding_apr capital_usd days entry_fee_pct exit_fee_pct =
      let gross = mul (mul (percent funding_apr) capital_usd) (quot days (num F 365)) in
      let entry_fee = mul (percent entry_fee_pct) capital_usd in
      let exit_fee = mul (percent exit_fee_pct) capital_usd in
      let net = sub (sub gross entry_fee) exit_fee in
      let daily_yield = quot (mul (percent funding_apr) capital_usd) (num F 365) in
      let breakeven_days = breakeven (add entry_fee exit_fee) daily_yield in
      do
        net_apr ← realised_apr net capital_usd days
        ok (record {
          gross_pnl_usd = round gross 4;
          entry_fee_usd = round entry_fee 4;
          exit_fee_usd = round exit_fee 4;
          net_pnl_usd = round net 4;
          net_apr = round net_apr 4;
          breakeven_days = rounded_or_none 2 breakeven_days;
        })

  -- 365 * 24 hours; a positive APR may still be so small that the hourly yield is zero.
  unfoldable pub calculate_breakeven_hours : Num → Num → Result (Option Num)
  unfolding divide
  calculate_breakeven_hours funding_apr total_fee_pct =
      if le funding_apr (num F 0)
      then ok none
      else (do hours ← divide F total_fee_pct (quot funding_apr (num F 8760)); ok (some hours))
