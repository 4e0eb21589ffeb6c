-- ===== src/Ledger/Income.antt =====
-- core/ledger.py: what `estimate_velocity` measures.
use resin_compute.Base.{
  ℕ, suc, ◌+◌, ◌*◌, ◌<◌, ◌≡◌, Bool, ◌&&◌, some, List, [], ◌∷◌, arith, if◌then◌else◌,
}
use resin_compute.Base.Int.{ℤ, pos, pos_part, ◌-ℤ◌, ltb_ℤ, leb_ℤ}
use resin_compute.Clock.{Moment, as_utc}
use resin_compute.Types.{
  CurrencyKind, primogem, intertwined_fate, LedgerEntry, CurrencyLedger, same_currency,
}
use resin_compute.Ledger.{
  WindowIncome, zero_velocity, in_window, add_sample, income_from, estimate_velocity, day_length,
}

-- An entry that counts: income whose time is neither before the start nor after the end.
abbrev pub is_income : (start end : ℤ) → LedgerEntry → Bool
is_income start end e =
    ltb_ℤ (pos 0) e.delta
    && (leb_ℤ start (as_utc e.occurred_at) && leb_ℤ (as_utc e.occurred_at) end)

in_window_lem :
    (start end : ℤ) (e : LedgerEntry)
    → in_window start end e
      ≡ (leb_ℤ start (as_utc e.occurred_at) && leb_ℤ (as_utc e.occurred_at) end)
unfolding in_window
in_window_lem start end e = ground arith

-- What the window earned of one currency, and in how many entries of any currency.
unfoldable pub earned : CurrencyKind → (start end : ℤ) → List LedgerEntry → ℕ
earned c start end [] = 0
earned c start end (e ∷ es) =
    (if is_income start end e && same_currency e.currency c then pos_part e.delta else 0)
    + earned c start end es

unfoldable pub income_entries : (start end : ℤ) → List LedgerEntry → ℕ
income_entries start end [] = 0
income_entries start end (e ∷ es) =
    (if is_income start end e then 1 else 0) + income_entries start end es

add_sample_lem :
    (seen : WindowIncome) (e : LedgerEntry)
    → ((add_sample seen e).primogems
        ≡ seen.primogems + (if same_currency e.currency primogem then pos_part e.delta else 0))
      × ((add_sample seen e).fates
          ≡ seen.fates
            + (if same_currency e.currency intertwined_fate then pos_part e.delta else 0))
      × ((add_sample seen e).samples ≡ seen.samples + 1)
unfolding add_sample
add_sample_lem seen e = ground arith

income_from_lem :
    (seen : WindowIncome) (start end : ℤ) (es : List LedgerEntry)
    → ((income_from seen start end es).primogems ≡ seen.primogems + earned primogem start end es)
      × ((income_from seen start end es).fates ≡ seen.fates + earned intertwined_fate start end es)
      × ((income_from seen start end es).samples ≡ seen.samples + income_entries start end es)
unfolding income_from earned income_entries
income_from_lem seen start end [] = omega arith
income_from_lem seen start end (e ∷ es) =
    let next : WindowIncome = if is_income start end e then add_sample seen e else seen in
    ground
      (arith, income_from_lem next start end es, add_sample_lem seen e, in_window_lem start end e)

-- Over a window of one or more days that ends at `now`, the estimate is what the income of the window
-- gives, primogems and intertwined fates by the number of days, where income is the positive entries
-- whose time lies in the window, both ends included; with no income it is the zero velocity. Spends
-- and entries of other times never enter it.
pub estimate_velocity_lem :
    (ledger : CurrencyLedger) (n : ℕ) (now : Moment) (clock : Moment)
    → let end = as_utc now in
      let start = end -ℤ pos (suc n * day_length) in
      (income_entries start end ledger.entries ≡ 0
        → estimate_velocity ledger (pos (suc n)) (some now) clock ≡ zero_velocity)
      × (0 < income_entries start end ledger.entries
          → estimate_velocity ledger (pos (suc n)) (some now) clock ≡ record {
            primogems = earned primogem start end ledger.entries;
            fates = earned intertwined_fate start end ledger.entries;
            per_days = suc n;
            resin_per_day = 180;
            sampled_over_days = suc n;
          })
unfolding estimate_velocity
estimate_velocity_lem ledger n now clock =
    let end = as_utc now in
    let start = end -ℤ pos (suc n * day_length) in
    let fresh : WindowIncome = record { primogems = 0; fates = 0; samples = 0 } in
    (
      λ h. ground (arith, income_from_lem fresh start end ledger.entries),
      λ h. ground (arith, income_from_lem fresh start end ledger.entries),
    )
