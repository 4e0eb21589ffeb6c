-- ===== src/Ledger/Tests.antt =====
-- Runs of core/ledger.py on a small log.
use resin_compute.Base.{
  ◌-◌, ◌*◌, ◌≤◌, ◌<◌, ◌≡◌, ◌↔◌, refl, none, some, [], ◌∷◌, ◌++◌, length, ℕ, List, get_or,
}
use resin_compute.Base.Int.{pos, negsuc, pos_part, ◌+ℤ◌, ◌-ℤ◌}
use resin_compute.Clock.{Moment, naive, aware, as_utc}
use resin_compute.Types.{
  weapon_event, character_event, CurrencyKind, primogem, intertwined_fate, LedgerEntry,
  CurrencyLedger, given, balance_of, balances,
}
use resin_compute.Ledger.{
  record_entry, balance_at, apply_wish_batch, WishBatchResult, estimate_velocity, zero_velocity,
  day_length, pulls_affordable, fate_currency_for,
}
use resin_compute.Ledger.Balance.{
  balances-eq-balance_of, record_entry-balance_at, contribution, instant, given_or,
}
use resin_compute.Ledger.Observed.{reported}
use resin_compute.Ledger.Wishes.{apply_wish_batch_effect, batch_change, pulls_affordable_lem}
use resin_compute.Ledger.Income.{estimate_velocity_lem, earned, income_entries}

abbrev income : LedgerEntry
income = record {
  entry_id = "a";
  occurred_at = naive (pos 1000);
  currency = primogem;
  delta = pos 500;
  reason = given "event";
  source = "manual";
}

abbrev wallet : CurrencyLedger
wallet = record { entries = income ∷ [] }

abbrev now : Moment
now = naive (pos 2000)

abbrev added : LedgerEntry
added = record {
  entry_id = "b";
  occurred_at = aware (pos 2000) (pos 0);
  currency = primogem;
  delta = negsuc 159;
  reason = given "fate";
  source = "manual";
}

balances-eq-balance_of_example : balances wallet primogem ≡ balance_of wallet primogem
balances-eq-balance_of_example = balances-eq-balance_of wallet primogem

record_entry-balance_at_example :
    (primogem ≡ primogem)
    × (negsuc 159 ≡ negsuc 159)
    × (aware (pos 2000) (pos 0) ≡ aware (instant (given_or now none)) (pos 0))
    × ((c : CurrencyKind) (when : Moment)
        → balance_at (record { entries = income ∷ added ∷ [] }) c when
          ≡ balance_at wallet c when +ℤ contribution c when added)
unfolding record_entry as_utc
record_entry-balance_at_example =
    record_entry-balance_at wallet primogem (negsuc 159) (given "fate") "manual" none now "b"
      {entry = added} {ledger' = record { entries = income ∷ added ∷ [] }} refl

apply_wish_batch_effect_example :
    (observed : List ℕ) × (r : WishBatchResult) × (ledger' : CurrencyLedger) × (apply_wish_batch
        wallet weapon_event
        (pos 2)
        (some (5 ∷ []))
        "manual"
        none
        now
        "b"
        "c"
        "d"
      ≡ some (r, ledger'))
    × (length observed ≡ 2)
    × ((i : ℕ) → i < 2 → get_or observed i 0 ≡ reported (some (5 ∷ [])) i)
    × (r.fates_spent ≡ 2)
    × (ledger'.entries ≡ wallet.entries ++ r.entries)
    × ((c : CurrencyKind)
        → balance_of ledger' c ≡ balance_of wallet c +ℤ batch_change weapon_event 2 observed c)
apply_wish_batch_effect_example =
    apply_wish_batch_effect wallet weapon_event 1 (some (5 ∷ [])) "manual" none now "b" "c" "d"

pulls_affordable_lem_example : (3 ≤ pulls_affordable wallet character_event) ↔ (
    160 * (3 - pos_part (balance_of wallet (fate_currency_for character_event)))
    ≤ pos_part (balance_of wallet primogem))
pulls_affordable_lem_example = pulls_affordable_lem wallet character_event 3

estimate_velocity_lem_example :
    let end = as_utc now in
    let start = end -ℤ pos (7 * day_length) in
    (income_entries start end wallet.entries ≡ 0
      → estimate_velocity wallet (pos 7) (some now) now ≡ zero_velocity)
    × (0 < income_entries start end wallet.entries
        → estimate_velocity wallet (pos 7) (some now) now ≡ record {
          primogems = earned primogem start end wallet.entries;
          fates = earned intertwined_fate start end wallet.entries;
          per_days = 7;
          resin_per_day = 180;
          sampled_over_days = 7;
        })
estimate_velocity_lem_example = estimate_velocity_lem wallet 6 now now
