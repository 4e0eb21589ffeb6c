-- ===== src/Ledger.antt =====
-- core/ledger.py: operations over the append-only ledger. The identifiers that `uuid4` makes and the
-- current time are arguments. A method returns the new ledger beside its result.
pub mod Balance
pub mod Observed
pub mod Wishes
pub mod Income
mod Tests
use Prim.Native.String.{String}
use resin_compute.Base.{
  ℕ, zero, suc, ◌+◌, ◌-◌, ◌*◌, ◌/◌, Bool, true, false, not, ◌&&◌, Option, none, some, List, [], ◌∷◌,
  ◌++◌, length, take, replicate, ltb, ◌==◌, if◌then◌else◌,
}
use resin_compute.Base.Int.{ℤ, pos, negsuc, pos_part, neg_part, ◌+ℤ◌, ◌-ℤ◌, ltb_ℤ, leb_ℤ}
use resin_compute.Clock.{Moment, aware, as_utc, microseconds_per_second}
use resin_compute.Types.{
  BannerKind, character_event, weapon_event, standard, chronicled, CurrencyKind, primogem,
  intertwined_fate, acquaint_fate, stardust, starglitter, Reason, given, wishes_on,
  three_star_yield, four_five_star_yield, LedgerEntry, CurrencyLedger, same_currency, sum_if,
  balance_of,
}

abbrev pub stardust_per_3star : ℕ
stardust_per_3star = 15

abbrev pub starglitter_per_4star : ℕ
starglitter_per_4star = 2

abbrev pub starglitter_per_5star : ℕ
starglitter_per_5star = 10

abbrev pub primogems_per_fate : ℕ
primogems_per_fate = 160

pub record WishBatchResult : Type 0 where
  pub fate_currency : CurrencyKind
  pub fates_spent : ℕ
  pub stardust_gained : ℕ
  pub starglitter_gained : ℕ
  pub entries : List LedgerEntry

unfoldable pub fate_currency_for : BannerKind → CurrencyKind
fate_currency_for character_event = intertwined_fate
fate_currency_for weapon_event = intertwined_fate
fate_currency_for chronicled = intertwined_fate
fate_currency_for standard = acquaint_fate

infixl 5 ◌>>=◌
abbrev ◌>>=◌ {ℓ κ} : {A : Type ℓ} {B : Type κ} → Option A → (A → Option B) → Option B
none >>= f = none
some a >>= f = f a

abbrev is_zero : ℤ → Bool
is_zero (pos zero) = true
is_zero _ = false

-- A time that is left out is the current one; what is stored is in UTC.
abbrev stamp : Moment → Option Moment → Moment
stamp now none = aware (as_utc now) (pos 0)
stamp now (some t) = aware (as_utc t) (pos 0)

-- `none` is the ValueError of a zero delta.
unfoldable pub record_entry :
    CurrencyLedger
    → CurrencyKind
    → ℤ
    → Reason
    → String
    → Option Moment
    → (now : Moment) (id : String) → Option (LedgerEntry × CurrencyLedger)
record_entry ledger currency delta reason source occurred_at now id =
    let entry : LedgerEntry = record {
      entry_id = id;
      occurred_at = stamp now occurred_at;
      currency = currency;
      delta = delta;
      reason = reason;
      source = source;
    } in
    if is_zero delta then none else some (entry, record { entries = ledger.entries ++ entry ∷ [] })

unfoldable pub balance_at : CurrencyLedger → CurrencyKind → Moment → ℤ
balance_at ledger currency when =
    sum_if (λ e. same_currency e.currency currency && leb_ℤ (as_utc e.occurred_at) (as_utc when))
      ledger.entries

-- The observed rarities, padded with 3-stars or cut to one for each pull.
unfoldable pub observe : ℕ → Option (List ℕ) → List ℕ
observe pulls none = replicate pulls 3
observe pulls (some rarities) =
    if length rarities == pulls then rarities else take pulls (rarities ++ replicate pulls 3)

unfoldable pub stardust_of : List ℕ → ℕ
stardust_of [] = 0
stardust_of (r ∷ rs) = (if r == 3 then stardust_per_3star else 0) + stardust_of rs

unfoldable pub starglitter_of : List ℕ → ℕ
starglitter_of [] = 0
starglitter_of (r ∷ rs) =
    (if r == 4 then starglitter_per_4star else if r == 5 then starglitter_per_5star else 0)
    + starglitter_of rs

-- `if amount: entries.append(record(…))`
unfoldable pub record_gain :
    List LedgerEntry × CurrencyLedger
    → CurrencyKind
    → ℕ
    → Reason
    → String
    → Option Moment
    → (now : Moment) (id : String) → Option (List LedgerEntry × CurrencyLedger)
record_gain (entries, ledger) currency amount reason source occurred_at now id =
    if amount == 0 then some (entries, ledger) else do
      (entry, ledger') ← record_entry ledger currency (pos amount) reason source occurred_at now id
      some (entries ++ entry ∷ [], ledger')

-- The three identifiers are those of the entries that the batch may append.
unfoldable pub apply_wish_batch :
    CurrencyLedger
    → BannerKind
    → ℤ
    → Option (List ℕ)
    → String
    → Option Moment
    → (now : Moment) (id id' id'' : String) → Option (WishBatchResult × CurrencyLedger)
apply_wish_batch ledger banner (negsuc n) rarities source occurred_at now id id' id'' =
    let fate = fate_currency_for banner in
    some (
      record {
        fate_currency = fate;
        fates_spent = 0;
        stardust_gained = 0;
        starglitter_gained = 0;
        entries = [];
      },
      ledger,
    )
apply_wish_batch ledger banner (pos zero) rarities source occurred_at now id id' id'' =
    let fate = fate_currency_for banner in
    some (
      record {
        fate_currency = fate;
        fates_spent = 0;
        stardust_gained = 0;
        starglitter_gained = 0;
        entries = [];
      },
      ledger,
    )
apply_wish_batch ledger banner (pos (suc n)) rarities source occurred_at now id id' id'' =
    let fate = fate_currency_for banner in
    let pulls = suc n in
    let observed = observe pulls rarities in
    let dust = stardust_of observed in
    let glitter = starglitter_of observed in
    do
      (spend, ledger₁) ←
          record_entry ledger fate (negsuc n) (wishes_on pulls banner) source occurred_at now id
      (entries₂, ledger₂) ←
          record_gain (spend ∷ [], ledger₁) stardust dust (three_star_yield pulls) source
            occurred_at now id'
      (entries₃, ledger₃) ←
          record_gain (entries₂, ledger₂) starglitter glitter (four_five_star_yield pulls) source
            occurred_at now id''
      some (
        record {
          fate_currency = fate;
          fates_spent = pulls;
          stardust_gained = dust;
          starglitter_gained = glitter;
          entries = entries₃;
        },
        ledger₃,
      )

-- What `estimate_velocity` counts in its window: the numerators of the two daily rates, and how many
-- entries it saw.
pub record WindowIncome : Type 0 where
  pub primogems : ℕ
  pub fates : ℕ
  pub samples : ℕ

abbrev day_length : ℕ
day_length = 24 * 3600 * microseconds_per_second

unfoldable pub in_window : (start end : ℤ) → LedgerEntry → Bool
in_window start end entry =
    let moment = as_utc entry.occurred_at in not (ltb_ℤ moment start) && not (ltb_ℤ end moment)

unfoldable pub add_sample : WindowIncome → LedgerEntry → WindowIncome
add_sample seen entry =
    let seen' : WindowIncome = record seen { samples = seen.samples + 1 } in
    if same_currency entry.currency primogem
    then record seen' { primogems = seen.primogems + pos_part entry.delta }
    else if same_currency entry.currency intertwined_fate
    then record seen' { fates = seen.fates + pos_part entry.delta }
    else seen'

unfoldable pub income_from : WindowIncome → (start end : ℤ) → List LedgerEntry → WindowIncome
income_from seen start end [] = seen
income_from seen start end (e ∷ es) =
    income_from (if ltb_ℤ (pos 0) e.delta && in_window start end e then add_sample seen e else seen)
      start end es

-- `primogems / days` and `fates / days` stay fractions; `sampled_over_days` is 0 in a zero velocity.
pub record IncomeVelocity : Type 0 where
  pub primogems : ℕ
  pub fates : ℕ
  pub per_days : ℕ
  pub resin_per_day : ℕ
  pub sampled_over_days : ℕ

abbrev pub zero_velocity : IncomeVelocity
zero_velocity = record {
  primogems = 0;
  fates = 0;
  per_days = 1;
  resin_per_day = 180;
  sampled_over_days = 0;
}

unfoldable pub estimate_velocity :
    CurrencyLedger → (window_days : ℤ) → Option Moment → Moment → IncomeVelocity
estimate_velocity ledger (negsuc n) now clock = zero_velocity
estimate_velocity ledger (pos zero) now clock = zero_velocity
estimate_velocity ledger (pos (suc n)) now clock =
    let days = suc n in
    let end = as_utc (elim now [ none ↦ clock | some t ↦ t ]) in
    let start = end -ℤ pos (days * day_length) in
    let seen =
      income_from (record { primogems = 0; fates = 0; samples = 0 }) start end ledger.entries in
    if seen.samples == 0 then zero_velocity else record {
      primogems = seen.primogems;
      fates = seen.fates;
      per_days = days;
      resin_per_day = 180;
      sampled_over_days = days;
    }

unfoldable pub pulls_affordable : CurrencyLedger → BannerKind → ℕ
pulls_affordable ledger banner =
    pos_part (balance_of ledger primogem) / primogems_per_fate
    + pos_part (balance_of ledger (fate_currency_for banner))
