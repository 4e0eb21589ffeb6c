-- ===== src/Ledger/Balance.antt =====
-- Balances as folds of the log: core/types.py `balances` and core/ledger.py `record`, `balance_at`.
use Prim.Native.String.{String}
use resin_compute.Base.{
  zero, suc, ◌≡◌, ◌≢◌, refl, sym, ap, ◌∙◌, Bool, ◌&&◌, Option, none, some, List, [], ◌∷◌, ◌++◌,
  arith, if◌then◌else◌,
}
use resin_compute.Base.Int.{ℤ, pos, negsuc, ◌+ℤ◌, ◌-ℤ◌, leb_ℤ, +ℤ_assoc, zero-+ℤ, +ℤ-zero}
use resin_compute.Clock.{Moment, naive, aware, as_utc}
use resin_compute.Types.{
  CurrencyKind, Reason, LedgerEntry, CurrencyLedger, same_currency, sum_if, balance_of, balances,
  fold_deltas, add_delta,
}
use resin_compute.Ledger.{record_entry, balance_at, stamp}

pub sum_if-append :
    (test : LedgerEntry → Bool) (xs ys : List LedgerEntry)
    → sum_if test (xs ++ ys) ≡ sum_if test xs +ℤ sum_if test ys
unfolding sum_if
sum_if-append test [] ys = sym (zero-+ℤ _)
sum_if-append test (x ∷ xs) ys =
    ground (arith, sum_if-append test xs ys, +ℤ_assoc x.delta (sum_if test xs) (sum_if test ys))

fold_deltas-eq-sum_if :
    (out : CurrencyKind → ℤ) (es : List LedgerEntry) (c : CurrencyKind)
    → fold_deltas out es c ≡ out c +ℤ sum_if (λ e. same_currency e.currency c) es
unfolding fold_deltas sum_if
fold_deltas-eq-sum_if out [] c = sym (+ℤ-zero _)
fold_deltas-eq-sum_if out (e ∷ es) c =
    let rest = sum_if (λ e. same_currency e.currency c) es in
    ground (arith, fold_deltas-eq-sum_if (add_delta out e) es c, +ℤ_assoc (out c) e.delta rest)

-- The dictionary that one pass over the log builds holds, at every currency, what folding the log for
-- that currency alone gives.
pub balances-eq-balance_of :
    (ledger : CurrencyLedger) (c : CurrencyKind) → balances ledger c ≡ balance_of ledger c
unfolding balances balance_of
balances-eq-balance_of ledger c = fold_deltas-eq-sum_if (λ _. pos 0) ledger.entries c ∙ zero-+ℤ _

pub sum_if-snoc :
    (test : LedgerEntry → Bool) (es : List LedgerEntry) (e : LedgerEntry)
    → sum_if test (es ++ e ∷ []) ≡ sum_if test es +ℤ (if test e then e.delta else pos 0)
unfolding sum_if
sum_if-snoc test es e = ground (arith, sum_if-append test es (e ∷ []), +ℤ-zero e.delta)

-- The time in UTC of a moment: a naive one is read as UTC.
abbrev pub instant : Moment → ℤ
instant (naive wall) = wall
instant (aware wall offset) = wall -ℤ offset

as_utc-eq-instant : (t : Moment) → as_utc t ≡ instant t
unfolding as_utc
as_utc-eq-instant (naive wall) = refl
as_utc-eq-instant (aware wall offset) = refl

-- What an entry adds to the balance of a currency as of a time.
unfoldable pub contribution : CurrencyKind → Moment → LedgerEntry → ℤ
contribution c when e =
    if same_currency e.currency c && leb_ℤ (as_utc e.occurred_at) (as_utc when)
    then e.delta
    else pos 0

pub record_entry_inv :
    (ledger : CurrencyLedger) (currency : CurrencyKind) (delta : ℤ) (reason : Reason)
    (source : String) (occurred_at : Option Moment) (now : Moment) (id : String)
    {entry : LedgerEntry} {ledger' : CurrencyLedger}
    → record_entry ledger currency delta reason source occurred_at now id ≡ some (entry, ledger')
    → (entry.currency ≡ currency)
      × (entry.delta ≡ delta)
      × (entry.occurred_at ≡ stamp now occurred_at)
      × (ledger'.entries ≡ ledger.entries ++ entry ∷ [])
unfolding record_entry
record_entry_inv ledger currency delta reason source occurred_at now id h = ground arith

-- A delta that is not zero is recorded.
pub record_entry_total :
    (ledger : CurrencyLedger) (currency : CurrencyKind) (delta : ℤ) (reason : Reason)
    (source : String) (occurred_at : Option Moment) (now : Moment) (id : String)
    → delta ≢ pos 0
    → (entry : LedgerEntry) × (ledger' : CurrencyLedger) × (record_entry ledger currency delta
          reason source occurred_at now id
        ≡ some (entry, ledger'))
unfolding record_entry
record_entry_total ledger currency (pos zero) reason source occurred_at now id h = absurd (h refl)
record_entry_total ledger currency (pos (suc n)) reason source occurred_at now id h = (_, _, refl)
record_entry_total ledger currency (negsuc n) reason source occurred_at now id h = (_, _, refl)

-- The moment given, or else the current one.
abbrev pub given_or : Moment → Option Moment → Moment
given_or now none = now
given_or now (some t) = t

stamp_lem :
    (now : Moment) (occurred_at : Option Moment)
    → stamp now occurred_at ≡ aware (instant (given_or now occurred_at)) (pos 0)
stamp_lem now none = ap (λ u. aware u (pos 0)) (as_utc-eq-instant now)
stamp_lem now (some t) = ap (λ u. aware u (pos 0)) (as_utc-eq-instant t)

-- An entry that is recorded has the currency and the delta given and is stamped with the instant of the
-- time given, or of the current one if none is, at offset zero. It moves the balance of every currency as of every time by its delta if it has that currency and is not
-- later than that time, and by nothing otherwise.
pub record_entry-balance_at :
    (ledger : CurrencyLedger) (currency : CurrencyKind) (delta : ℤ) (reason : Reason)
    (source : String) (occurred_at : Option Moment) (now : Moment) (id : String)
    {entry : LedgerEntry} {ledger' : CurrencyLedger}
    → record_entry ledger currency delta reason source occurred_at now id ≡ some (entry, ledger')
    → (entry.currency ≡ currency)
      × (entry.delta ≡ delta)
      × (entry.occurred_at ≡ aware (instant (given_or now occurred_at)) (pos 0))
      × ((c : CurrencyKind) (when : Moment)
          → balance_at ledger' c when ≡ balance_at ledger c when +ℤ contribution c when entry)
unfolding balance_at contribution
record_entry-balance_at ledger currency delta reason source occurred_at now id {entry} h =
    let (same, moved, stamped, longer) =
      record_entry_inv ledger currency delta reason source occurred_at now id h in
    (
      same,
      moved,
      stamped ∙ stamp_lem now occurred_at,
      λ c when. rw longer (sum_if-snoc _ ledger.entries entry),
    )
