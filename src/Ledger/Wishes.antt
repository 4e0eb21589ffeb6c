-- ===== src/Ledger/Wishes.antt =====
-- core/ledger.py: what `apply_wish_batch` does to the balances, and `pulls_affordable`.
use Prim.Native.String.{String}
use resin_compute.Base.{
  ℕ, zero, suc, ◌+◌, ◌-◌, ◌*◌, ◌≤◌, ◌<◌, ◌≡◌, ◌≢◌, ◌↔◌, refl, ap, ◌∙◌, Option, some, List, [], ◌∷◌,
  ◌++◌, arith, if◌then◌else◌, ◌==◌, length, get_or,
}
use mathlib.Core.List.{append_assoc}
use resin_compute.Base.Int.{ℤ, pos, negsuc, pos_part, ◌+ℤ◌, ◌-ℤ◌, int_laws, +ℤ-zero}
use resin_compute.Clock.{Moment}
use resin_compute.Types.{
  BannerKind, standard, character_event, weapon_event, chronicled, CurrencyKind, primogem, stardust,
  starglitter, intertwined_fate, acquaint_fate, LedgerEntry, CurrencyLedger, same_currency,
  balance_of, Reason, wishes_on, three_star_yield, four_five_star_yield,
}
use resin_compute.Ledger.{
  WishBatchResult, record_entry, record_gain, apply_wish_batch, observe, stardust_of,
  starglitter_of, fate_currency_for, pulls_affordable,
}
use resin_compute.Ledger.Balance.{sum_if-snoc, record_entry_inv, record_entry_total}
use resin_compute.Ledger.Observed.{length-observe, get_or-observe, reported}

-- How many of the pulls had one rarity.
abbrev pub times : ℕ → List ℕ → ℕ
times r [] = 0
times r (x ∷ xs) = (if x == r then 1 else 0) + times r xs

pub yield_counts :
    (rs : List ℕ)
    → (stardust_of rs ≡ 15 * times 3 rs) × (starglitter_of rs ≡ 2 * times 4 rs + 10 * times 5 rs)
unfolding stardust_of starglitter_of
yield_counts [] = omega arith
yield_counts (r ∷ rs) = ground (arith, yield_counts rs)

-- What one record adds to the balance of a currency.
abbrev moved : CurrencyKind → ℤ → CurrencyKind → ℤ
moved currency delta c = if same_currency currency c then delta else pos 0

record_entry-balance_of :
    (ledger : CurrencyLedger) (currency : CurrencyKind) (delta : ℤ) (reason : Reason)
    (source : String) (occurred_at : Option Moment) (now : Moment) (id : String)
    {entry : LedgerEntry} {ledger' : CurrencyLedger}
    → record_entry ledger currency delta reason source occurred_at now id ≡ some (entry, ledger')
    → (c : CurrencyKind) → balance_of ledger' c ≡ balance_of ledger c +ℤ moved currency delta c
unfolding balance_of
record_entry-balance_of ledger currency delta reason source occurred_at now id {entry} h c =
    let (same, amount, _, longer) =
      record_entry_inv ledger currency delta reason source occurred_at now id h in
    rw longer (
      ground
        (arith, sum_if-snoc (λ e. same_currency e.currency c) ledger.entries entry, same, amount))

pos_suc-ne : (n : ℕ) → pos (suc n) ≢ pos 0
pos_suc-ne n e = cc

negsuc-ne : (n : ℕ) → negsuc n ≢ pos 0
negsuc-ne n e = cc

-- A batch in progress: the entries so far are those behind the log it began with.
module _ (base : List LedgerEntry) (entries : List LedgerEntry) (ledger : CurrencyLedger)
    (currency : CurrencyKind) (reason : Reason) (source : String) (occurred_at : Option Moment)
    (now : Moment) (id : String) (so_far : ledger.entries ≡ base ++ entries) where
  record_gain_lem :
      (amount : ℕ)
      → (after : List LedgerEntry × CurrencyLedger) × (record_gain
            (entries, ledger)
            currency
            amount
            reason
            source
            occurred_at
            now
            id
          ≡ some after)
        × (after.1.entries ≡ base ++ after.0)
        × ((c : CurrencyKind)
            → balance_of after.1 c ≡ balance_of ledger c +ℤ moved currency (pos amount) c)
  unfolding record_gain
  record_gain_lem zero =
      ((entries, ledger), refl, so_far, λ c. ground (arith, +ℤ-zero (balance_of ledger c)))
  record_gain_lem (suc n) =
      let (entry, ledger', recorded) =
        record_entry_total ledger currency (pos (suc n)) reason source occurred_at now id
          (pos_suc-ne n) in
      let (_, _, _, longer) =
        record_entry_inv ledger currency (pos (suc n)) reason source occurred_at now id recorded in
      (
        (entries ++ entry ∷ [], ledger'),
        rw (recorded, record_gain) (ground arith),
        longer ∙ ap (λ l. l ++ entry ∷ []) so_far ∙ append_assoc base entries (entry ∷ []),
        record_entry-balance_of ledger currency (pos (suc n)) reason source occurred_at now id
            recorded,
      )

-- What a batch of `pulls` wishes with the observed rarities adds to the balance of a currency.
abbrev pub batch_change : BannerKind → ℕ → List ℕ → CurrencyKind → ℤ
batch_change banner pulls observed stardust = pos (15 * times 3 observed)
batch_change banner pulls observed starglitter = pos (2 * times 4 observed + 10 * times 5 observed)
batch_change standard pulls observed acquaint_fate = pos 0 -ℤ pos pulls
batch_change character_event pulls observed intertwined_fate = pos 0 -ℤ pos pulls
batch_change weapon_event pulls observed intertwined_fate = pos 0 -ℤ pos pulls
batch_change chronicled pulls observed intertwined_fate = pos 0 -ℤ pos pulls
batch_change banner pulls observed c = pos 0

regroup : (a b c d : ℤ) → a +ℤ b +ℤ c +ℤ d ≡ a +ℤ (b +ℤ c +ℤ d)
regroup a b c d = omega int_laws

-- The three records of a batch, in turn.
changes_add :
    (banner : BannerKind) (n : ℕ) (rs : List ℕ) (c : CurrencyKind)
    → moved (fate_currency_for banner) (negsuc n) c
        +ℤ moved stardust (pos (stardust_of rs)) c
        +ℤ moved starglitter (pos (starglitter_of rs)) c
      ≡ batch_change banner (suc n) rs c
unfolding fate_currency_for ◌+ℤ◌ ◌-ℤ◌
changes_add character_event n rs primogem = ground (arith, yield_counts rs)
changes_add character_event n rs _ = ground (arith, yield_counts rs)
changes_add weapon_event n rs primogem = ground (arith, yield_counts rs)
changes_add weapon_event n rs _ = ground (arith, yield_counts rs)
changes_add standard n rs primogem = ground (arith, yield_counts rs)
changes_add standard n rs _ = ground (arith, yield_counts rs)
changes_add chronicled n rs primogem = ground (arith, yield_counts rs)
changes_add chronicled n rs _ = ground (arith, yield_counts rs)

-- A batch of one or more wishes is recorded. It counts one rarity for each wish: the one reported at its
-- place, and a 3-star where none is reported. It spends one fate of the banner's kind for each wish,
-- credits 15 stardust for each 3-star and 2 or 10 starglitter for each 4-star or 5-star among those
-- rarities, changes no other currency, and appends to the log exactly the entries that it reports.
pub apply_wish_batch_effect :
    (ledger : CurrencyLedger) (banner : BannerKind) (n : ℕ) (rarities : Option (List ℕ))
    (source : String) (occurred_at : Option Moment) (now : Moment) (id id' id'' : String)
    → (observed : List ℕ) × (r : WishBatchResult) × (ledger' : CurrencyLedger) × (apply_wish_batch
          ledger banner
          (pos (suc n))
          rarities
          source
          occurred_at
          now
          id
          id'
          id''
        ≡ some (r, ledger'))
      × (length observed ≡ suc n)
      × ((i : ℕ) → i < suc n → get_or observed i 0 ≡ reported rarities i)
      × (r.fates_spent ≡ suc n)
      × (ledger'.entries ≡ ledger.entries ++ r.entries)
      × ((c : CurrencyKind)
          → balance_of ledger' c ≡ balance_of ledger c +ℤ batch_change banner (suc n) observed c)
unfolding apply_wish_batch
apply_wish_batch_effect ledger banner n rarities source occurred_at now id id' id'' =
    let pulls = suc n in
    let observed = observe pulls rarities in
    let fate = fate_currency_for banner in
    let base = ledger.entries in
    let (spend, ledger₁, spent) =
      record_entry_total ledger fate (negsuc n) (wishes_on pulls banner) source occurred_at now id
        (negsuc-ne n) in
    let (_, _, _, longer) =
      record_entry_inv ledger fate (negsuc n) (wishes_on pulls banner) source occurred_at now id
        spent in
    let ((entries₂, ledger₂), gained, kept, moved₂) =
      record_gain_lem base (spend ∷ []) ledger₁ stardust (three_star_yield pulls) source occurred_at
        now id' longer (stardust_of observed) in
    let ((entries₃, ledger₃), gained', kept', moved₃) =
      record_gain_lem base entries₂ ledger₂ starglitter (four_five_star_yield pulls) source
        occurred_at now id'' kept (starglitter_of observed) in
    (
      observed,
      record {
        fate_currency = fate;
        fates_spent = pulls;
        stardust_gained = stardust_of observed;
        starglitter_gained = starglitter_of observed;
        entries = entries₃;
      },
      ledger₃,
      rw (spent, gained, gained'),
      length-observe pulls rarities,
      get_or-observe pulls rarities,
      refl,
      kept',
      λ c. cc (
        moved₃ c,
        moved₂ c,
        record_entry-balance_of ledger fate (negsuc n) (wishes_on pulls banner) source occurred_at
            now id spent c,
        changes_add banner n observed c,
        regroup (balance_of ledger c) (moved fate (negsuc n) c)
            (moved stardust (pos (stardust_of observed)) c)
            (moved starglitter (pos (starglitter_of observed)) c),
      ),
    )

-- The wallet pays for `n` wishes exactly when the primogems buy, at 160 each, the fates that are
-- missing; a negative balance counts as none.
pub pulls_affordable_lem :
    (ledger : CurrencyLedger) (banner : BannerKind) (n : ℕ)
    → (n ≤ pulls_affordable ledger banner) ↔ (
        160 * (n - pos_part (balance_of ledger (fate_currency_for banner)))
        ≤ pos_part (balance_of ledger primogem))
unfolding pulls_affordable
pulls_affordable_lem ledger banner n = ground arith
