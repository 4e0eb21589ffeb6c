-- ===== src/Types.antt =====
-- core/types.py: the enumerations and records that the engines share. A Python string that the code
-- only stores and prints is a `String`.
use Prim.Native.String.{String}
use resin_compute.Base.{
  ℕ, ◌≤◌, ◌≡◌, zero, suc, ◌==◌, ==_iff, ◌↔◌, ap, sym, ◌∙◌, refl, Bool, true, List, [], ◌∷◌,
  if◌then◌else◌,
}
use resin_compute.Base.Int.{ℤ, pos, ◌+ℤ◌}
use resin_compute.Clock.{Moment}

pub data BannerKind : Type 0 where
  character_event weapon_event standard chronicled : BannerKind

pub data CurrencyKind : Type 0 where
  primogem intertwined_fate acquaint_fate stardust starglitter mora : CurrencyKind
  original_resin fragile_resin condensed_resin heros_wit : CurrencyKind

abbrev currency_index : CurrencyKind → ℕ
currency_index primogem = 0
currency_index intertwined_fate = 1
currency_index acquaint_fate = 2
currency_index stardust = 3
currency_index starglitter = 4
currency_index mora = 5
currency_index original_resin = 6
currency_index fragile_resin = 7
currency_index condensed_resin = 8
currency_index heros_wit = 9

-- Python's `a is b` on two members of the enumeration.
abbrev pub same_currency : CurrencyKind → CurrencyKind → Bool
same_currency a b = currency_index a == currency_index b

currency_at : ℕ → CurrencyKind
currency_at zero = primogem
currency_at (suc zero) = intertwined_fate
currency_at (suc (suc zero)) = acquaint_fate
currency_at (suc (suc (suc zero))) = stardust
currency_at (suc (suc (suc (suc zero)))) = starglitter
currency_at (suc (suc (suc (suc (suc zero))))) = mora
currency_at (suc (suc (suc (suc (suc (suc zero)))))) = original_resin
currency_at (suc (suc (suc (suc (suc (suc (suc zero))))))) = fragile_resin
currency_at (suc (suc (suc (suc (suc (suc (suc (suc zero)))))))) = condensed_resin
currency_at _ = heros_wit

currency_at-index : (c : CurrencyKind) → currency_at (currency_index c) ≡ c
unfolding currency_at
currency_at-index primogem = refl
currency_at-index intertwined_fate = refl
currency_at-index acquaint_fate = refl
currency_at-index stardust = refl
currency_at-index starglitter = refl
currency_at-index mora = refl
currency_at-index original_resin = refl
currency_at-index fragile_resin = refl
currency_at-index condensed_resin = refl
currency_at-index heros_wit = refl

pub same_currency_iff : (a b : CurrencyKind) → (same_currency a b ≡ true) ↔ (a ≡ b)
same_currency_iff a b = (
  λ h. sym (currency_at-index a) ∙ ap currency_at ((==_iff _ _).0 h) ∙ currency_at-index b,
  λ e. (==_iff _ _).1 (ap currency_index e),
)

-- The reasons that the ledger's own code writes are formatted texts: what they are formatted from.
pub data Reason : Type 0 where
  given : String → Reason
  wishes_on : ℕ → BannerKind → Reason
  three_star_yield four_five_star_yield : ℕ → Reason

pub record LedgerEntry : Type 0 where
  pub entry_id : String
  pub occurred_at : Moment
  pub currency : CurrencyKind
  pub delta : ℤ
  pub reason : Reason
  pub source : String

pub record CurrencyLedger : Type 0 where
  pub entries : List LedgerEntry

-- The sum of the deltas of the entries that a test admits.
unfoldable pub sum_if : (LedgerEntry → Bool) → List LedgerEntry → ℤ
sum_if test [] = pos 0
sum_if test (e ∷ es) = let rest = sum_if test es in if test e then e.delta +ℤ rest else rest

unfoldable pub balance_of : CurrencyLedger → CurrencyKind → ℤ
balance_of ledger currency = sum_if (λ e. same_currency e.currency currency) ledger.entries

-- `out[entry.currency] += entry.delta`, on a dictionary that has every currency as a key.
unfoldable pub add_delta : (CurrencyKind → ℤ) → LedgerEntry → CurrencyKind → ℤ
add_delta out entry c = if same_currency entry.currency c then out c +ℤ entry.delta else out c

unfoldable pub fold_deltas : (CurrencyKind → ℤ) → List LedgerEntry → CurrencyKind → ℤ
unfolding add_delta
fold_deltas out [] = out
fold_deltas out (e ∷ es) = fold_deltas (add_delta out e) es

unfoldable pub balances : CurrencyLedger → CurrencyKind → ℤ
unfolding fold_deltas
balances ledger = fold_deltas (λ c. pos 0) ledger.entries

pub data ObjectiveKind : Type 0 where
  character_ascension character_level talent_level : ObjectiveKind
  weapon_ascension weapon_level acquire_character acquire_weapon : ObjectiveKind

pub data TaskCadence : Type 0 where
  daily weekly on_demand : TaskCadence

pub record MaterialCost : Type 0 where
  pub material_id : ℕ
  pub quantity : ℕ
  pub display_name : String

-- Costs, levels and identifiers of the game are natural numbers.
pub record ObjectiveNode : Type 0 where
  pub node_id : String
  pub kind : ObjectiveKind
  pub subject_id : ℕ
  pub target_value : ℕ
  pub depends_on : List String
  pub materials : List MaterialCost
  pub mora_cost : ℕ
  pub resin_cost : ℕ
  pub available_weekdays : List ℕ
  pub weekly_capped : Bool
  pub display_name : String

-- The identifier is a text formatted from the node's id and the day: it is kept as that pair.
pub record ScheduledTask : Type 0 where
  pub task_id : String × ℕ
  pub node_id : String
  pub cadence : TaskCadence
  pub resin_cost : ℕ
  pub earliest_day : ℕ
  pub description : String

pub record ResolutionPath : Type 0 where
  pub goal_id : String
  pub ordered_nodes : List String
  pub tasks : List ScheduledTask
  pub total_resin : ℕ
  pub total_mora : ℕ
  pub estimated_days : ℕ
  pub blocked_on : List String

-- `IsPityState` is what `__post_init__` demands of counters that are natural numbers.
pub record PityState : Type 0 where
  pub banner : BannerKind
  pub pity_5star : ℕ
  pub pity_4star : ℕ
  pub has_guarantee : Bool
  pub consecutive_5050_losses : ℕ
  pub fate_points : ℕ

abbrev pub IsPityState : PityState → Type 0
IsPityState state = (state.consecutive_5050_losses ≤ 3) × (state.fate_points ≤ 1)
