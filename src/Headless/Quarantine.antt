-- ===== src/Headless/Quarantine.antt =====
-- headless/quarantine.py: the record of the jobs that were abandoned. The dictionary is a function, and the
-- clock an argument.
pub mod Refined
use Prim.Native.String.{String}
use text.Mathlib.Text.{◌==◌ as str_eq}
use resin_compute.Base.{
  ℕ, zero, suc, ◌+◌, Bool, true, false, not, ◌&&◌, ◌||◌, Option, none, some, List, [], ◌∷◌, leb,
  if◌then◌else◌,
}

abbrev pub quarantine_after : ℕ
quarantine_after = 2

-- JobResult's status, where it is set by the pass.
pub data Status : Type 0 where
  pass fail skip : Status

abbrev pub is_pass : Status → Bool
is_pass pass = true
is_pass fail = false
is_pass skip = false

pub record Entry : Type 0 where
  pub consecutive : ℕ
  pub quarantined : Bool
  pub since : String

abbrev pub Abandonments : Type 0
Abandonments = String → Option Entry

-- `record[name] = entry` and `del record[name]`
abbrev pub set_entry : Abandonments → String → Option Entry → Abandonments
set_entry record_before name entry n = if str_eq name n then entry else record_before n

-- The entry of a job that was abandoned once more.
abbrev pub counted : (now : String) → Option Entry → Entry
counted now none = record {
  consecutive = 1;
  quarantined = leb quarantine_after 1;
  since = if leb quarantine_after 1 then now else "";
}
counted now (some entry) =
    let quarantined = entry.quarantined || leb quarantine_after (entry.consecutive + 1) in
    let since = if entry.quarantined then entry.since else "" in
    record {
      consecutive = entry.consecutive + 1;
      quarantined = quarantined;
      since = if quarantined && str_eq since "" then now else since;
    }

-- The record after a job's outcome, and whether it changed.
unfoldable pub apply_result :
    (now : String)
    → Abandonments
    → (name : String) → Status
    → (abandoned : Bool) → Abandonments × Bool
apply_result now before name status abandoned =
    if abandoned
    then (set_entry before name (some (counted now (before name))), true)
    else elim (before name) [
      | none ↦ (before, false)
      | some entry ↦
          if is_pass status || not entry.quarantined
          then (set_entry before name none, true)
          else (before, false)
    ]
