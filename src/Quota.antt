-- ===== src/Quota.antt =====
-- product/src/admission/quota.rs, and `Limit`, `Quota` and `Accounting` of product/src/config.rs:
-- the data of the rolling ledger. `Result<(), &'static str>` is an `Option Refusal`.
use deskquota.Common.{ℕ, ◌+◌, Bool, true, false, not, Option, none, some, List, ltb, from_secs}

-- `config::Limit`, `config::Quota` and `config::Accounting`. A known limit is not 0.
pub data Limit : Type 0 where
  known_limit : ℕ → Limit
  unknown unlimited : Limit

pub record Quota : Type 0 where
  pub rpm : Limit
  pub tpm : Limit

pub data Accounting : Type 0 where
  reserved actual : Accounting

abbrev pub window : ℕ
window = from_secs 60

abbrev pub max_entries : ℕ
max_entries = 8192

-- `Cost`, with the constructors of `RequestCost`.
pub data Cost : Type 0 where
  metadata unmetered_generation : Cost
  estimated : ℕ → ℕ → Cost
  exact_fixture : ℕ → Cost

abbrev pub is_metadata : Cost → Bool
is_metadata metadata = true
is_metadata _ = false

abbrev pub is_generation : Cost → Bool
is_generation c = not (is_metadata c)

abbrev pub cost_tokens : Cost → ℕ
cost_tokens metadata = 0
cost_tokens unmetered_generation = 0
cost_tokens (estimated input output) = input + output
cost_tokens (exact_fixture n) = n

-- The strings of `Ledger::check`, one constructor each.
pub data Refusal : Type 0 where
  exceeds_budget startup_hold concurrency rpm_full tpm_full ledger_capacity identity_exhausted :
      Refusal

pub data Decision : Type 0 where
  admitted : ℕ → Decision
  wait : Option ℕ → Decision
  estimate_exceeds_budget : Decision

pub record Diagnostics : Type 0 where
  pub samples : ℕ
  pub unknown : ℕ
  pub reserved_tokens : ℕ
  pub observed_tokens : ℕ
  pub excess_tokens : ℕ
  pub shortfall_tokens : ℕ

pub record Snapshot : Type 0 where
  pub rpm_debited : ℕ
  pub tpm_debited : ℕ
  pub tpm_held : ℕ
  pub active : ℕ
  pub retained : ℕ
  pub cleanups : ℕ
  pub starts : ℕ
  pub reservation : Diagnostics

pub record Entry : Type 0 where
  pub id : ℕ
  pub active : Bool
  pub started : Bool
  pub is_meta : Bool
  pub tokens : ℕ
  pub rpm_until : Option ℕ
  pub tpm_until : Option ℕ

pub record Ledger : Type 0 where
  pub quota : Quota
  pub accounting : Accounting
  pub concurrency : ℕ
  pub ready_at : ℕ
  pub now : ℕ
  pub next : ℕ
  pub entries : List Entry
  pub cleanups : ℕ
  pub starts : ℕ
  pub reservation : Diagnostics

abbrev pub known : Limit → Option ℕ
known (known_limit n) = some n
known unknown = none
known unlimited = none

abbrev pub live : Option ℕ → ℕ → Bool
live none now = false
live (some until) now = ltb now until

-- `known(limit).is_some_and(test)` and `known(limit).is_none_or(test)`.
abbrev pub is_some_and : Option ℕ → (ℕ → Bool) → Bool
is_some_and none test = false
is_some_and (some n) test = test n

abbrev pub is_none_or : Option ℕ → (ℕ → Bool) → Bool
is_none_or none test = true
is_none_or (some n) test = test n

abbrev pub no_diagnostics : Diagnostics
no_diagnostics = record {
  samples = 0;
  unknown = 0;
  reserved_tokens = 0;
  observed_tokens = 0;
  excess_tokens = 0;
  shortfall_tokens = 0;
}
