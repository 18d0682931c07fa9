-- ===== src/Model/Statuses.antt =====
-- The status columns (src/mergetrain/models.py): the strings are the constructors, so a string that
-- is none of them, which the code refuses, cannot be written.
use Prim.Native.Nat.{ℕ}
use Prim.Native.String.{String}
use mathlib.Core.Path.{◌≡◌}
use mathlib.Core.Logic.{◌↔◌}
use mathlib.Core.Bool.{Bool, true, false}
use mathlib.Core.Option.{Option}
use native.Mathlib.Omega.{arith}
use mergetrain.Prelude.{Column, nat_eq}

pub data Status : Type 0 where
  queued in_progress blocked failed validated needs_reconcile deployed canceled : Status

pub data PushStatus : Type 0 where
  not_run pending succeeded failed : PushStatus

pub data VerifyStatus : Type 0 where
  not_run not_configured succeeded failed unknown : VerifyStatus

abbrev pub rank : Status → ℕ
rank queued = 0
rank in_progress = 1
rank blocked = 2
rank failed = 3
rank validated = 4
rank needs_reconcile = 5
rank deployed = 6
rank canceled = 7

pub rank_iff : (s t : Status) → (nat_eq (rank s) (rank t) ≡ true) ↔ (s ≡ t)
rank_iff s t = ground arith

instance abbrev pub status_column : Column Status
status_column = record { same = λ s t. nat_eq (rank s) (rank t); same_iff = rank_iff }

abbrev pub verify_rank : VerifyStatus → ℕ
verify_rank not_run = 0
verify_rank not_configured = 1
verify_rank succeeded = 2
verify_rank failed = 3
verify_rank unknown = 4

pub verify_rank_iff :
    (s t : VerifyStatus) → (nat_eq (verify_rank s) (verify_rank t) ≡ true) ↔ (s ≡ t)
verify_rank_iff s t = ground arith

instance abbrev pub verify_column : Column VerifyStatus
verify_column = record {
  same = λ s t. nat_eq (verify_rank s) (verify_rank t);
  same_iff = verify_rank_iff;
}

-- ACTIVE_STATUSES
abbrev pub is_active : Status → Bool
is_active queued = true
is_active in_progress = true
is_active blocked = true
is_active failed = true
is_active validated = true
is_active needs_reconcile = true
is_active deployed = false
is_active canceled = false

-- TERMINAL_STATUSES
abbrev pub is_terminal : Status → Bool
is_terminal deployed = true
is_terminal canceled = true
is_terminal _ = false

abbrev pub status_text : Status → String
status_text queued = "queued"
status_text in_progress = "in_progress"
status_text blocked = "blocked"
status_text failed = "failed"
status_text validated = "validated"
status_text needs_reconcile = "needs_reconcile"
status_text deployed = "deployed"
status_text canceled = "canceled"

-- A column that holds '' or an instant, in whole seconds, as `utc_now` writes it.
abbrev pub Stamp : Type 0
Stamp = Option ℕ
