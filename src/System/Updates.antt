-- ===== src/System/Updates.antt =====
-- Every UPDATE of a job row that the program makes is safe.
use mergetrain.Prelude.{
  ℕ, ◌≡◌, refl, Bool, true, false, not, ◌&&◌, ◌||◌, Option, none, some, List, String, arith,
  nonempty, if◌then◌else◌,
}
use mergetrain.Model.{
  Job, Marker, no_marker, Status, VerifyStatus, is_active, is_terminal, has_marker, validated,
  status_column,
}
use mergetrain.Store.{Env, has_status, by_id}
use mergetrain.Leases.{
  is_canceled_orphan, cancel_orphan, is_pushed_orphan, park_orphan, requeue_orphan,
}
use mergetrain.Jobs.Retry.{dismissed}
use mergetrain.Jobs.Supersede.{superseded}
use mergetrain.Jobs.Mark.{
  Marking, settles_push, mark_columns, mark_guard, clear_deployment, clear_attempt,
}
use mergetrain.Jobs.Cancel.{is_asked, request_cancel, is_validated_in, cancel_validated}
use mergetrain.Jobs.Verify.{set_verify}
use mergetrain.Recovery.{may_push, mark_pending, is_claimed, reject_push, PendingPush}
use mergetrain.Claims.{is_claimable, claimed, block_mismatch, is_queued_auto}
use mergetrain.Model.{in_progress}
use mergetrain.System.WellFormed.{IsSound, SafeUpdate}

pub queue_order-SafeUpdate :
    (k order : ℕ) → SafeUpdate (by_id k) (λ j. record j { queue_order = order })
queue_order-SafeUpdate k order = record {
  same_id = λ j. refl;
  same_branch = λ j. refl;
  no_revival = λ j hit active. active;
  sound = λ j hit sound. ground arith;
}

pub cancel_orphan-SafeUpdate : (env : Env) → SafeUpdate is_canceled_orphan (cancel_orphan env)
cancel_orphan-SafeUpdate env = record {
  same_id = λ j. refl;
  same_branch = λ j. refl;
  no_revival = λ j hit active. ground arith;
  sound = λ j hit sound. ground arith;
}

pub park_orphan-SafeUpdate : SafeUpdate is_pushed_orphan park_orphan
park_orphan-SafeUpdate = record {
  same_id = λ j. refl;
  same_branch = λ j. refl;
  no_revival = λ j hit active. ground arith;
  sound = λ j hit sound. ground arith;
}

-- Its row has no marker any more: the statements before it took those that had one.
pub requeue_orphan-SafeUpdate :
    SafeUpdate (λ j. has_status in_progress j && not (has_marker j)) requeue_orphan
requeue_orphan-SafeUpdate = record {
  same_id = λ j. refl;
  same_branch = λ j. refl;
  no_revival = λ j hit active. ground arith;
  sound = λ j hit sound. ground arith;
}

pub dismissed-SafeUpdate : (env : Env) (p : Job → Bool) (k : ℕ) → SafeUpdate p (dismissed env k)
dismissed-SafeUpdate env p k = record {
  same_id = λ j. refl;
  same_branch = λ j. refl;
  no_revival = λ j hit active. ground arith;
  sound = λ j hit sound. ground arith;
}

pub superseded-SafeUpdate :
    (env : Env) (audit : String) (p : Job → Bool)
    → SafeUpdate (λ j. p j && has_status validated j) (superseded env audit)
superseded-SafeUpdate env audit p = record {
  same_id = λ j. refl;
  same_branch = λ j. refl;
  no_revival = λ j hit active. ground arith;
  sound = λ j hit sound. ground arith;
}

-- A status write under a claim, from an active status, or to an ended one
abbrev pub is_fenced : Status → Option String → Option Status → Bool
is_fenced st (some token) expected = true
is_fenced st none (some source) = is_active source || is_terminal st
is_fenced st none none = is_terminal st

settled_marker :
    (st : Status) (old : Marker)
    → settles_push st ≡ true
    → nonempty (if settles_push st then no_marker else old).pending_deploy_sha ≡ false
settled_marker st old h = rw h

mark_columns-IsSound :
    (env : Env) (m : Marking) (j : Job) → IsSound j → IsSound (mark_columns env m j)
unfolding mark_columns
mark_columns-IsSound env m j sound = record {
  unclaimed = λ h. ground arith;
  fresh = λ h. (ground arith, settled_marker m.status j.marker (ground arith));
  settled = λ h. settled_marker m.status j.marker (ground arith);
}

pub mark_columns-SafeUpdate :
    (env : Env) (k : ℕ) (m : Marking) (token : Option String) (expected : Option Status)
    → is_fenced m.status token expected ≡ true
    → SafeUpdate (mark_guard k m.status token expected) (mark_columns env m)
unfolding mark_columns mark_guard
mark_columns-SafeUpdate env k m token expected fenced = record {
  same_id = λ j. refl;
  same_branch = λ j. refl;
  no_revival = λ j hit active. ground arith;
  sound = λ j hit sound. mark_columns-IsSound env m j sound;
}

pub clear_deployment-SafeUpdate : (p : Job → Bool) → SafeUpdate p clear_deployment
clear_deployment-SafeUpdate p = record {
  same_id = λ j. refl;
  same_branch = λ j. refl;
  no_revival = λ j hit active. ground arith;
  sound = λ j hit sound. ground arith;
}

pub clear_attempt-SafeUpdate : (p : Job → Bool) → SafeUpdate p clear_attempt
clear_attempt-SafeUpdate p = record {
  same_id = λ j. refl;
  same_branch = λ j. refl;
  no_revival = λ j hit active. ground arith;
  sound = λ j hit sound. ground arith;
}

pub request_cancel-SafeUpdate :
    (env : Env) (k : ℕ) (token note : String)
    → SafeUpdate (is_asked k token) (request_cancel env k note)
request_cancel-SafeUpdate env k token note = record {
  same_id = λ j. refl;
  same_branch = λ j. refl;
  no_revival = λ j hit active. ground arith;
  sound = λ j hit sound. ground arith;
}

pub cancel_validated-SafeUpdate :
    (env : Env) (note train : String)
    → SafeUpdate (is_validated_in train) (cancel_validated env note)
cancel_validated-SafeUpdate env note train = record {
  same_id = λ j. refl;
  same_branch = λ j. refl;
  no_revival = λ j hit active. ground arith;
  sound = λ j hit sound. ground arith;
}

pub set_verify-SafeUpdate :
    (result : VerifyStatus) (note : String) (p : Job → Bool) → SafeUpdate p (set_verify result note)
set_verify-SafeUpdate result note p = record {
  same_id = λ j. refl;
  same_branch = λ j. refl;
  no_revival = λ j hit active. ground arith;
  sound = λ j hit sound. ground arith;
}

pub mark_pending-SafeUpdate :
    (env : Env) (ids : List ℕ) (push : PendingPush)
    → SafeUpdate (may_push ids push.claim_token) (mark_pending env push)
mark_pending-SafeUpdate env ids push = record {
  same_id = λ j. refl;
  same_branch = λ j. refl;
  no_revival = λ j hit active. ground arith;
  sound = λ j hit sound. ground arith;
}

pub reject_push-SafeUpdate :
    (ids : List ℕ) (token : String) → SafeUpdate (is_claimed ids token) reject_push
reject_push-SafeUpdate ids token = record {
  same_id = λ j. refl;
  same_branch = λ j. refl;
  no_revival = λ j hit active. ground arith;
  sound = λ j hit sound. ground arith;
}

pub claimed-SafeUpdate :
    (env : Env) (ids : List ℕ) (st : Status) (token note : String)
    → is_active st ≡ true
    → SafeUpdate (is_claimable ids st) (claimed env token note)
claimed-SafeUpdate env ids st token note active_source = record {
  same_id = λ j. refl;
  same_branch = λ j. refl;
  no_revival = λ j hit active. ground arith;
  sound = λ j hit sound. ground arith;
}

pub block_mismatch-SafeUpdate :
    (env : Env) (k : ℕ) (note : String) → SafeUpdate (is_queued_auto k) (block_mismatch env note)
block_mismatch-SafeUpdate env k note = record {
  same_id = λ j. refl;
  same_branch = λ j. refl;
  no_revival = λ j hit active. ground arith;
  sound = λ j hit sound. ground arith;
}
