-- ===== src/Reconcile/Git.antt =====
-- What reconcile asks of git (src/mergetrain/recovery.py, git_ops.py). The answers of the `git`
-- processes, of the remote and of the operating system are fields of `Git`.
use Prim.Native.Char.{Char, code}
use mergetrain.Prelude.{
  ℕ, suc, zero, ◌-◌, ◌≡◌, refl, Bool, true, not, ◌&&◌, ◌||◌, Option, none, some, List, [], ◌∷◌,
  String, leb, if◌then◌else◌, ◌==◌, nat_column, text_column, strip, nonempty, ◌<>◌, has_prefix,
}

-- A subprocess that fails is the answer `none` or `false`.
pub record Git : Type 0 where
  -- `git rev-parse` of the pin ref of a job
  pub pin_resolves : ℕ → Bool
  -- `git rev-parse --verify` of a commit
  pub object_exists : String → Bool
  -- the return code of `git merge-base --is-ancestor`
  pub is_ancestor : String → String → ℕ
  -- the endpoint hash of the resolved destination of a remote and its refs
  pub push_endpoint_sha : String → List String → Option String
  -- whether `git ls-remote` of the remote succeeds
  pub fetch : String → Bool
  -- the lines of `git ls-remote --refs` for a ref of a remote, each a sha and a name
  pub ls_remote : String → String → Option (List (String × String))
  -- whether a process of an earlier push of the commit still runs
  pub push_in_flight : String → Bool
  -- the hash of the policy without verify hooks
  pub policy_without_hooks : String
  -- the configured remote and refs, for a marker that names none
  pub remote : String
  pub push_refs : List String

unfoldable pub char_at : ℕ → Char → String → Char
char_at n other String.[] = other
char_at zero other (String.◌∷◌ c s) = c
char_at (suc n) other (String.◌∷◌ c s) = char_at n other s

-- `str.lower` on ASCII letters; a commit id has no others
unfoldable pub lower : String → String
unfolding char_at
lower String.[] = ""
lower (String.◌∷◌ c s) =
    String.◌∷◌
      (if leb 65 (code c) && leb (code c) 90
        then char_at (code c - 65) c "abcdefghijklmnopqrstuvwxyz"
        else c)
      (lower s)

abbrev is_hex : Char → Bool
is_hex c = (leb 48 (code c) && leb (code c) 57) || (leb 97 (code c) && leb (code c) 102)

unfoldable pub all_hex : String → Bool
all_hex String.[] = true
all_hex (String.◌∷◌ c s) = is_hex c && all_hex s

unfoldable pub text_length : String → ℕ
text_length String.[] = 0
text_length (String.◌∷◌ c s) = suc (text_length s)

-- `[0-9a-f]{40}|[0-9a-f]{64}`
unfoldable pub is_commit_id : String → Bool
unfolding all_hex text_length
is_commit_id s = all_hex s && (text_length s == 40 || text_length s == 64)

-- _audit_ref_for_sha with deploy_audit_ref_name: empty where that raises
unfoldable pub audit_ref_for_sha : String → String
unfolding lower is_commit_id
audit_ref_for_sha sha =
    if is_commit_id (lower (strip sha)) then "refs/mergetrain/deploys/" <> lower (strip sha) else ""

pub data Ancestry : Type 0 where
  contained absent undetermined : Ancestry

-- _ancestor_state: `yes`, `no` and `unknown`
unfoldable pub ancestor_state : Git → String → String → Ancestry
ancestor_state git sha remote_sha =
    if not (nonempty remote_sha)
    then absent
    else if not (nonempty sha) || not (git.object_exists remote_sha)
    then undetermined
    else if git.is_ancestor sha remote_sha == 0
    then contained
    else if git.is_ancestor sha remote_sha == 1
    then absent
    else undetermined

unfoldable pub exact_sha : String → List (String × String) → String
exact_sha target [] = ""
exact_sha target ((sha, name) ∷ lines) =
    let rest = exact_sha target lines in if name == target then sha else rest

-- git_ops.git_remote_ref_sha: `none` is an unreachable remote, the empty text an absent ref
unfoldable pub git_remote_ref_sha : Git → String → String → Option String
unfolding exact_sha has_prefix
git_remote_ref_sha git remote ref = elim (git.ls_remote remote ref) [
  | none ↦ none
  | some lines ↦
      some (exact_sha (if has_prefix "refs/" ref then ref else "refs/heads/" <> ref) lines)
]

audit_ref_test :
    audit_ref_for_sha " 0123456789ABCDEF0123456789abcdef01234567 "
    ≡ "refs/mergetrain/deploys/0123456789abcdef0123456789abcdef01234567"
unfolding audit_ref_for_sha lower is_commit_id char_at all_hex text_length strip
audit_ref_test = refl
