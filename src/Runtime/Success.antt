-- ===== src/Runtime/Success.antt =====
-- src/app/task_runtime_repository.cpp: what is known of the steps of a method that succeeded.
use photobridge.Base.{
  Bool, Bytes, Option, String, ap, ap₂, arith, false, inl, inr, list_eq, nat_beq_iff, nat_eq, none,
  option_eq, refl, some, string_eq, subst, sym, true, ℕ, ◌!=◌, ◌∙◌, ◌≡◌, ◌⊎◌,
}
use photobridge.Common.Status.{Code, Result, err, invalid_argument, ok, ok_injective, reject_if}
use photobridge.Runtime.Tables.{Tables}
use photobridge.Runtime.Store.{
  M, Repository, batched_epoch, begin_immediate, begin_with, checked_write, commit, commit_with,
  continue_with, later_faults, lift, or_rollback, query, rolled_back, sqlite_call, store_result,
  transaction, write, ◌>>=◌,
}
use photobridge.Runtime.Sql.{current_epoch, fence, fenced, found, read_current_epoch, within}

-- `m`, run in `s`, succeeds with `a` in `s'`.
abbrev pub Runs : {A : Type 0} → M A → Repository → A → Repository → Type 0
Runs m s a s' = m s ≡ (ok a, s')

continue_ok :
    {A B : Type 0} (r : Result A × Repository) (f : A → M B) {b : B} {s' : Repository}
    → continue_with r f ≡ (ok b, s')
    → (a : A) × (s1 : Repository) × (r ≡ (ok a, s1)) × Runs (f a) s1 b s'
continue_ok (ok a, s1) f h = (a, s1, refl, h)
continue_ok (err e, s1) f h = absurd (ground arith)

-- Both steps succeeded.
pub then_ok :
    {A B : Type 0} (m : M A) (f : A → M B) (s : Repository) {s' : Repository} {b : B}
    → Runs (m >>= f) s b s'
    → (a : A) × (s1 : Repository) × Runs m s a s1 × Runs (f a) s1 b s'
then_ok m f s h = continue_ok (m s) f h

pub value_of :
    {A : Type 0} {r : Result A} {s s' : Repository} {a : A}
    → ◌≡◌ {A = Result A × Repository} (r, s) (ok a, s')
    → r ≡ ok a
value_of h = ap (λ (p : Result _ × Repository). p.0) h

pub state_of :
    {A : Type 0} {r r' : Result A} {s s' : Repository}
    → ◌≡◌ {A = Result A × Repository} (r, s) (r', s')
    → s' ≡ s
state_of h = sym (ap (λ (p : Result _ × Repository). p.1) h)

pub lift_ok :
    {A : Type 0} (r : Result A) (s : Repository) {s' : Repository} {a : A}
    → Runs (lift r) s a s'
    → (r ≡ ok a) × (s' ≡ s)
lift_ok r s h = (value_of h, state_of h)

pub lift_then :
    {A B : Type 0} (r : Result A) (f : A → M B) (s : Repository) {s' : Repository} {b : B}
    → Runs (lift r >>= f) s b s'
    → (a : A) × (r ≡ ok a) × Runs (f a) s b s'
lift_then (ok a) f s h = (a, refl, h)
lift_then (err e) f s h = absurd (let q = value_of h in cc)

pub check_ok :
    (b : Bool) (c : Code) (m : String) (s : Repository) {s' : Repository} {u : Unit {0}}
    → Runs (lift (reject_if b c m)) s u s'
    → (b ≡ false) × (s' ≡ s)
check_ok true c m s h = absurd (let e = value_of h in cc)
check_ok false c m s h = (refl, state_of h)

pub found_ok :
    {A : Type 0} (o : Option A) (m : String) (s : Repository) {s' : Repository} {a : A}
    → Runs (lift (found o m)) s a s'
    → (o ≡ some a) × (s' ≡ s)
found_ok none m s h = absurd (let e = value_of h in cc)
found_ok (some x) m s h = (ap some (ok_injective (value_of h)), state_of h)

call_ok :
    (s : Repository) {s' : Repository} {u : Unit {0}}
    → Runs sqlite_call s u s'
    → s' ≡ record s { faults = later_faults s.faults }
unfolding sqlite_call
call_ok s h = state_of h

pub query_ok :
    {A : Type 0} (f : Tables → A) (s : Repository) {s' : Repository} {a : A}
    → Runs (query f) s a s'
    → (f s.tables ≡ a) × (s'.tables ≡ s.tables)
unfolding query
query_ok f s h =
    let (_, s1, c, k) = then_ok sqlite_call _ s h in
    let e = ap (λ (r : Repository). r.tables) (call_ok s c) in
    (ap f (sym e) ∙ ok_injective (value_of k), ap (λ (r : Repository). r.tables) (state_of k) ∙ e)

pub write_ok :
    (f : Tables → ℕ × Tables) (s : Repository) {s' : Repository} {n : ℕ}
    → Runs (write f) s n s'
    → f s.tables ≡ (n, s'.tables)
unfolding write
write_ok f s h =
    let (_, s1, c, k) = then_ok sqlite_call _ s h in
    let e = ap (λ (r : Repository). r.tables) (call_ok s c) in
    ap f (sym e)
    ∙ ap₂ (λ (n : ℕ) (t : Tables). (n, t)) (ok_injective (value_of k))
        (sym (ap (λ (r : Repository). r.tables) (state_of k)))

store_ok :
    {A : Type 0} (r : Result (A × Tables)) (s : Repository) {s' : Repository} {a : A}
    → Runs (store_result r) s a s'
    → r ≡ ok (a, s'.tables)
store_ok (ok (b, t)) s h =
    ap₂ (λ (x : _) (u : Tables). Result.ok (x, u)) (ok_injective (value_of h))
      (sym (ap (λ (r : Repository). r.tables) (state_of h)))
store_ok (err e) s h = absurd (let e = value_of h in cc)

pub checked_write_ok :
    {A : Type 0} (f : Tables → Result (A × Tables)) (s : Repository) {s' : Repository} {a : A}
    → Runs (checked_write f) s a s'
    → f s.tables ≡ ok (a, s'.tables)
unfolding checked_write
checked_write_ok f s h =
    let (_, s1, c, k) = then_ok sqlite_call _ s h in
    ap f (sym (ap (λ (r : Repository). r.tables) (call_ok s c))) ∙ store_ok (f s1.tables) s1 k

rolled_ok :
    {A : Type 0} (r : Result A × Repository) {s' : Repository} {a : A}
    → rolled_back r ≡ (ok a, s')
    → r ≡ (ok a, s')
rolled_ok (ok a, s) h = h
rolled_ok (err e, s) h = absurd (let q = value_of h in cc)

pub or_rollback_ok :
    {A : Type 0} (m : M A) (s : Repository) {s' : Repository} {a : A}
    → Runs (or_rollback m) s a s'
    → Runs m s a s'
unfolding or_rollback
or_rollback_ok m s h = rolled_ok (m s) h

begun_ok :
    (v : Option Tables) (s : Repository) {s' : Repository} {u : Unit {0}}
    → Runs (begin_with v) s u s'
    → s'.tables ≡ s.tables
unfolding begin_with
begun_ok none s h = ap (λ (r : Repository). r.tables) (state_of h)
begun_ok (some t) s h = ap (λ (r : Repository). r.tables) (state_of h)

committed_ok :
    (v : Option Tables) (s : Repository) {s' : Repository} {u : Unit {0}}
    → Runs (commit_with v) s u s'
    → s'.tables ≡ s.tables
unfolding commit_with
committed_ok none s h = ap (λ (r : Repository). r.tables) (state_of h)
committed_ok (some t) s h = ap (λ (r : Repository). r.tables) (state_of h)

-- A transaction that succeeds has the tables that its body left.
pub record Body {A : Type 0} (body : M A) (s : Repository) (a : A) (s' : Repository) : Type 0 where
  pub before : Repository
  pub after : Repository
  pub same_before : before.tables ≡ s.tables
  pub ran : Runs body before a after
  pub same_after : s'.tables ≡ after.tables

pub transaction_ok :
    {A : Type 0} (body : M A) (s : Repository) {s' : Repository} {a : A}
    → Runs (transaction body) s a s'
    → Body body s a s'
unfolding transaction begin_immediate commit
transaction_ok body s h =
    let (_, s1, b, h1) = then_ok begin_immediate _ s h in
    let (_, s0, c0, b0) = then_ok sqlite_call _ s b in
    let (x, s2, m, h2) = then_ok (or_rollback body) _ s1 h1 in
    let (_, s3, k, h3) = then_ok (or_rollback commit) _ s2 h2 in
    let (_, s4, c4, k4) = then_ok sqlite_call _ s2 (or_rollback_ok commit s2 k) in
    record {
      before = s1;
      after = s2;
      same_before = begun_ok s0.saved s0 b0 ∙ ap (λ (r : Repository). r.tables) (call_ok s c0);
      ran = subst (λ a. Runs body s1 a s2) (ok_injective (value_of h3)) (or_rollback_ok body s1 m);
      same_after =
          ap (λ (r : Repository). r.tables) (state_of h3)
          ∙ committed_ok s4.saved s4 k4
          ∙ ap (λ (r : Repository). r.tables) (call_ok s2 c4);
    }

-- The body ran under the epoch of the open batch, or else under the plan's current one.
abbrev pub IsFence : Option (Bytes × ℕ) → Bytes → ℕ → Tables → Type 0
IsFence batch plan epoch t =
    (batched_epoch batch plan ≡ some epoch) ⊎ (current_epoch plan t ≡ some epoch)

pub fence_ok :
    {A : Type 0} (epoch current : ℕ) (message : String) (body : M A) (s : Repository)
    {s' : Repository} {a : A}
    → Runs (fence epoch message body current) s a s'
    → (current ≡ epoch) × Runs body s a s'
fence_ok epoch current message body s h =
    let (_, s1, c, k) =
      then_ok (lift (reject_if (current != epoch) invalid_argument message)) (λ _. body) s h in
    let (e, q) = check_ok (current != epoch) invalid_argument message s c in
    ((nat_beq_iff current epoch).0 (ground arith), ap body (sym q) ∙ k)

pub read_epoch_ok :
    (plan : Bytes) (s : Repository) {s' : Repository} {n : ℕ}
    → Runs (read_current_epoch plan) s n s'
    → (current_epoch plan s.tables ≡ some n) × (s'.tables ≡ s.tables)
unfolding read_current_epoch
read_epoch_ok plan s h =
    let (o, s1, q, k) = then_ok (query (current_epoch plan)) _ s h in
    let (e, t) = query_ok (current_epoch plan) s q in
    let (f, u) = found_ok o "migration plan was not found" s1 k in
    (e ∙ f, ap (λ (r : Repository). r.tables) u ∙ t)

-- The fence held, and what came after it ran.
pub fence_rest_ok :
    {A : Type 0} (plan : Bytes) (epoch : ℕ) (message : String) (body : M A) (s : Repository)
    {s' : Repository} {a : A}
    → Body (read_current_epoch plan >>= fence epoch message body) s a s'
    → Body body s a s' × (current_epoch plan s.tables ≡ some epoch)
fence_rest_ok plan epoch message body s b =
    let (n, s1, r, k) = then_ok (read_current_epoch plan) _ b.before b.ran in
    let (e, t) = read_epoch_ok plan b.before r in
    let (q, m) = fence_ok epoch n message body s1 k in
    (
      record {
        before = s1;
        after = b.after;
        same_before = t ∙ b.same_before;
        ran = m;
        same_after = b.same_after;
      },
      ap (current_epoch plan) (sym b.same_before) ∙ e ∙ ap some q,
    )

within_ok :
    {A : Type 0} (o : Option ℕ) (plan : Bytes) (epoch : ℕ) (message : String) (body : M A)
    (s : Repository) {s' : Repository} {a : A}
    → Runs (within o plan (fence epoch message body)) s a s'
    → Body body s a s' × ((o ≡ some epoch) ⊎ (current_epoch plan s.tables ≡ some epoch))
unfolding within
within_ok none plan epoch message body s h =
    let (b, e) = fence_rest_ok plan epoch message body s (transaction_ok _ s h) in (b, inr e)
within_ok (some n) plan epoch message body s h =
    let (q, m) = fence_ok epoch n message body s (or_rollback_ok _ s h) in
    (
      record { before = s; after = _; same_before = refl; ran = m; same_after = refl },
      inl (ap some q),
    )

pub fenced_ok :
    {A : Type 0} (plan : Bytes) (epoch : ℕ) (message : String) (body : M A) (s : Repository)
    {s' : Repository} {a : A}
    → Runs (fenced plan epoch message body) s a s'
    → Body body s a s' × IsFence s.batch plan epoch s.tables
unfolding fenced
fenced_ok plan epoch message body s h =
    within_ok (batched_epoch s.batch plan) plan epoch message body s h
