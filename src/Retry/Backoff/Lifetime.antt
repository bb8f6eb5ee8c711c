-- ===== src/Retry/Backoff/Lifetime.antt =====
-- The budget and the references of an exponential backoff token, from the call that hands it to its
-- user on.
use aws_c_io.Base.{
  ℕ, ◌+◌, ◌≤◌, ◌<◌, ◌≡◌, ◌≢◌, ◌==◌, refl, ◌↔◌, ◌∙◌, arith, true, not, Option, none, some, is_some,
  u64_mod, OpResult, success, failure, TaskStatus,
}
use aws_c_io.Common.{Common}
use aws_c_io.Retry.{RetryErrorType, client_error}
use aws_c_io.Retry.Backoff.{
  Token, Env, Event, ready, task_error, schedule_retry, token_acquire, token_release, retry_task,
  invoke, clear,
}

abbrev pub pending : Option ℕ → ℕ
pending none = 0
pending (some fn) = 1

-- `held` references belong to the user, `internal` to a running task, one to a scheduled retry.
pub record Accounts (held internal : ℕ) (t : Token) : Type 0 where
  pub counted : t.ref_count ≡ held + internal + pending t.retry_ready_fn
  pub bounded : held + internal + 4 < u64_mod
  pub freed_iff : t.freed ≡ (t.ref_count == 0)
  pub marked : (t.user_data == 0) ≡ not (is_some t.retry_ready_fn)
  pub queued : is_some t.task ≡ is_some t.retry_ready_fn
  pub vended : t.acquired_fn ≡ none
  pub within : t.current_retry_count ≤ t.max_retries
  pub capped : t.max_retries ≤ 63

pub hold-Accounts :
    (held internal : ℕ) (t : Token)
    → Accounts held internal t
    → 0 < held
    → held + internal + 5 < u64_mod
    → Accounts (held + 1) internal (token_acquire t)
unfolding token_acquire
hold-Accounts held internal t a h k = ground arith

pub drop-Accounts :
    (held internal : ℕ) (t : Token)
    → Accounts (held + 1) internal t
    → Accounts held internal (token_release t)
unfolding token_release
drop-Accounts held internal t a = ground arith

pub drop_internal-Accounts :
    (held internal : ℕ) (t : Token)
    → Accounts held (internal + 1) t
    → Accounts held internal (token_release t)
unfolding token_release
drop_internal-Accounts held internal t a = ground arith

module _ (c : Common) (env : Env) where
  pub max_retries-schedule_retry :
      (t : Token) (error_type : RetryErrorType) (fn user_data : ℕ)
      → (schedule_retry c env error_type fn user_data t).0.max_retries ≡ t.max_retries
  unfolding schedule_retry token_acquire
  max_retries-schedule_retry t error_type fn user_data = ground arith

  pub schedule_retry-Accounts :
      (held internal : ℕ) (t : Token) (error_type : RetryErrorType) (fn user_data : ℕ)
      → Accounts held internal t
      → 0 < held
      → user_data ≢ 0
      → Accounts held internal (schedule_retry c env error_type fn user_data t).0
  unfolding schedule_retry token_acquire
  schedule_retry-Accounts held internal t error_type fn user_data a h k = ground arith

-- What a user's function may do with a token while it is called: it starts with `held` references
-- while the task has `internal`, keeps the accounts, ends with `held'`, and is granted `more` retries.
pub record Respects (on_event : Event → Token → Token) (e : Event) (internal held held' more : ℕ)
    : Type 0 where
  pub accounts : (u : Token) → Accounts held internal u → Accounts held' internal (on_event e u)
  pub limit : (u : Token) → (on_event e u).max_retries ≡ u.max_retries
  pub paid : (u : Token) → more + u.current_retry_count ≤ (on_event e u).current_retry_count

clear-Accounts :
    (held fn : ℕ) (t : Token)
    → Accounts held 0 t
    → t.retry_ready_fn ≡ some fn
    → held + 6 < u64_mod
    → Accounts held 2 (token_acquire (clear t))
unfolding clear token_acquire
clear-Accounts held fn t a e b = ground arith

pub retry_task-Accounts :
    (on_event : Event → Token → Token) (status : TaskStatus) (held held' more fn : ℕ) (t : Token)
    → Accounts held 0 t
    → t.retry_ready_fn ≡ some fn
    → held + 6 < u64_mod
    → Respects on_event (ready fn (task_error status) t.user_data) 2 held held' more
    → Accounts held' 0 (retry_task on_event status t)
unfolding retry_task invoke
retry_task-Accounts on_event status held held' more fn t a e b r =
    simp (a.vended, e)
      (drop_internal-Accounts held' 0 _
        (drop_internal-Accounts held' 1 _ (r.accounts _ (clear-Accounts held fn t a e b))))

retry_task_counts :
    (on_event : Event → Token → Token) (status : TaskStatus) (held held' more fn : ℕ) (t : Token)
    → t.acquired_fn ≡ none
    → t.retry_ready_fn ≡ some fn
    → Respects on_event (ready fn (task_error status) t.user_data) 2 held held' more
    → ((retry_task on_event status t).max_retries ≡ t.max_retries)
      × (more + t.current_retry_count ≤ (retry_task on_event status t).current_retry_count)
unfolding retry_task invoke token_release token_acquire clear
retry_task_counts on_event status held held' more fn t v e r =
    let u = token_acquire (clear t) in ground (arith, v, e, r.limit u, r.paid u)

count-token_release : (t : Token) → (token_release t).current_retry_count ≡ t.current_retry_count
unfolding token_release
count-token_release t = ground arith

max_retries-token_release : (t : Token) → (token_release t).max_retries ≡ t.max_retries
unfolding token_release
max_retries-token_release t = ground arith

-- A token with its user's references and the number of retries granted to it.
pub record System : Type 0 where
  pub held : ℕ
  pub granted : ℕ
  pub token : Token

abbrev charges : RetryErrorType → OpResult → ℕ
charges client_error _ = 0
charges _ success = 1
charges _ (failure e) = 0

freed_lem :
    (held : ℕ) (t : Token) → Accounts held 0 t → (t.freed ≡ true) ↔ ((held ≡ 0) × (t.task ≡ none))
freed_lem held t a = (λ h. ground arith, λ h. ground arith)

pub record Inv (s : System) : Type 0 where
  pub accounts : Accounts s.held 0 s.token
  pub paid : s.granted ≤ s.token.current_retry_count

module _ (c : Common) where
  -- One step of the user or of the event loop.
  pub data Step (s : System) : System → Type 0 where
    hold :
        0 < s.held
        → s.held + 6 < u64_mod
        → Step s (record s { held = s.held + 1; token = token_acquire s.token })
    drop : (n : ℕ) → s.held ≡ n + 1 → Step s (record s { held = n; token = token_release s.token })
    schedule :
        (env : Env) (error_type : RetryErrorType) (fn user_data : ℕ)
        → 0 < s.held
        → user_data ≢ 0
        → Step s (record {
          held = s.held;
          granted =
              s.granted
              + charges error_type (schedule_retry c env error_type fn user_data s.token).1;
          token = (schedule_retry c env error_type fn user_data s.token).0;
        })
    fire :
        (on_event : Event → Token → Token) (status : TaskStatus) (fn held' more : ℕ)
        → s.token.retry_ready_fn ≡ some fn
        → s.held + 6 < u64_mod
        → Respects on_event (ready fn (task_error status) s.token.user_data) 2 s.held held' more
        → Step s (record {
          held = held';
          granted = s.granted + more;
          token = retry_task on_event status s.token;
        })

  pub data Reach (s : System) : System → Type 0 where
    here : Reach s s
    next : {t u : System} → Reach s t → Step t u → Reach s u

  paid-schedule :
      (env : Env) (error_type : RetryErrorType) (fn user_data : ℕ) (held : ℕ) (t : Token)
      → Accounts held 0 t
      → charges error_type (schedule_retry c env error_type fn user_data t).1
          + t.current_retry_count
        ≤ (schedule_retry c env error_type fn user_data t).0.current_retry_count
  unfolding schedule_retry
  paid-schedule env error_type fn user_data held t a = ground arith

  step-Inv : {s t : System} → Inv s → Step s t → Inv t
  step-Inv {s} i (hold h k) = record {
    accounts = hold-Accounts s.held 0 s.token i.accounts h (omega arith);
    paid = unfold token_acquire in i.paid;
  }
  step-Inv {s} i (drop n e) = record {
    accounts = drop-Accounts n 0 s.token (rw e at i.accounts);
    paid = omega (arith, count-token_release s.token, i.paid);
  }
  step-Inv {s} i (schedule env error_type fn user_data h k) = record {
    accounts =
        schedule_retry-Accounts c env s.held 0 s.token error_type fn user_data i.accounts h k;
    paid =
        omega (arith, paid-schedule env error_type fn user_data s.held s.token i.accounts, i.paid);
  }
  step-Inv {s} i (fire on_event status fn held' more e b r) = record {
    accounts = retry_task-Accounts on_event status s.held held' more fn s.token i.accounts e b r;
    paid = omega (
      arith,
      retry_task_counts on_event status s.held held' more fn s.token i.accounts.vended e r,
      i.paid,
    );
  }

  step-max_retries : {s t : System} → Inv s → Step s t → t.token.max_retries ≡ s.token.max_retries
  step-max_retries {s} i (hold h k) = unfold token_acquire in refl
  step-max_retries {s} i (drop n e) = max_retries-token_release s.token
  step-max_retries {s} i (schedule env error_type fn user_data h k) =
      max_retries-schedule_retry c env s.token error_type fn user_data
  step-max_retries {s} i (fire on_event status fn held' more e b r) =
      (retry_task_counts on_event status s.held held' more fn s.token i.accounts.vended e r).0

  Reach-Inv : {s t : System} → Inv s → Reach s t → Inv t
  Reach-Inv i here = i
  Reach-Inv i (next r st) = step-Inv (Reach-Inv i r) st

  Reach-max_retries : {s t : System} → Inv s → Reach s t → t.token.max_retries ≡ s.token.max_retries
  Reach-max_retries i here = refl
  Reach-max_retries i (next r st) = step-max_retries (Reach-Inv i r) st ∙ Reach-max_retries i r

  -- Whatever the user and the event loop do with a token, no more retries are granted on it than
  -- its strategy allows. Errors of the client are granted without being counted.
  pub Reach-granted-le : (s t : System) → Inv s → Reach s t → t.granted ≤ s.token.max_retries
  Reach-granted-le s t i r =
      let j = Reach-Inv i r in omega (arith, j.paid, j.accounts.within, Reach-max_retries i r)

  -- A token is freed exactly when its user has no reference left and no retry is scheduled; so the
  -- task of a scheduled retry never runs on a freed token.
  pub Reach-freed_iff :
      (s t : System)
      → Inv s
      → Reach s t
      → (t.token.freed ≡ true) ↔ ((t.held ≡ 0) × (t.token.task ≡ none))
  Reach-freed_iff s t i r = freed_lem t.held t.token (Reach-Inv i r).accounts
