-- ===== src/Cmd/Validation.antt =====
-- Options of pkg/cmd/options.go that pass their validation, and the executor made from them.
use Prim.Native.String.{String}
use kube_trigger.Base.{ℕ, ◌*◌, ◌≤◌, ◌<◌, ◌≡◌, Bool, false, none, some, arith, []}
use kube_trigger.Base.Int.{ℤ, pos, ◌≤ℤ◌, eqb_ℤ, wrap64, ◌*ℤ◌}
use kube_trigger.Executor.{Executor, Config}
use kube_trigger.Executor
use kube_trigger.Cmd.{Options, validate, get_executor_config, seconds}

-- What the validation checks of the numbers.
pub record AreSane (o : Options) : Type 0 where
  pub queue_size : pos 1 ≤ℤ o.queue_size
  pub workers : pos 1 ≤ℤ o.workers
  pub per_worker_qps : pos 1 ≤ℤ o.per_worker_qps
  pub max_retry : pos 0 ≤ℤ o.max_retry
  pub retry_delay : pos 0 ≤ℤ o.retry_delay
  pub timeout : pos 1 ≤ℤ o.timeout

validate-AreSane :
    (parse_level : String → Bool) (o : Options) → validate parse_level o ≡ none → AreSane o
unfolding validate
validate-AreSane parse_level o h = ground arith

seconds-pos : (n : ℕ) → n ≤ 9_223_372_036 → seconds (pos n) ≡ pos (1_000_000_000 * n)
unfolding seconds ◌*ℤ◌ wrap64
seconds-pos n h = ground arith

not_zero : (z : ℤ) → pos 1 ≤ℤ z → eqb_ℤ z (pos 0) ≡ false
not_zero z h = ground arith

-- Options that pass the validation, whose retry delay is not zero, and whose retry delay and timeout
-- fit a duration make an executor: its limits are those of the options, its queue is the one made
-- from the delays in nanoseconds and the overall rate, and no job is running.
pub validate-new :
    {Q I : Type 0} (parse_level : String → Bool) (new_queue : ℤ → ℤ → ℤ → ℤ → Q) (o : Options)
    (delay timeout : ℕ)
    → validate parse_level o ≡ none
    → o.retry_delay ≡ pos delay
    → 0 < delay
    → delay ≤ 9_223_372_036
    → o.timeout ≡ pos timeout
    → timeout ≤ 9_223_372_036
    → Executor.new {I = I} new_queue (get_executor_config o)
      ≡ some (record {
        workers = o.workers;
        max_queue_size = o.queue_size;
        max_retries = o.max_retry;
        allow_retries = o.action_retry;
        timeout = pos (1_000_000_000 * timeout);
        running_jobs = [];
        queue =
            new_queue
              (pos (1_000_000_000 * delay))
              Executor.max_retry_delay
              (wrap64 (o.workers *ℤ o.per_worker_qps))
              o.queue_size;
      })
unfolding Executor.new get_executor_config
validate-new parse_level new_queue o delay timeout h d d0 dm t tm =
    let sane = validate-AreSane parse_level o h in
    let some_time : 0 < timeout = ground arith in
    rw (
      d,
      t,
      seconds-pos delay dm,
      seconds-pos timeout tm,
      not_zero o.queue_size sane.queue_size,
      not_zero o.workers sane.workers,
      not_zero o.per_worker_qps sane.per_worker_qps,
      not_zero (pos (1_000_000_000 * delay)) (omega arith),
      not_zero (pos (1_000_000_000 * timeout)) (omega arith),
    )

-- The validation lets a retry delay of zero pass, and the executor refuses every such configuration.
pub zero_delay_refused :
    {Q I : Type 0} (new_queue : ℤ → ℤ → ℤ → ℤ → Q) (o : Options)
    → o.retry_delay ≡ pos 0
    → Executor.new {I = I} new_queue (get_executor_config o) ≡ none
unfolding Executor.new get_executor_config
zero_delay_refused new_queue o d = rw (d, seconds-pos 0 (omega arith)) (ground arith)
