-- ===== src/Oms/RateLimiter.antt =====
-- include/oms/rate_limiter.hpp: the token buckets of a venue and the queue of deferred requests.
-- Tokens are counted in double, whose operations are a parameter of the model.
use market_microstructure_en.Base.{
  ℕ, ◌+◌, ◌-◌, ◌%◌, ◌^◌, max, Bool, true, false, ◌&&◌, ◌==◌, ltb, leb, if◌then◌else◌, List, Option,
  none, some, get_or, set, replicate,
}
use market_microstructure_en.Base.Int.{ℤ, pos}
use market_microstructure_en.Base.Words.{add64, sub64}
use market_microstructure_en.Exec.Types.{BrokerOrderRef}
pub mod Queue
pub mod Fifo
mod Tests

pub data RateLimitKind : Type 0 where
  order cancel replace : RateLimitKind

pub data Decision : Type 0 where
  admitted deferred rejected : Decision

pub data QueuePolicy : Type 0 where
  defer reject_immediately : QueuePolicy

abbrev pub is_defer : QueuePolicy → Bool
is_defer defer = true
is_defer reject_immediately = false

pub record PendingRequest : Type 0 where
  pub kind : RateLimitKind
  pub ref : BrokerOrderRef
  pub symbol : ℕ
  pub volume : ℤ
  pub price : ℤ

abbrev pub no_request : PendingRequest
no_request = record {
  kind = order;
  ref = record { run_id = 0; logical_order_id = 0 };
  symbol = 0;
  volume = pos 0;
  price = pos 0;
}

pub record Counters : Type 0 where
  pub admitted_count : ℕ
  pub deferred_count : ℕ
  pub rejected_count : ℕ

abbrev pub no_counts : Counters
no_counts = record { admitted_count = 0; deferred_count = 0; rejected_count = 0 }

-- The operations of `double` that the code uses. `seconds` is `static_cast<double>(ns) / 1e9`.
pub record Doubles : Type 1 where
  pub Double : Type 0
  pub of_nat : ℕ → Double
  pub seconds : ℕ → Double
  pub plus : Double → Double → Double
  pub minus : Double → Double → Double
  pub times : Double → Double → Double
  pub less : Double → Double → Bool

module _ (doubles : Doubles) where
  open doubles use {Double, of_nat, seconds, plus, minus, times, less}

  pub record TokenBucket : Type 0 where
    pub rate_per_sec : Double
    pub capacity : Double
    pub tokens : Double
    pub last_refill_ns : ℕ

  abbrev pub configure_bucket : Double → Double → ℕ → TokenBucket
  configure_bucket rate_per_sec burst_capacity now_ns = record {
    rate_per_sec = rate_per_sec;
    capacity = burst_capacity;
    tokens = burst_capacity;
    last_refill_ns = now_ns;
  }

  -- `std::min(a, b)`
  abbrev pub min_double : Double → Double → Double
  min_double a b = if less b a then b else a

  unfoldable pub refill : TokenBucket → ℕ → TokenBucket
  refill b now_ns = if leb now_ns b.last_refill_ns then b else record b {
    tokens =
        min_double b.capacity
          (plus b.tokens (times (seconds (now_ns - b.last_refill_ns)) b.rate_per_sec));
    last_refill_ns = now_ns;
  }

  unfoldable pub try_consume : TokenBucket → ℕ → Bool × TokenBucket
  try_consume b now_ns =
      let full = refill b now_ns in
      if less full.tokens (of_nat 1)
      then (false, full)
      else (true, record full { tokens = minus full.tokens (of_nat 1) })

  pub record VenueRateLimitConfig : Type 0 where
    pub orders_per_sec : Double
    pub burst_capacity : Double
    pub cancels_per_sec : Double
    pub replaces_per_sec : Double
    pub cancel_burst_capacity : Double
    pub replace_burst_capacity : Double
    pub policy : QueuePolicy
    pub pending_queue_capacity : ℕ

  abbrev pub default_config : VenueRateLimitConfig
  default_config = record {
    orders_per_sec = of_nat (10 ^ 18);
    burst_capacity = of_nat (10 ^ 18);
    cancels_per_sec = of_nat (10 ^ 18);
    replaces_per_sec = of_nat (10 ^ 18);
    cancel_burst_capacity = of_nat 0;
    replace_burst_capacity = of_nat 0;
    policy = reject_immediately;
    pending_queue_capacity = 0;
  }

  pub record VenueRateLimiter : Type 0 where
    pub config : VenueRateLimitConfig
    pub order_bucket : TokenBucket
    pub cancel_bucket : TokenBucket
    pub replace_bucket : TokenBucket
    pub order_counters : Counters
    pub cancel_counters : Counters
    pub replace_counters : Counters
    pub pending : List PendingRequest
    pub pending_capacity : ℕ
    pub pending_head : ℕ
    pub pending_count : ℕ
    pub high_water : ℕ
    pub queue_full_rejections : ℕ

  -- `burst > 0.0 ? burst : rate`
  abbrev pub burst_or : Double → Double → Double
  burst_or burst rate = if less (of_nat 0) burst then burst else rate

  unfoldable pub configure : VenueRateLimiter → VenueRateLimitConfig → ℕ → VenueRateLimiter
  configure l config now_ns = record l {
    config = config;
    order_bucket = configure_bucket config.orders_per_sec config.burst_capacity now_ns;
    cancel_bucket =
        configure_bucket config.cancels_per_sec
          (burst_or config.cancel_burst_capacity config.cancels_per_sec) now_ns;
    replace_bucket =
        configure_bucket config.replaces_per_sec
          (burst_or config.replace_burst_capacity config.replaces_per_sec) now_ns;
    pending = replicate config.pending_queue_capacity no_request;
    pending_capacity = config.pending_queue_capacity;
    pending_head = 0;
    pending_count = 0;
    high_water = 0;
  }

  -- The constructor: the members' initial values, then the default configuration.
  unfoldable pub make_limiter : VenueRateLimiter
  unfolding configure
  make_limiter =
      let empty = configure_bucket (of_nat 0) (of_nat 0) 0 in
      let fresh : VenueRateLimiter = record {
        config = default_config;
        order_bucket = empty;
        cancel_bucket = empty;
        replace_bucket = empty;
        order_counters = no_counts;
        cancel_counters = no_counts;
        replace_counters = no_counts;
        pending = replicate 0 no_request;
        pending_capacity = 0;
        pending_head = 0;
        pending_count = 0;
        high_water = 0;
        queue_full_rejections = 0;
      } in
      configure fresh default_config 0

  abbrev pub bucket_for : VenueRateLimiter → RateLimitKind → TokenBucket
  bucket_for l order = l.order_bucket
  bucket_for l cancel = l.cancel_bucket
  bucket_for l replace = l.replace_bucket

  -- The bucket that `bucket_for` refers to, after a call on it.
  abbrev pub with_bucket : VenueRateLimiter → RateLimitKind → TokenBucket → VenueRateLimiter
  with_bucket l order b = record l { order_bucket = b }
  with_bucket l cancel b = record l { cancel_bucket = b }
  with_bucket l replace b = record l { replace_bucket = b }

  abbrev pub counters_for : VenueRateLimiter → RateLimitKind → Counters
  counters_for l order = l.order_counters
  counters_for l cancel = l.cancel_counters
  counters_for l replace = l.replace_counters

  abbrev pub with_counters : VenueRateLimiter → RateLimitKind → Counters → VenueRateLimiter
  with_counters l order c = record l { order_counters = c }
  with_counters l cancel c = record l { cancel_counters = c }
  with_counters l replace c = record l { replace_counters = c }

  abbrev pub increment : Decision → Counters → Counters
  increment admitted c = record c { admitted_count = add64 c.admitted_count 1 }
  increment deferred c = record c { deferred_count = add64 c.deferred_count 1 }
  increment rejected c = record c { rejected_count = add64 c.rejected_count 1 }

  abbrev pub tally : VenueRateLimiter → RateLimitKind → Decision → VenueRateLimiter
  tally l kind decision = with_counters l kind (increment decision (counters_for l kind))

  -- The write behind the last pending request.
  unfoldable pub enqueue_pending : VenueRateLimiter → PendingRequest → VenueRateLimiter
  enqueue_pending l request = record l {
    pending = set l.pending ((l.pending_head + l.pending_count) % l.pending_capacity) request;
    pending_count = l.pending_count + 1;
    high_water = max l.high_water (l.pending_count + 1);
  }

  -- `admit` for a request that gets no token.
  unfoldable pub without_token : VenueRateLimiter → PendingRequest → Decision × VenueRateLimiter
  unfolding enqueue_pending
  without_token l request =
      if is_defer l.config.policy && ltb 0 l.pending_capacity
      then (if ltb l.pending_count l.pending_capacity
          then (deferred, tally (enqueue_pending l request) request.kind deferred)
          else (
            rejected,
            tally (record l { queue_full_rejections = add64 l.queue_full_rejections 1 })
                request.kind rejected,
          ))
      else (rejected, tally l request.kind rejected)

  unfoldable pub admit : VenueRateLimiter → PendingRequest → ℕ → Decision × VenueRateLimiter
  admit l request now_ns =
      let (has_token, bucket) = try_consume (bucket_for l request.kind) now_ns in
      let l' = with_bucket l request.kind bucket in
      if has_token then (admitted, tally l' request.kind admitted) else without_token l' request

  unfoldable pub try_drain_one : VenueRateLimiter → ℕ → Option PendingRequest × VenueRateLimiter
  try_drain_one l now_ns =
      let front = get_or l.pending l.pending_head no_request in
      let (has_token, bucket) = try_consume (bucket_for l front.kind) now_ns in
      let l' = with_bucket l front.kind bucket in
      if l.pending_count == 0
      then (none, l)
      else if has_token
      then (
        some front,
        tally
            (record l' {
              pending_head = (l.pending_head + 1) % l.pending_capacity;
              pending_count = l.pending_count - 1;
            })
            front.kind admitted,
      )
      else (none, l')
