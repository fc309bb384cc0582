-- ===== src/Oms/RateLimiter/Tests.antt =====
-- A limiter of one order a second that defers what it cannot admit, with whole tokens for doubles.
use market_microstructure_en.Base.{ℕ, ◌+◌, ◌-◌, ◌*◌, ◌/◌, ◌≡◌, ltb, List, [], ◌∷◌, ◌++◌, refl}
use market_microstructure_en.Base.Int.{pos}
use market_microstructure_en.Base.Window.{window}
use market_microstructure_en.Oms.RateLimiter.{
  PendingRequest, no_request, Doubles, VenueRateLimiter, VenueRateLimitConfig, default_config,
  defer, make_limiter, configure, admit, try_drain_one, refill, try_consume, without_token,
  enqueue_pending,
}
use market_microstructure_en.Oms.RateLimiter.Fifo.{Call, admits, drains, configures, run, run-fifo}
use market_microstructure_en.Oms.RateLimiter.Queue.{queue, QueueInv, configure-Inv}

abbrev whole : Doubles
whole = record {
  Double = ℕ;
  of_nat = λ n. n;
  seconds = λ ns. ns / 1000000000;
  plus = λ a b. a + b;
  minus = λ a b. a - b;
  times = λ a b. a * b;
  less = ltb;
}

abbrev slow : VenueRateLimitConfig whole
slow = record (default_config whole) {
  orders_per_sec = 1;
  burst_capacity = 1;
  policy = defer;
  pending_queue_capacity = 2;
}

abbrev fresh : VenueRateLimiter whole
fresh = configure whole (make_limiter whole) slow 0

abbrev request_of : ℕ → PendingRequest
request_of volume = record no_request { volume = pos volume }

-- The first is admitted, the next two are deferred, one of them is drained a second later and
-- the other dropped by a configuration.
abbrev calls : List (Call whole)
calls =
    admits (request_of 1) 1
    ∷ admits (request_of 2) 2
    ∷ admits (request_of 3) 3
    ∷ drains 2000000000
    ∷ drains 2000000001
    ∷ configures slow 2000000002
    ∷ []

released : (run whole fresh calls).departures ≡ request_of 2 ∷ request_of 3 ∷ []
unfolding run admit try_drain_one refill try_consume without_token enqueue_pending configure
    make_limiter window
released = refl

run-fifo_example :
    ((run whole fresh calls).departures ++ queue whole (run whole fresh calls).limiter
      ≡ queue whole fresh ++ (run whole fresh calls).deferrals)
    × QueueInv whole (run whole fresh calls).limiter
run-fifo_example = run-fifo whole fresh calls (configure-Inv whole (make_limiter whole) slow 0).0
