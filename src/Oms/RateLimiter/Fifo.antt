-- ===== src/Oms/RateLimiter/Fifo.antt =====
-- The deferred requests of a venue leave in the order in which they came.
use mathlib.Core.List.{append-nil, append_assoc}
use market_microstructure_en.Base.{ℕ, ◌≡◌, sym, ap, ◌∙◌, List, [], ◌∷◌, ◌++◌}
use market_microstructure_en.Oms.RateLimiter.{
  PendingRequest, Doubles, VenueRateLimiter, VenueRateLimitConfig, admit, try_drain_one, configure,
}
use market_microstructure_en.Oms.RateLimiter.Queue.{
  queue, QueueInv, admit-queue, drain-queue, configure-Inv, deferred_by, taken,
}

module _ (doubles : Doubles) where
  -- The public calls that change the queue, each with its time.
  pub data Call : Type 0 where
    admits : PendingRequest → ℕ → Call
    drains : ℕ → Call
    configures : VenueRateLimitConfig doubles → ℕ → Call

  -- `departures` are the requests that left the queue: those drained, and those that were still pending
  -- at a configuration, which drops them.
  pub record Log : Type 0 where
    pub deferrals : List PendingRequest
    pub departures : List PendingRequest
    pub limiter : VenueRateLimiter doubles

  -- Runs the calls, and lists the requests that were deferred and those that left, in order.
  unfoldable pub run : VenueRateLimiter doubles → List Call → Log
  unfolding queue
  run l [] = record { deferrals = []; departures = []; limiter = l }
  run l (admits request now_ns ∷ calls) =
      let (decision, l') = admit doubles l request now_ns in
      let rest = run l' calls in
      record rest { deferrals = deferred_by doubles decision request ++ rest.deferrals }
  run l (drains now_ns ∷ calls) =
      let (out, l') = try_drain_one doubles l now_ns in
      let rest = run l' calls in record rest { departures = taken doubles out ++ rest.departures }
  run l (configures config now_ns ∷ calls) =
      let rest = run (configure doubles l config now_ns) calls in
      record rest { departures = queue doubles l ++ rest.departures }

  -- Whatever requests, drains and configurations a limiter receives, the requests leave the queue in the
  -- order in which they were deferred: those that were drained or dropped by a configuration, and then the
  -- ones still pending, are the ones pending at first and then the deferred ones, each once. The queue
  -- stays within its capacity.
  pub run-fifo :
      (l : VenueRateLimiter doubles) (calls : List Call)
      → QueueInv doubles l
      → ((run l calls).departures ++ queue doubles (run l calls).limiter
          ≡ queue doubles l ++ (run l calls).deferrals)
        × QueueInv doubles (run l calls).limiter
  unfolding run
  run-fifo l [] v = (sym (append-nil (queue doubles l)), v)
  run-fifo l (admits request now_ns ∷ calls) v =
      let (added, good) = admit-queue doubles l request now_ns v in
      let (rest, good') = run-fifo (admit doubles l request now_ns).1 calls good in
      (
        rest
            ∙ rw added (
                append_assoc (queue doubles l)
                  (deferred_by doubles (admit doubles l request now_ns).0 request) _),
        good',
      )
  run-fifo l (drains now_ns ∷ calls) v =
      let (front, good) = drain-queue doubles l now_ns v in
      let (rest, good') = run-fifo (try_drain_one doubles l now_ns).1 calls good in
      (
        append_assoc (taken doubles (try_drain_one doubles l now_ns).0) _ _
            ∙ ap (λ xs. taken doubles (try_drain_one doubles l now_ns).0 ++ xs) rest
            ∙ sym (append_assoc (taken doubles (try_drain_one doubles l now_ns).0) _ _)
            ∙ ap (λ xs. xs ++ (run (try_drain_one doubles l now_ns).1 calls).deferrals) (sym front),
        good',
      )
  run-fifo l (configures config now_ns ∷ calls) v =
      let (good, empty) = configure-Inv doubles l config now_ns in
      let (rest, good') = run-fifo (configure doubles l config now_ns) calls good in
      (
        append_assoc (queue doubles l) _ _
            ∙ ap (λ xs. queue doubles l ++ xs)
                (rest
                  ∙ ap (λ xs. xs ++ (run (configure doubles l config now_ns) calls).deferrals)
                      empty),
        good',
      )
