-- ===== src/Oms/Scheduler/Tests.antt =====
-- Fairness with two strategies, the first of which has more requests and a larger quantum.
use market_microstructure_en.Base.{ℕ, ◌≤◌, ◌<◌, ◌≡◌, refl, arith, true, some, length}
use market_microstructure_en.Base.Int.{pos}
use market_microstructure_en.Exec.Types.{buy, sell}
use market_microstructure_en.Oms.RateLimiter.{PendingRequest, no_request}
use market_microstructure_en.Oms.Scheduler.{
  StrategyScheduler, make_scheduler, register_strategy, enqueue, add_request, slot_of, free_slot,
  active, slot_at, next_request,
}
use market_microstructure_en.Oms.Scheduler.Wait.{SchedulerInv, others, front}
use market_microstructure_en.Oms.Scheduler.Keep.{
  make_scheduler-Inv, register_strategy-Inv, enqueue-Inv,
}
use market_microstructure_en.Oms.Scheduler.Fair.{next-fair, next_times}

abbrev request_of : ℕ → PendingRequest
request_of volume = record no_request { volume = pos volume }

abbrev two : StrategyScheduler
two = (register_strategy (register_strategy (make_scheduler 3 4) 7 2).1 8 1).1

two-Inv : SchedulerInv two
two-Inv =
    register_strategy-Inv (register_strategy (make_scheduler 3 4) 7 2).1 8 1
      (register_strategy-Inv (make_scheduler 3 4) 7 2 (make_scheduler-Inv 3 4 (omega arith)))

abbrev busy : StrategyScheduler
busy =
    (enqueue (enqueue (enqueue two 7 0 buy (request_of 1)).1 7 0 buy (request_of 2)).1 8 0 sell
      (request_of 3)).1

busy-Inv : SchedulerInv busy
busy-Inv =
    enqueue-Inv (enqueue (enqueue two 7 0 buy (request_of 1)).1 7 0 buy (request_of 2)).1 8 0 sell
      (request_of 3)
      (enqueue-Inv (enqueue two 7 0 buy (request_of 1)).1 7 0 buy (request_of 2)
        (enqueue-Inv two 7 0 buy (request_of 1) two-Inv))

busy_active : active (slot_at busy 1) ≡ true
unfolding active enqueue add_request slot_of register_strategy free_slot make_scheduler
busy_active = refl

busy_inside : 1 < length busy.slots
unfolding enqueue add_request slot_of register_strategy free_slot make_scheduler
busy_inside = omega arith

next-fair_example :
    (k : ℕ) × (k ≤ others busy 1) × ((next_request (next_times k busy)).0 ≡ some (front busy 1))
next-fair_example = next-fair busy 1 busy-Inv busy_inside busy_active
