-- ===== src/Oms/RateLimiter/Queue.antt =====
-- What each call of the limiter does to the queue of deferred requests.
use native.Mathlib.Nat.{mod-lt, mod-eq_of_lt}
use mathlib.Core.List.{append-nil}
use market_microstructure_en.Base.{
  ltb→lt, ℕ, suc, ◌+◌, ◌-◌, ◌%◌, ◌≤◌, ◌<◌, ◌≡◌, refl, sym, ap, ◌∙◌, arith, ◌&&◌, ◌==◌, ltb, List,
  [], ◌∷◌, ◌++◌, Option, none, some, length, get_or, set, length-set, Bool-cases, inl, inr,
  length-replicate,
}
use market_microstructure_en.Base.Words.{add64}
use market_microstructure_en.Base.Window.{window, window-push, window-mod}
use market_microstructure_en.Oms.RateLimiter.{
  RateLimitKind, order, cancel, replace, Decision, admitted, deferred, rejected, PendingRequest,
  no_request, Doubles, TokenBucket, VenueRateLimiter, VenueRateLimitConfig, bucket_for, with_bucket,
  tally, is_defer, enqueue_pending, without_token, try_consume, admit, try_drain_one, configure,
}

module _ (doubles : Doubles) where
  -- The pending requests, oldest first.
  unfoldable pub queue : VenueRateLimiter doubles → List PendingRequest
  queue l = window no_request l.pending_capacity l.pending l.pending_head l.pending_count

  pub record QueueInv (l : VenueRateLimiter doubles) : Type 0 where
    pub stored : length l.pending ≡ l.pending_capacity
    pub bounded : l.pending_count ≤ l.pending_capacity
    pub inside : 0 < l.pending_capacity → l.pending_head < l.pending_capacity

  -- Two limiters with the same queue in the same storage.
  record SameQueue (l m : VenueRateLimiter doubles) : Type 0 where
    same_pending : l.pending ≡ m.pending
    same_capacity : l.pending_capacity ≡ m.pending_capacity
    same_head : l.pending_head ≡ m.pending_head
    same_count : l.pending_count ≡ m.pending_count

  SameQueue-queue : (l m : VenueRateLimiter doubles) → SameQueue l m → queue l ≡ queue m
  unfolding queue
  SameQueue-queue l m s = rw (s.same_pending, s.same_capacity, s.same_head, s.same_count) refl

  SameQueue-Inv : (l m : VenueRateLimiter doubles) → SameQueue l m → QueueInv m → QueueInv l
  SameQueue-Inv l m s v = record {
    stored = rw (s.same_pending, s.same_capacity) v.stored;
    bounded = rw (s.same_count, s.same_capacity) v.bounded;
    inside = rw (s.same_head, s.same_capacity) v.inside;
  }

  with_bucket-Same :
      (l : VenueRateLimiter doubles) (k : RateLimitKind) (b : TokenBucket doubles)
      → SameQueue (with_bucket doubles l k b) l
  with_bucket-Same l order b = record {
    same_pending = refl;
    same_capacity = refl;
    same_head = refl;
    same_count = refl;
  }
  with_bucket-Same l cancel b = record {
    same_pending = refl;
    same_capacity = refl;
    same_head = refl;
    same_count = refl;
  }
  with_bucket-Same l replace b = record {
    same_pending = refl;
    same_capacity = refl;
    same_head = refl;
    same_count = refl;
  }

  tally-Same :
      (l : VenueRateLimiter doubles) (k : RateLimitKind) (d : Decision)
      → SameQueue (tally doubles l k d) l
  tally-Same l order d = record {
    same_pending = refl;
    same_capacity = refl;
    same_head = refl;
    same_count = refl;
  }
  tally-Same l cancel d = record {
    same_pending = refl;
    same_capacity = refl;
    same_head = refl;
    same_count = refl;
  }
  tally-Same l replace d = record {
    same_pending = refl;
    same_capacity = refl;
    same_head = refl;
    same_count = refl;
  }

  -- What a call did to the queue: it left it, added one request at the back, or took the front.
  record Kept (l m : VenueRateLimiter doubles) : Type 0 where
    kept_queue : queue l ≡ queue m
    kept-Inv : QueueInv l

  tally-Kept :
      (l : VenueRateLimiter doubles) (k : RateLimitKind) (d : Decision)
      → QueueInv l
      → Kept (tally doubles l k d) l
  tally-Kept l k d v = record {
    kept_queue = SameQueue-queue (tally doubles l k d) l (tally-Same l k d);
    kept-Inv = SameQueue-Inv (tally doubles l k d) l (tally-Same l k d) v;
  }

  with_bucket-Kept :
      (l : VenueRateLimiter doubles) (k : RateLimitKind) (b : TokenBucket doubles)
      → QueueInv l
      → Kept (with_bucket doubles l k b) l
  with_bucket-Kept l k b v = record {
    kept_queue = SameQueue-queue (with_bucket doubles l k b) l (with_bucket-Same l k b);
    kept-Inv = SameQueue-Inv (with_bucket doubles l k b) l (with_bucket-Same l k b) v;
  }

  enqueue-queue :
      (l : VenueRateLimiter doubles) (request : PendingRequest)
      → QueueInv l
      → l.pending_count < l.pending_capacity
      → (queue (enqueue_pending doubles l request) ≡ queue l ++ (request ∷ []))
        × QueueInv (enqueue_pending doubles l request)
  unfolding enqueue_pending queue
  enqueue-queue l request v room = (
    ap
          (window no_request l.pending_capacity
            (set l.pending ((l.pending_head + l.pending_count) % l.pending_capacity) request)
            l.pending_head)
          (add_one l.pending_count)
        ∙ window-push no_request l.pending_capacity l.pending l.pending_head l.pending_count request
            v.stored room,
    record {
      stored = length-set l.pending _ request ∙ v.stored;
      bounded = omega arith;
      inside = v.inside;
    },
  )
    where
      add_one : (n : ℕ) → n + 1 ≡ suc n
      add_one n = omega arith

  -- The requests that an answer of `admit` adds to the queue.
  abbrev pub deferred_by : Decision → PendingRequest → List PendingRequest
  deferred_by deferred request = request ∷ []
  deferred_by admitted request = []
  deferred_by rejected request = []

  -- The queue after an answer to a request, and the invariant.
  abbrev pub Answered :
      VenueRateLimiter doubles → PendingRequest → Decision × VenueRateLimiter doubles → Type 0
  Answered l request (decision, l') =
      (queue l' ≡ queue l ++ deferred_by decision request) × QueueInv l'

  unchanged :
      (l m : VenueRateLimiter doubles) (k : RateLimitKind) (d : Decision)
      → SameQueue m l
      → QueueInv l
      → (queue (tally doubles m k d) ≡ queue l ++ []) × QueueInv (tally doubles m k d)
  unchanged l m k d same v =
      let k' = tally-Kept m k d (SameQueue-Inv m l same v) in
      (k'.kept_queue ∙ SameQueue-queue m l same ∙ sym (append-nil (queue l)), k'.kept-Inv)

  without_token-queue :
      (l : VenueRateLimiter doubles) (request : PendingRequest)
      → QueueInv l
      → Answered l request (without_token doubles l request)
  unfolding without_token
  without_token-queue l request v =
      elim (Bool-cases (is_defer l.config.policy && ltb 0 l.pending_capacity)) [
        | inr e ↦ rw e (unchanged l l request.kind rejected itself v)
        | inl e ↦ elim (Bool-cases (ltb l.pending_count l.pending_capacity)) [
          | inl room ↦
              let (added, good) = enqueue-queue l request v (ltb→lt _ _ room) in
              let kept =
                tally-Kept (enqueue_pending doubles l request) request.kind deferred good in
              rw (e, room) (kept.kept_queue ∙ added, kept.kept-Inv)
          | inr full ↦
              rw (e, full)
                (unchanged l (record l { queue_full_rejections = add64 l.queue_full_rejections 1 })
                  request.kind rejected
                  (record {
                    same_pending = refl;
                    same_capacity = refl;
                    same_head = refl;
                    same_count = refl;
                  })
                  v)
        ]
      ]
    where
      itself : {m : VenueRateLimiter doubles} → SameQueue m m
      itself = record {
        same_pending = refl;
        same_capacity = refl;
        same_head = refl;
        same_count = refl;
      }

  pub admit-queue :
      (l : VenueRateLimiter doubles) (request : PendingRequest) (now_ns : ℕ)
      → QueueInv l
      → Answered l request (admit doubles l request now_ns)
  unfolding admit
  admit-queue l request now_ns v =
      elim (Bool-cases (try_consume doubles (bucket_for doubles l request.kind) now_ns).0) [
        | inl e ↦
            rw e (unchanged l (after l) request.kind admitted (with_bucket-Same l request.kind _) v)
        | inr e ↦
            let kept =
              with_bucket-Kept l request.kind
                (try_consume doubles (bucket_for doubles l request.kind) now_ns).1 v in
            let (q, good) = without_token-queue (after l) request kept.kept-Inv in
            rw e (
              q
                  ∙ ap (λ xs. xs ++ deferred_by (without_token doubles (after l) request).0 request)
                      kept.kept_queue,
              good,
            )
      ]
    where
      after : VenueRateLimiter doubles → VenueRateLimiter doubles
      after l =
          with_bucket doubles l request.kind
            (try_consume doubles (bucket_for doubles l request.kind) now_ns).1

  -- The limiter after the front request is taken out, before and after its bucket is written back.
  abbrev popped : VenueRateLimiter doubles → VenueRateLimiter doubles
  popped l = record l {
    pending_head = (l.pending_head + 1) % l.pending_capacity;
    pending_count = l.pending_count - 1;
  }

  abbrev popped_from :
      VenueRateLimiter doubles → RateLimitKind → TokenBucket doubles → VenueRateLimiter doubles
  popped_from l k b = record (with_bucket doubles l k b) {
    pending_head = (l.pending_head + 1) % l.pending_capacity;
    pending_count = l.pending_count - 1;
  }

  popped-Same :
      (l : VenueRateLimiter doubles) (k : RateLimitKind) (b : TokenBucket doubles)
      → SameQueue (popped_from l k b) (popped l)
  popped-Same l order b = record {
    same_pending = refl;
    same_capacity = refl;
    same_head = refl;
    same_count = refl;
  }
  popped-Same l cancel b = record {
    same_pending = refl;
    same_capacity = refl;
    same_head = refl;
    same_count = refl;
  }
  popped-Same l replace b = record {
    same_pending = refl;
    same_capacity = refl;
    same_head = refl;
    same_count = refl;
  }

  popped-queue :
      (l : VenueRateLimiter doubles)
      → QueueInv l
      → 0 < l.pending_count
      → (queue l ≡ get_or l.pending l.pending_head no_request ∷ queue (popped l))
        × QueueInv (popped l)
  unfolding queue
  popped-queue l v some_left = (
    ap (window no_request l.pending_capacity l.pending l.pending_head) more
        ∙ unfold window in
          rw here (
            ap (λ xs. get_or l.pending l.pending_head no_request ∷ xs)
              (sym (
                window-mod no_request l.pending_capacity l.pending (l.pending_head + 1)
                  (l.pending_count - 1)))),
    record {
      stored = v.stored;
      bounded = omega (arith, v.bounded);
      inside = λ h. mod-lt (l.pending_head + 1) h;
    },
  )
    where
      more : l.pending_count ≡ suc (l.pending_count - 1)
      more = omega arith

      here : l.pending_head % l.pending_capacity ≡ l.pending_head
      here = mod-eq_of_lt (v.inside (omega (arith, v.bounded)))

  -- The requests that an answer of `try_drain_one` takes from the queue.
  abbrev pub taken : Option PendingRequest → List PendingRequest
  taken none = []
  taken (some request) = request ∷ []

  abbrev pub Drained :
      VenueRateLimiter doubles → Option PendingRequest × VenueRateLimiter doubles → Type 0
  Drained l (out, l') = (queue l ≡ taken out ++ queue l') × QueueInv l'

  pub drain-queue :
      (l : VenueRateLimiter doubles) (now_ns : ℕ)
      → QueueInv l
      → Drained l (try_drain_one doubles l now_ns)
  unfolding try_drain_one
  drain-queue l now_ns v = elim (Bool-cases (l.pending_count == 0)) [
    | inl e ↦ rw e (refl, v)
    | inr e ↦
        let k = (get_or l.pending l.pending_head no_request).kind in
        let b = (try_consume doubles (bucket_for doubles l k) now_ns).1 in
        elim (Bool-cases (try_consume doubles (bucket_for doubles l k) now_ns).0) [
          | inl t ↦
              let (front, good) = popped-queue l v (ground arith) in
              let good' = SameQueue-Inv (popped_from l k b) (popped l) (popped-Same l k b) good in
              let kept = tally-Kept (popped_from l k b) k admitted good' in
              rw (e, t)
                (
                  front
                      ∙ ap (λ xs. get_or l.pending l.pending_head no_request ∷ xs)
                          (sym (
                            kept.kept_queue
                            ∙ SameQueue-queue (popped_from l k b) (popped l) (popped-Same l k b))),
                  kept.kept-Inv,
                )
          | inr t ↦
              let kept = with_bucket-Kept l k b v in rw (e, t) (sym kept.kept_queue, kept.kept-Inv)
        ]
  ]

  -- A limiter that was just configured has an empty queue.
  pub configure-Inv :
      (l : VenueRateLimiter doubles) (config : VenueRateLimitConfig doubles) (now_ns : ℕ)
      → QueueInv (configure doubles l config now_ns)
        × (queue (configure doubles l config now_ns) ≡ [])
  unfolding configure queue window
  configure-Inv l config now_ns = (
    record {
      stored = length-replicate config.pending_queue_capacity no_request;
      bounded = omega arith;
      inside = λ h. h;
    },
    refl,
  )
