-- ===== src/Sessions/Slots.antt =====
-- The cap of the limiter.
use cursor_gateway.Base.{ℕ, ◌≤◌, ◌<◌, true, List, [], ◌∷◌, ◌≡◌, arith}
use cursor_gateway.Sessions.{
  Slots, slot_count, try_acquire, release, Request, request, requests, acquires, releases,
}

request-bounded :
    (max key : ℕ) (r : Request) (m : Slots)
    → slot_count key m ≤ max
    → slot_count key (request max r m) ≤ max
unfolding request try_acquire release slot_count
request-bounded max key (acquires k) m h = ground arith
request-bounded max key (releases k) m h = ground arith

-- Whatever is acquired and released, a key that held no more than `max` slots never holds more.
pub requests-bounded :
    (max key : ℕ) (rs : List Request) (m : Slots)
    → slot_count key m ≤ max
    → slot_count key (requests max rs m) ≤ max
unfolding requests
requests-bounded max key [] m h = h
requests-bounded max key (r ∷ rs) m h =
    requests-bounded max key rs (request max r m) (request-bounded max key r m h)

-- A key that holds a slot, and no more than `max`, gets one again after it has released one: it then
-- holds as many as before, and so does every other key.
pub release-reopens :
    (max key other : ℕ) (m : Slots)
    → 0 < slot_count key m
    → slot_count key m ≤ max
    → ((try_acquire max key (release key m)).1 ≡ true)
      × (slot_count other (try_acquire max key (release key m)).0 ≡ slot_count other m)
unfolding try_acquire release slot_count
release-reopens max key other m held h = ground arith
