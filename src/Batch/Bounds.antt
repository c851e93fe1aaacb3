-- ===== src/Batch/Bounds.antt =====
-- What holds in every state of `Execute` (internal/batch/batch.go).
use acm_caas_poc.Prelude.{
  ℕ, suc, ◌≤◌, ◌<◌, String, ◌≡◌, refl, ap, List, [], ◌∷◌, map, arith, length, count_if,
  length-append,
}
use acm_caas_poc.Prelude.Int.{ℤ, pos, negsuc}
use acm_caas_poc.Batch.{
  Work, Result, clamp, Slot, waiting, holds, has_sent, State, start, Takes, take, Sends, send,
  Releases, release, Stores, store_here, store_there, Change, here, there, Step, takes, sends,
  stores, releases, prints, closes, ends_printing, ends, none_yet, then, Run,
}

-- The bound of the concurrency is at least 1, at most 20, and at most the number of items if there
-- are any.
pub clamp_bounds :
    (concurrency : ℤ) (items : ℕ)
    → (1 ≤ clamp concurrency items)
      × (clamp concurrency items ≤ 20)
      × (0 < items → clamp concurrency items ≤ items)
unfolding clamp
clamp_bounds (pos n) items = ground arith
clamp_bounds (negsuc n) items = ground arith

-- The counters after a move.
holds-Takes : {xs ys : List Slot} → Change Takes xs ys → count_if holds ys ≡ suc (count_if holds xs)
holds-Takes (here take) = ground arith
holds-Takes (there {s} c) = ground (arith, holds-Takes c)

holds-Sends :
    {line : String} {xs ys : List Slot}
    → Change (Sends line) xs ys
    → count_if holds ys ≡ count_if holds xs
holds-Sends (here (send e)) = ground arith
holds-Sends (there {s} c) = ground (arith, holds-Sends c)

holds-Releases : {xs ys : List Slot} → Change Releases xs ys → count_if holds ys ≤ count_if holds xs
holds-Releases (here release) = ground arith
holds-Releases (there {s} c) = ground (arith, holds-Releases c)

holds-Stores :
    {r : Result} {i : ℕ} {xs ys : List Slot}
    → Stores r i xs ys
    → count_if holds ys ≡ count_if holds xs
holds-Stores store_here = ground arith
holds-Stores (store_there {s = s} c) = ground (arith, holds-Stores c)

sent-Takes : {xs ys : List Slot} → Change Takes xs ys → count_if has_sent ys ≡ count_if has_sent xs
sent-Takes (here take) = ground arith
sent-Takes (there {s} c) = ground (arith, sent-Takes c)

sent-Sends :
    {line : String} {xs ys : List Slot}
    → Change (Sends line) xs ys
    → count_if has_sent ys ≡ suc (count_if has_sent xs)
sent-Sends (here (send e)) = ground arith
sent-Sends (there {s} c) = ground (arith, sent-Sends c)

sent-Releases :
    {xs ys : List Slot} → Change Releases xs ys → count_if has_sent ys ≡ count_if has_sent xs
sent-Releases (here release) = ground arith
sent-Releases (there {s} c) = ground (arith, sent-Releases c)

sent-Stores :
    {r : Result} {i : ℕ} {xs ys : List Slot}
    → Stores r i xs ys
    → count_if has_sent ys ≡ count_if has_sent xs
sent-Stores store_here = ground arith
sent-Stores (store_there {s = s} c) = ground (arith, sent-Stores c)

-- In every state the semaphore is held at most `bound` times, and no line is in the channel whose
-- goroutine has not sent it.
pub record Bounded (bound : ℕ) (s : State) : Type 0 where
  pub held : count_if holds s.slots ≤ bound
  pub buffered : length s.lines ≤ count_if has_sent s.slots

pub Bounded-Step :
    {bound capacity : ℕ} {s t : State} → Step bound capacity s t → Bounded bound s → Bounded bound t
Bounded-Step {s = s} (takes free c) h = record {
  held = omega (arith, holds-Takes c, free);
  buffered = omega (arith, sent-Takes c, h.buffered);
}
Bounded-Step {s = s} (sends line not_closed room c) h = record {
  held = omega (arith, holds-Sends c, h.held);
  buffered = omega (arith, sent-Sends c, h.buffered, length-append s.lines (line ∷ []));
}
Bounded-Step {s = s} (releases c) h = record {
  held = omega (arith, holds-Releases c, h.held);
  buffered = omega (arith, sent-Releases c, h.buffered);
}
Bounded-Step {s = s} (stores i r c) h = record {
  held = omega (arith, holds-Stores c, h.held);
  buffered = omega (arith, sent-Stores c, h.buffered);
}
Bounded-Step (closes not_closed ended) h = record { held = h.held; buffered = h.buffered }
Bounded-Step (ends_printing going closed empty) h = record { held = h.held; buffered = h.buffered }
Bounded-Step (ends going closed done) h = record { held = h.held; buffered = h.buffered }
Bounded-Step {s = s} (prints line {rest} e) h = record {
  held = h.held;
  buffered = omega (arith, h.buffered, ap length e);
}

none_sent : (work : List Work) → count_if has_sent (map waiting work) ≡ 0
none_sent [] = refl
none_sent (w ∷ work) = ground (arith, none_sent work)

none_held : (work : List Work) → count_if holds (map waiting work) ≡ 0
none_held [] = refl
none_held (w ∷ work) = ground (arith, none_held work)

-- Whatever the order in which the goroutines of Execute move, at no time are more of them between
-- taking and releasing the semaphore than the bound of the concurrency, and the channel holds no
-- more lines than goroutines have sent.
pub run-Bounded :
    (concurrency : ℤ) (work : List Work) {s : State}
    → Run concurrency work s
    → Bounded (clamp concurrency (length work)) s
unfolding start
run-Bounded concurrency work none_yet = record {
  held = omega (arith, none_held work);
  buffered = omega (arith, none_sent work);
}
run-Bounded concurrency work (then run step) = Bounded-Step step (run-Bounded concurrency work run)
