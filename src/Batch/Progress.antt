-- ===== src/Batch/Progress.antt =====
-- `Execute` of internal/batch/batch.go ends, with the results in the order of the work.
use acm_caas_poc.Prelude.{
  ℕ, suc, ◌+◌, ◌≤◌, ◌<◌, String, ◌≡◌, refl, ap, ◌∙◌, ◌↔◌, inl, inr, Bool, true, false, List, [],
  ◌∷◌, ◌++◌, map, arith, Bool-cases, length, count_if, length-append,
}
use acm_caas_poc.Prelude.Int.{ℤ}
use acm_caas_poc.Batch.{
  Work, Result, line_of, clamp, Slot, waiting, running, reported, stored, finished, holds, has_sent,
  has_ended, State, start, set_at, Takes, take, Sends, send, Releases, release, Stores, store_here,
  store_there, Change, here, there, Step, takes, sends, stores, releases, prints, closes,
  ends_printing, ends, none_yet, then, Run,
}
use acm_caas_poc.Batch.Bounds.{clamp_bounds, run-Bounded}

-- The steps that are left of one goroutine, the printing of its line included if it is not sent.
unfoldable pub left_of : Slot → ℕ
left_of (waiting _) = 5
left_of (running _) = 4
left_of (reported _ _) = 2
left_of (stored _ _) = 1
left_of (finished _ _) = 0

unfoldable pub left_in : List Slot → ℕ
left_in [] = 0
left_in (s ∷ rest) = left_of s + left_in rest

-- A step of Execute itself or of the printer that is not taken yet.
abbrev to_come : Bool → ℕ
to_come true = 0
to_come false = 1

abbrev pub remaining : State → ℕ
remaining s =
    left_in s.slots
    + length s.lines
    + to_come s.closed
    + to_come s.printer_done
    + to_come s.returned

left-Takes : {xs ys : List Slot} → Change Takes xs ys → left_in xs ≡ suc (left_in ys)
unfolding left_of left_in
left-Takes (here take) = omega arith
left-Takes (there c) = omega (arith, left-Takes c)

left-Sends :
    {line : String} {xs ys : List Slot} → Change (Sends line) xs ys → left_in xs ≡ 2 + left_in ys
unfolding left_of left_in
left-Sends (here (send e)) = omega arith
left-Sends (there c) = omega (arith, left-Sends c)

left-Releases : {xs ys : List Slot} → Change Releases xs ys → left_in xs ≡ suc (left_in ys)
unfolding left_of left_in
left-Releases (here release) = omega arith
left-Releases (there c) = omega (arith, left-Releases c)

left-Stores :
    {r : Result} {i : ℕ} {xs ys : List Slot} → Stores r i xs ys → left_in xs ≡ suc (left_in ys)
unfolding left_of left_in
left-Stores store_here = omega arith
left-Stores (store_there c) = omega (arith, left-Stores c)

pub remaining-Step :
    {bound capacity : ℕ} {s t : State} → Step bound capacity s t → remaining s ≡ suc (remaining t)
remaining-Step (takes free c) = omega (arith, left-Takes c)
remaining-Step {s = s} (sends line not_closed room c) =
    omega (arith, left-Sends c, length-append s.lines (line ∷ []))
remaining-Step (stores i r c) = omega (arith, left-Stores c)
remaining-Step (releases c) = omega (arith, left-Releases c)
remaining-Step (prints line {rest} e) = omega (arith, ap length e)
remaining-Step (closes not_closed ended) = omega (arith, ap to_come not_closed)
remaining-Step (ends_printing going closed empty) = omega (arith, ap to_come going)
remaining-Step (ends going closed done) = omega (arith, ap to_come going)

-- What some goroutine can do: store its result, release the semaphore, send if the channel has room, take the semaphore if no
-- goroutine holds it, or nothing because all have ended.
data Choice (xs : List Slot) : Type 0 where
  can_store : {ys : List Slot} (i : ℕ) (r : Result) → Stores r i xs ys → Choice xs
  can_release : {ys : List Slot} → Change Releases xs ys → Choice xs
  can_send :
      {ys : List Slot} (line : String)
      → Change (Sends line) xs ys
      → count_if has_sent xs < length xs
      → Choice xs
  can_take : {ys : List Slot} → Change Takes xs ys → count_if holds xs ≡ 0 → Choice xs
  all_ended : left_in xs ≡ 0 → count_if holds xs ≡ 0 → Choice xs

sent-bounded : (xs : List Slot) → count_if has_sent xs ≤ length xs
sent-bounded [] = omega arith
sent-bounded (s ∷ xs) = ground (arith, sent-bounded xs)

choice : (xs : List Slot) → Choice xs
unfolding left_of left_in
choice [] = all_ended refl refl
choice (running w ∷ rest) =
    can_send (line_of w.name w.returns) (here (send refl)) (omega (arith, sent-bounded rest))
choice (reported w r ∷ rest) = can_store 0 r store_here
choice (stored w r ∷ rest) = can_release (here release)
choice (waiting w ∷ rest) = elim (choice rest) [
  | can_store i r c ↦ can_store (suc i) r (store_there c)
  | can_release c ↦ can_release (there c)
  | can_send line c h ↦ can_send line (there c) (omega (arith, h))
  | can_take c h ↦ can_take (there c) h
  | all_ended e h ↦ can_take (here take) h
]
choice (finished w r ∷ rest) = elim (choice rest) [
  | can_store i r c ↦ can_store (suc i) r (store_there c)
  | can_release c ↦ can_release (there c)
  | can_send line c h ↦ can_send line (there c) (omega (arith, h))
  | can_take c h ↦ can_take (there c) h
  | all_ended e h ↦ all_ended (omega (arith, e)) h
]

-- The lengths that a run keeps.
length-Change :
    {M : Slot → Slot → Type 0} {xs ys : List Slot} → Change M xs ys → length ys ≡ length xs
length-Change (here m) = refl
length-Change (there c) = omega (arith, length-Change c)

length-Stores : {r : Result} {i : ℕ} {xs ys : List Slot} → Stores r i xs ys → length ys ≡ length xs
length-Stores store_here = refl
length-Stores (store_there c) = omega (arith, length-Stores c)

length-Step :
    {bound capacity : ℕ} {s t : State} → Step bound capacity s t → length t.slots ≡ length s.slots
length-Step (takes free c) = length-Change c
length-Step (sends line not_closed room c) = length-Change c
length-Step (stores i r c) = length-Stores c
length-Step (releases c) = length-Change c
length-Step (prints line e) = refl
length-Step (closes not_closed ended) = refl
length-Step (ends_printing going closed empty) = refl
length-Step (ends going closed done) = refl

length_at_start : (work : List Work) → length (map waiting work) ≡ length work
length_at_start [] = refl
length_at_start (w ∷ work) = omega (arith, length_at_start work)

length-run :
    (concurrency : ℤ) (work : List Work) {s : State}
    → Run concurrency work s
    → length s.slots ≡ length work
unfolding start
length-run concurrency work none_yet = length_at_start work
length-run concurrency work (then run step) = length-Step step ∙ length-run concurrency work run

-- `wg.Wait()` returns exactly if nothing is left of the goroutines.
ended-left : (xs : List Slot) → (count_if has_ended xs ≡ length xs) ↔ (left_in xs ≡ 0)
unfolding left_of left_in
ended-left xs = (only_if xs, if_left xs)
  where
    ended-bounded : (xs : List Slot) → count_if has_ended xs ≤ length xs
    ended-bounded [] = omega arith
    ended-bounded (s ∷ xs) = ground (arith, ended-bounded xs)

    only_if : (xs : List Slot) → count_if has_ended xs ≡ length xs → left_in xs ≡ 0
    only_if [] e = refl
    only_if (waiting w ∷ xs) e = absurd (omega (arith, e, ended-bounded xs))
    only_if (running w ∷ xs) e = absurd (omega (arith, e, ended-bounded xs))
    only_if (reported w r ∷ xs) e = absurd (omega (arith, e, ended-bounded xs))
    only_if (stored w r ∷ xs) e = absurd (omega (arith, e, ended-bounded xs))
    only_if (finished w r ∷ xs) e = omega (arith, only_if xs (omega (arith, e)))

    if_left : (xs : List Slot) → left_in xs ≡ 0 → count_if has_ended xs ≡ length xs
    if_left [] e = refl
    if_left (waiting w ∷ xs) e = absurd (omega (arith, e))
    if_left (running w ∷ xs) e = absurd (omega (arith, e))
    if_left (reported w r ∷ xs) e = absurd (omega (arith, e))
    if_left (stored w r ∷ xs) e = absurd (omega (arith, e))
    if_left (finished w r ∷ xs) e = omega (arith, if_left xs (omega (arith, e)))

-- The channel is closed after all goroutines are done, and Execute returns after that.
pub record InOrder (s : State) : Type 0 where
  pub closed_late : s.closed ≡ true → left_in s.slots ≡ 0
  pub returned_late : s.returned ≡ true → s.closed ≡ true

InOrder-Step : {bound capacity : ℕ} {s t : State} → Step bound capacity s t → InOrder s → InOrder t
InOrder-Step (takes free c) h = record {
  closed_late = λ e. absurd (omega (arith, h.closed_late e, left-Takes c));
  returned_late = h.returned_late;
}
InOrder-Step (sends line not_closed room c) h = record {
  closed_late = λ e. absurd (omega (arith, h.closed_late e, left-Sends c));
  returned_late = h.returned_late;
}
InOrder-Step (stores i r c) h = record {
  closed_late = λ e. absurd (omega (arith, h.closed_late e, left-Stores c));
  returned_late = h.returned_late;
}
InOrder-Step (releases c) h = record {
  closed_late = λ e. absurd (omega (arith, h.closed_late e, left-Releases c));
  returned_late = h.returned_late;
}
InOrder-Step (prints line e) h = record {
  closed_late = h.closed_late;
  returned_late = h.returned_late;
}
InOrder-Step {s = s} (closes not_closed ended) h = record {
  closed_late = λ e. (ended-left s.slots).0 ended;
  returned_late = λ e. refl;
}
InOrder-Step (ends_printing going closed empty) h = record {
  closed_late = h.closed_late;
  returned_late = h.returned_late;
}
InOrder-Step (ends going closed done) h = record {
  closed_late = h.closed_late;
  returned_late = λ e. closed;
}

pub run-InOrder :
    (concurrency : ℤ) (work : List Work) {s : State} → Run concurrency work s → InOrder s
unfolding start
run-InOrder concurrency work none_yet = record {
  closed_late = λ e. absurd (ground (arith, e));
  returned_late = λ e. absurd (ground (arith, e));
}
run-InOrder concurrency work (then run step) = InOrder-Step step (run-InOrder concurrency work run)

-- The steps after all goroutines are done.
closing :
    {bound capacity : ℕ} (s : State) (closed printer_done : Bool) (lines : List String)
    → s.closed ≡ closed
    → s.printer_done ≡ printer_done
    → s.lines ≡ lines
    → s.returned ≡ false
    → left_in s.slots ≡ 0
    → (t : State) × Step bound capacity s t
closing s false p l c d e going h =
    (record s { closed = true }, closes c ((ended-left s.slots).1 h))
closing s true p (line ∷ rest) c d e going h = (record s { lines = rest }, prints line e)
closing s true false [] c d e going h = (record s { printer_done = true }, ends_printing d c e)
closing s true true [] c d e going h = (record s { returned = true }, ends going c d)

pub run_goes_on :
    (concurrency : ℤ) (work : List Work) {s : State}
    → Run concurrency work s
    → s.returned ≡ false
    → (t : State) × Step (clamp concurrency (length work)) (length work) s t
run_goes_on concurrency work {s} run going = elim (choice s.slots) [
  | can_store {ys} i r c ↦ (record s { slots = ys; results = set_at i r s.results }, stores i r c)
  | can_release {ys} c ↦ (record s { slots = ys }, releases c)
  | can_take {ys} c h ↦ (
    record s { slots = ys },
    takes (omega (arith, h, (clamp_bounds concurrency (length work)).0)) c,
  )
  | can_send {ys} line c h ↦ (
    record s { slots = ys; lines = s.lines ++ (line ∷ []) },
    sends line (not_closed c)
        (omega
          (arith, h, (run-Bounded concurrency work run).buffered, length-run concurrency work run))
        c,
  )
  | all_ended e h ↦ closing s s.closed s.printer_done s.lines refl refl refl going e
]
  where
    not_closed :
        {line : String} {ys : List Slot} → Change (Sends line) s.slots ys → s.closed ≡ false
    not_closed c = elim (Bool-cases s.closed) [
      | inl is_closed ↦
          absurd
            (omega (arith, (run-InOrder concurrency work run).closed_late is_closed, left-Sends c))
      | inr is_open ↦ is_open
    ]
