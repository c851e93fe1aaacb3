-- ===== src/Batch/Results.antt =====
-- The results of `Execute` (internal/batch/batch.go).
use acm_caas_poc.Prelude.{
  ℕ, zero, suc, ◌≤◌, String, ◌≡◌, refl, sym, ap, ◌∙◌, subst, inl, inr, true, false, List, [], ◌∷◌,
  map, arith, Bool-cases, length,
}
use acm_caas_poc.Prelude.Int.{ℤ}
use acm_caas_poc.Batch.{
  Ran, message, error, Work, Result, result_of, clamp, Slot, waiting, running, reported, stored,
  finished, State, no_result, start, set_at, Takes, take, Sends, send, Releases, release, Stores,
  store_here, store_there, Change, here, there, Step, takes, sends, stores, releases, prints,
  closes, ends_printing, ends, Steps, none_yet, then, Run,
}
use acm_caas_poc.Batch.Progress.{
  left_of, left_in, remaining, remaining-Step, run-InOrder, run_goes_on,
}

-- A result that reports what the run of an item returned: a message as a success, or the text of an
-- error as a failure, under the name of the item.
abbrev Tells : Ran → Result → Type 0
Tells (message m) r = (r.message ≡ m) × (r.ok ≡ true)
Tells (error e) r = (r.message ≡ e) × (r.ok ≡ false)

abbrev pub Reports : Work → Result → Type 0
Reports w r = (r.name ≡ w.name) × Tells w.returns r

result_of-Reports : (w : Work) → Reports w (result_of w.name w.returns)
unfolding result_of
result_of-Reports w = go w.name w.returns
  where
    go :
        (name : String) (out : Ran)
        → ((result_of name out).name ≡ name) × Tells out (result_of name out)
    go name (message m) = (refl, (refl, refl))
    go name (error e) = (refl, (refl, refl))

-- Results that report the items one by one.
unfoldable pub Answers : List Work → List Result → Type 0
Answers [] [] = Unit
Answers [] (r ∷ rs) = ⊥
Answers (w ∷ ws) [] = ⊥
Answers (w ∷ ws) (r ∷ rs) = Reports w r × Answers ws rs

-- The goroutine of an item.
IsFor : Work → Slot → Type 0
IsFor w (waiting v) = v ≡ w
IsFor w (running v) = v ≡ w
IsFor w (reported v r) = (v ≡ w) × Reports w r
IsFor w (stored v r) = (v ≡ w) × Reports w r
IsFor w (finished v r) = (v ≡ w) × Reports w r

AreFor : List Work → List Slot → Type 0
unfolding IsFor
AreFor [] [] = Unit
AreFor [] (s ∷ xs) = ⊥
AreFor (w ∷ ws) [] = ⊥
AreFor (w ∷ ws) (s ∷ xs) = IsFor w s × AreFor ws xs

AreFor-Change :
    {M : Slot → Slot → Type 0}
    → ((w : Work) (s t : Slot) → M s t → IsFor w s → IsFor w t)
    → (ws : List Work) {xs ys : List Slot} → Change M xs ys
    → AreFor ws xs
    → AreFor ws ys
unfolding AreFor
AreFor-Change keep [] (here m) h = h
AreFor-Change keep [] (there c) h = h
AreFor-Change keep (w ∷ ws) (here {s} {t} m) h = (keep w s t m h.0, h.1)
AreFor-Change keep (w ∷ ws) (there c) h = (h.0, AreFor-Change keep ws c h.1)

IsFor-Takes : (w : Work) (s t : Slot) → Takes s t → IsFor w s → IsFor w t
unfolding IsFor
IsFor-Takes w s t take h = h

IsFor-Sends : (line : String) (w : Work) (s t : Slot) → Sends line s t → IsFor w s → IsFor w t
unfolding IsFor
IsFor-Sends line w s t (send {w = v} e) h =
    (h, subst (λ u. Reports u (result_of v.name v.returns)) h (result_of-Reports v))

IsFor-Releases : (w : Work) (s t : Slot) → Releases s t → IsFor w s → IsFor w t
unfolding IsFor
IsFor-Releases w s t release h = h

AreFor-Stores :
    (ws : List Work) {r : Result} {i : ℕ} {xs ys : List Slot}
    → Stores r i xs ys
    → AreFor ws xs
    → AreFor ws ys
unfolding AreFor IsFor
AreFor-Stores [] store_here h = h
AreFor-Stores [] (store_there c) h = h
AreFor-Stores (w ∷ ws) store_here h = h
AreFor-Stores (w ∷ ws) (store_there c) h = (h.0, AreFor-Stores ws c h.1)

AreFor-Step :
    {bound capacity : ℕ} {s t : State} (ws : List Work)
    → Step bound capacity s t
    → AreFor ws s.slots
    → AreFor ws t.slots
AreFor-Step ws (takes free c) h = AreFor-Change IsFor-Takes ws c h
AreFor-Step ws (sends line not_closed room c) h = AreFor-Change (IsFor-Sends line) ws c h
AreFor-Step ws (stores i r c) h = AreFor-Stores ws c h
AreFor-Step ws (releases c) h = AreFor-Change IsFor-Releases ws c h
AreFor-Step ws (prints line e) h = h
AreFor-Step ws (closes not_closed ended) h = h
AreFor-Step ws (ends_printing going is_closed empty) h = h
AreFor-Step ws (ends going is_closed done) h = h

AreFor-start : (work : List Work) → AreFor work (map waiting work)
unfolding AreFor IsFor
AreFor-start [] = tt
AreFor-start (w ∷ work) = (refl, AreFor-start work)

AreFor-run :
    (concurrency : ℤ) (work : List Work) {s : State} → Run concurrency work s → AreFor work s.slots
unfolding start
AreFor-run concurrency work none_yet = AreFor-start work
AreFor-run concurrency work (then run step) =
    AreFor-Step work step (AreFor-run concurrency work run)

-- What a goroutine has stored.
abbrev shown : Slot → Result
shown (waiting w) = no_result
shown (running w) = no_result
shown (reported w r) = no_result
shown (stored w r) = r
shown (finished w r) = r

stored_in-Change :
    {M : Slot → Slot → Type 0}
    → ((s t : Slot) → M s t → shown t ≡ shown s)
    → {xs ys : List Slot} → Change M xs ys
    → map shown ys ≡ map shown xs
stored_in-Change same (here {s} {t} {rest} m) = ap (λ r. r ∷ map shown rest) (same s t m)
stored_in-Change same (there {s} c) = ap (λ l. shown s ∷ l) (stored_in-Change same c)

shown-Takes : (s t : Slot) → Takes s t → shown t ≡ shown s
shown-Takes s t take = refl

shown-Sends : (line : String) (s t : Slot) → Sends line s t → shown t ≡ shown s
shown-Sends line s t (send e) = refl

shown-Releases : (s t : Slot) → Releases s t → shown t ≡ shown s
shown-Releases s t release = refl

stored_in-Stores :
    {r : Result} {i : ℕ} {xs ys : List Slot}
    → Stores r i xs ys
    → map shown ys ≡ set_at i r (map shown xs)
unfolding set_at
stored_in-Stores store_here = refl
stored_in-Stores (store_there {s = s} c) = ap (λ l. shown s ∷ l) (stored_in-Stores c)

-- The results hold what the goroutines have stored, each at the place of its item.
results-Step :
    {bound capacity : ℕ} {s t : State}
    → Step bound capacity s t
    → s.results ≡ map shown s.slots
    → t.results ≡ map shown t.slots
results-Step (takes free c) h = h ∙ sym (stored_in-Change shown-Takes c)
results-Step (sends line not_closed room c) h = h ∙ sym (stored_in-Change (shown-Sends line) c)
results-Step (stores i r c) h = ap (set_at i r) h ∙ sym (stored_in-Stores c)
results-Step (releases c) h = h ∙ sym (stored_in-Change shown-Releases c)
results-Step (prints line e) h = h
results-Step (closes not_closed ended) h = h
results-Step (ends_printing going is_closed empty) h = h
results-Step (ends going is_closed done) h = h

none_stored : (work : List Work) → map (λ w. no_result) work ≡ map shown (map waiting work)
none_stored [] = refl
none_stored (w ∷ work) = ap (λ l. no_result ∷ l) (none_stored work)

results-run :
    (concurrency : ℤ) (work : List Work) {s : State}
    → Run concurrency work s
    → s.results ≡ map shown s.slots
unfolding start
results-run concurrency work none_yet = none_stored work
results-run concurrency work (then run step) = results-Step step (results-run concurrency work run)

ended-Answers :
    (work : List Work) (xs : List Slot)
    → left_in xs ≡ 0
    → AreFor work xs
    → Answers work (map shown xs)
unfolding AreFor IsFor Answers left_in left_of
ended-Answers [] [] e h = tt
ended-Answers [] (s ∷ xs) e h = absurd h
ended-Answers (w ∷ ws) [] e h = absurd h
ended-Answers (w ∷ ws) (finished v r ∷ xs) e h = (h.0.1, ended-Answers ws xs (omega (arith, e)) h.1)
ended-Answers (w ∷ ws) (waiting v ∷ xs) e h = absurd (omega (arith, e))
ended-Answers (w ∷ ws) (running v ∷ xs) e h = absurd (omega (arith, e))
ended-Answers (w ∷ ws) (reported v r ∷ xs) e h = absurd (omega (arith, e))
ended-Answers (w ∷ ws) (stored v r ∷ xs) e h = absurd (omega (arith, e))

-- When Execute has returned, its results are one for each item of work in the order of the work,
-- each under the name of its item and with the message that its run returned as a success or the
-- text of its error as a failure, whatever the order in which the goroutines ran.
pub results-Answers :
    (concurrency : ℤ) (work : List Work) {s : State}
    → Run concurrency work s
    → s.returned ≡ true
    → Answers work s.results
results-Answers concurrency work {s} run e =
    let order = run-InOrder concurrency work run in
    subst (Answers work) (sym (results-run concurrency work run)) (
      ended-Answers work s.slots (order.closed_late (order.returned_late e))
        (AreFor-run concurrency work run))

-- The state that a run goes on to, in at most as many steps as are left.
finishing :
    (concurrency : ℤ) (work : List Work) (fuel : ℕ) {s t : State}
    → Run concurrency work t
    → Steps (clamp concurrency (length work)) (length work) s t
    → remaining t ≤ fuel
    → (u : State) × Steps (clamp concurrency (length work)) (length work) s u
      × Run concurrency work u
      × (u.returned ≡ true)
finishing concurrency work zero {t = t} run more few = elim (Bool-cases t.returned) [
  | inl e ↦ (t, more, run, e)
  | inr e ↦
      let (u, step) = run_goes_on concurrency work run e in
      absurd (omega (arith, few, remaining-Step step))
]
finishing concurrency work (suc fuel) {t = t} run more few = elim (Bool-cases t.returned) [
  | inl e ↦ (t, more, run, e)
  | inr e ↦
      let (u, step) = run_goes_on concurrency work run e in
      finishing concurrency work fuel (then run step) (then more step)
        (omega (arith, few, remaining-Step step))
]

-- From every state that a run of Execute reaches, it can go on until it returns, with results that
-- report what the items returned in the order of the work, if every `Run` returns.
pub execute_returns :
    (concurrency : ℤ) (work : List Work) {s : State}
    → Run concurrency work s
    → (t : State) × Steps (clamp concurrency (length work)) (length work) s t
      × (t.returned ≡ true)
      × Answers work t.results
execute_returns concurrency work {s} run =
    let (t, more, run', e) = finishing concurrency work (remaining s) run none_yet (omega arith) in
    (t, more, e, results-Answers concurrency work run' e)
