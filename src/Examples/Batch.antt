-- ===== src/Examples/Batch.antt =====
-- internal/batch/batch.go: two items, one at a time.
use acm_caas_poc.Prelude.{◌≡◌, refl, true, false, List, [], ◌∷◌, arith}
use acm_caas_poc.Prelude.Int.{pos}
use acm_caas_poc.Batch.{
  message, error, Work, Result, result_of, line_of, clamp, waiting, reported, finished, State,
  no_result, start, set_at, take, send, release, store_here, store_there, here, there, takes, sends,
  stores, releases, prints, closes, ends_printing, ends, Steps, none_yet, then, Run,
}
use acm_caas_poc.Batch.Bounds.{Bounded, run-Bounded}
use acm_caas_poc.Batch.Results.{Answers, results-Answers, execute_returns}

abbrev first : Work
first = record { name = "c1"; returns = message "done" }

abbrev second : Work
second = record { name = "c2"; returns = error "refused" }

abbrev two : List Work
two = first ∷ second ∷ []

abbrev good : Result
good = record { name = "c1"; message = "done"; ok = true }

abbrev bad : Result
bad = record { name = "c2"; message = "refused"; ok = false }

-- The second item runs first, and has sent its line.
abbrev halfway : State
halfway = record {
  slots = waiting first ∷ reported second bad ∷ [];
  results = no_result ∷ no_result ∷ [];
  lines = "[c2] error: refused" ∷ [];
  closed = false;
  printer_done = false;
  returned = false;
}

run_halfway : Run (pos 1) two halfway
unfolding start clamp result_of line_of
run_halfway =
    then (then none_yet (takes (omega arith) (there (here take))))
      (sends "[c2] error: refused" refl (omega arith) (there (here (send refl))))

run-Bounded_example : Bounded (clamp (pos 1) 2) halfway
run-Bounded_example = run-Bounded (pos 1) two run_halfway

execute_returns_example :
    (t : State) × Steps (clamp (pos 1) 2) 2 halfway t × (t.returned ≡ true) × Answers two t.results
execute_returns_example = execute_returns (pos 1) two run_halfway

-- Both have ended, and Execute has returned.
abbrev over : State
over = record {
  slots = finished first good ∷ finished second bad ∷ [];
  results = good ∷ bad ∷ [];
  lines = [];
  closed = true;
  printer_done = true;
  returned = true;
}

-- Both have sent their line, and the second is done.
abbrev late : State
late = record {
  slots = reported first good ∷ finished second bad ∷ [];
  results = no_result ∷ bad ∷ [];
  lines = "[c1] done" ∷ [];
  closed = false;
  printer_done = false;
  returned = false;
}

run_late : Run (pos 1) two late
unfolding start clamp result_of line_of set_at
run_late =
    then
      (then
        (then
          (then (then run_halfway (prints "[c2] error: refused" refl))
            (stores 1 bad (store_there store_here)))
          (releases (there (here release))))
        (takes (omega arith) (here take)))
      (sends "[c1] done" refl (omega arith) (here (send refl)))

run_over : Run (pos 1) two over
unfolding set_at
run_over =
    then
      (then
        (then
          (then (then (then run_late (stores 0 good store_here)) (releases (here release)))
            (closes refl refl))
          (prints "[c1] done" refl))
        (ends_printing refl refl refl))
      (ends refl refl refl)

results-Answers_example : Answers two (good ∷ bad ∷ [])
results-Answers_example = results-Answers (pos 1) two run_over refl
