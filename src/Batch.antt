-- ===== src/Batch.antt =====
-- internal/batch/batch.go: `Execute`, one goroutine for each item of work, of which a semaphore
-- lets a bounded number run at a time, and a printer that empties a channel of lines.
pub mod Bounds
pub mod Progress
pub mod Results
use acm_caas_poc.Prelude.{
  ℕ, zero, suc, ◌<◌, String, ◌≡◌, Bool, true, false, ◌&&◌, List, [], ◌∷◌, ◌++◌, map, ltb,
  if◌then◌else◌, length, count_if, concat,
}
use acm_caas_poc.Prelude.Int.{ℤ, pos_part, is_nonpositive}

-- What `item.Run` returns: a message, or the text of an error.
pub data Ran : Type 0 where
  message error : String → Ran

-- An item of work, with what its `Run` returns when it is called. Every `Run` returns.
pub record Work : Type 0 where
  pub name : String
  pub returns : Ran

pub record Result : Type 0 where
  pub name : String
  pub message : String
  pub ok : Bool

unfoldable pub result_of : String → Ran → Result
result_of name (message m) = record { name = name; message = m; ok = true }
result_of name (error e) = record { name = name; message = e; ok = false }

unfoldable pub line_of : String → Ran → String
line_of name (message m) = concat ("[" ∷ name ∷ "] " ∷ m ∷ [])
line_of name (error e) = concat ("[" ∷ name ∷ "] error: " ∷ e ∷ [])

-- The bound of the concurrency for a number of items.
unfoldable pub clamp : ℤ → ℕ → ℕ
clamp concurrency items =
    let asked = if is_nonpositive concurrency then 5 else pos_part concurrency in
    let capped = if ltb 20 asked then 20 else asked in
    if ltb 0 items && ltb items capped then items else capped

-- A goroutine: before `sem <- struct{}{}`, in `Run`, after its line is sent, after its result is
-- stored, and after the semaphore is released and the group told.
pub data Slot : Type 0 where
  waiting running : Work → Slot
  reported stored finished : Work → Result → Slot

-- Between the two operations on the semaphore.
abbrev pub holds : Slot → Bool
holds (waiting _) = false
holds (running _) = true
holds (reported _ _) = true
holds (stored _ _) = true
holds (finished _ _) = false

-- A goroutine whose line is in the channel or was printed.
abbrev pub has_sent : Slot → Bool
has_sent (waiting _) = false
has_sent (running _) = false
has_sent (reported _ _) = true
has_sent (stored _ _) = true
has_sent (finished _ _) = true

-- `sem`, `mu` and `wg` are in the slots: who holds the semaphore, and who is done.
abbrev pub has_ended : Slot → Bool
has_ended (waiting _) = false
has_ended (running _) = false
has_ended (reported _ _) = false
has_ended (stored _ _) = false
has_ended (finished _ _) = true

-- The goroutines in the order of the work, the results, the lines in the channel, and whether the
-- channel is closed, whether the printer has closed `printerDone`, and whether Execute has returned.
pub record State : Type 0 where
  pub slots : List Slot
  pub results : List Result
  pub lines : List String
  pub closed : Bool
  pub printer_done : Bool
  pub returned : Bool

abbrev pub no_result : Result
no_result = record { name = ""; message = ""; ok = false }

unfoldable pub start : List Work → State
start work = record {
  slots = map waiting work;
  results = map (λ w. no_result) work;
  lines = [];
  closed = false;
  printer_done = false;
  returned = false;
}

-- `results[i] = r`
unfoldable pub set_at : ℕ → Result → List Result → List Result
set_at i r [] = []
set_at zero r (old ∷ rest) = r ∷ rest
set_at (suc i) r (old ∷ rest) = old ∷ set_at i r rest

-- One goroutine moves: it takes the semaphore, it sends its line, or it releases the semaphore and
-- is done.
pub data Takes : Slot → Slot → Type 0 where
  take : {w : Work} → Takes (waiting w) (running w)

pub data Sends (line : String) : Slot → Slot → Type 0 where
  send :
      {w : Work}
      → line ≡ line_of w.name w.returns
      → Sends line (running w) (reported w (result_of w.name w.returns))

pub data Releases : Slot → Slot → Type 0 where
  release : {w : Work} {r : Result} → Releases (stored w r) (finished w r)

-- The goroutine at an index stores its result.
pub data Stores (r : Result) : ℕ → List Slot → List Slot → Type 0 where
  store_here : {w : Work} {rest : List Slot} → Stores r 0 (reported w r ∷ rest) (stored w r ∷ rest)
  store_there :
      {i : ℕ} {s : Slot} {xs ys : List Slot} → Stores r i xs ys → Stores r (suc i) (s ∷ xs) (s ∷ ys)

-- One slot of the list moves.
pub data Change (M : Slot → Slot → Type 0) : List Slot → List Slot → Type 0 where
  here : {s t : Slot} {rest : List Slot} → M s t → Change M (s ∷ rest) (t ∷ rest)
  there : {s : Slot} {xs ys : List Slot} → Change M xs ys → Change M (s ∷ xs) (s ∷ ys)

-- The steps of `Execute` at a bound for the semaphore and a capacity of the channel. A send into a
-- full channel and a wait for the semaphore are no steps, nor is a send into a closed channel, which
-- panics.
pub data Step (bound capacity : ℕ) (s : State) : State → Type 0 where
  takes :
      {ys : List Slot}
      → count_if holds s.slots < bound
      → Change Takes s.slots ys
      → Step bound capacity s (record s { slots = ys })
  sends :
      {ys : List Slot} (line : String)
      → s.closed ≡ false
      → length s.lines < capacity
      → Change (Sends line) s.slots ys
      → Step bound capacity s (record s { slots = ys; lines = s.lines ++ (line ∷ []) })
  stores :
      {ys : List Slot} (i : ℕ) (r : Result)
      → Stores r i s.slots ys
      → Step bound capacity s (record s { slots = ys; results = set_at i r s.results })
  releases :
      {ys : List Slot}
      → Change Releases s.slots ys
      → Step bound capacity s (record s { slots = ys })
  -- the printer takes a line
  prints :
      (line : String) {rest : List String}
      → s.lines ≡ line ∷ rest
      → Step bound capacity s (record s { lines = rest })
  -- `wg.Wait()` returns and the channel is closed
  closes :
      s.closed ≡ false
      → count_if has_ended s.slots ≡ length s.slots
      → Step bound capacity s (record s { closed = true })
  -- the loop of the printer ends at a closed and empty channel
  ends_printing :
      s.printer_done ≡ false
      → s.closed ≡ true
      → s.lines ≡ []
      → Step bound capacity s (record s { printer_done = true })
  -- `<-printerDone`, after the channel is closed
  ends :
      s.returned ≡ false
      → s.closed ≡ true
      → s.printer_done ≡ true
      → Step bound capacity s (record s { returned = true })

pub data Steps (bound capacity : ℕ) (s : State) : State → Type 0 where
  none_yet : Steps bound capacity s s
  then :
      {t u : State} → Steps bound capacity s t → Step bound capacity t u → Steps bound capacity s u

-- A run of `Execute` so far.
abbrev pub Run : ℤ → List Work → State → Type 0
Run concurrency work s = Steps (clamp concurrency (length work)) (length work) (start work) s
