-- ===== src/App/Debounce.antt =====
-- packages/npm/sei-swaps-webapp/src/lib/debounced-callbacks.ts: the class DebouncedCallbacks, over
-- the host's timers. A timer is kept under the text of its function (`func.toString()`), which two
-- closures of one place in the source share. A callback is a value, the function with its
-- arguments; running it is an event, with the calls of debounced functions that it makes itself and
-- whether it returns or throws.
pub mod Latest
pub mod Tracking
use crownfi_sei_swaps.Prelude.{
  ℕ, ◌+◌, ◌≤◌, ◌≢◌, Bool, true, List, [], ◌∷◌, ◌++◌, Option, none, some, eqb, In, if◌then◌else◌,
}
use crownfi_sei_swaps.Text.{Str, ◌==◌}
use crownfi_sei_swaps.Platform.Dict.{Dict, lookup, insert}

-- A timer of `setTimeout` that has neither run nor been cleared.
pub record Timer (C : Type 0) : Type 0 where
  pub id : ℕ
  pub key : Str
  pub callback : C
  pub due : ℕ

-- A call of a function that `debounce` has returned.
pub record Call (C : Type 0) : Type 0 where
  pub key : Str
  pub callback : C
  pub delay : ℕ

-- What a callback does as it runs: the calls that it makes, and whether it returns.
pub record Ran (C : Type 0) : Type 0 where
  pub made : List (Call C)
  pub returned : Bool

-- What a callback does that calls no debounced function and returns.
abbrev pub quietly : {C : Type 0} → Ran C
quietly = record { made = []; returned = true }

-- The timeouts of the object, and the host: its pending timers, its next identifier and its clock.
pub record Debounced (C : Type 0) : Type 0 where
  pub timeouts : Dict (Option ℕ)
  pub pending : List (Timer C)
  pub next_id : ℕ
  pub now : ℕ

module _ {C : Type 0} where
  -- `new DebouncedCallbacks()`; the host's identifiers start at 1.
  unfoldable pub new_debounced : ℕ → Debounced C
  new_debounced now = record { timeouts = []; pending = []; next_id = 1; now = now }

  -- `clearTimeout(id)`
  unfoldable pub clear : ℕ → List (Timer C) → List (Timer C)
  clear id [] = []
  clear id (t ∷ ts) = if eqb t.id id then clear id ts else t ∷ clear id ts

  -- `if (timeout) clearTimeout(timeout)`
  abbrev pub clear_known : Option (Option ℕ) → List (Timer C) → List (Timer C)
  clear_known none ts = ts
  clear_known (some none) ts = ts
  clear_known (some (some id)) ts = clear id ts

  -- A call of the function that `debounce(func, delay)` returns.
  unfoldable pub call : Str → C → ℕ → Debounced C → Debounced C
  unfolding clear
  call key callback delay s = record s {
    timeouts = insert key (some s.next_id) s.timeouts;
    pending =
        clear_known (lookup key s.timeouts) s.pending
        ++ (record { id = s.next_id; key = key; callback = callback; due = s.now + delay } ∷ []);
    next_id = s.next_id + 1;
  }

  -- Calls of debounced functions, one after the other.
  unfoldable pub call_all : List (Call C) → Debounced C → Debounced C
  unfolding call
  call_all [] s = s
  call_all (c ∷ cs) s = call_all cs (call c.key c.callback c.delay s)

  -- `func.call(null, ...args)` in a timer's function, which the host has taken off its timers.
  unfoldable pub run_callback : Timer C → List (Call C) → Debounced C → Debounced C
  unfolding clear call_all
  run_callback t made s = call_all made (record s { pending = clear t.id s.pending })

  -- The host runs a timer's function: the callback, and then, unless that throws, the reset of the
  -- timeout of its key.
  unfoldable pub fire : Timer C → Ran C → Debounced C → Debounced C
  unfolding run_callback
  fire t ran s =
      let after = run_callback t ran.made s in
      if ran.returned then record after { timeouts = insert t.key none after.timeouts } else after

  -- The calls are of functions with other texts.
  abbrev pub AreOthers : Str → List (Call C) → Type 0
  AreOthers key [] = Unit
  AreOthers key (c ∷ cs) = (c.key ≢ key) × AreOthers key cs

-- What happens to the object, with the time at which a called function is due.
pub data Event (C : Type 0) : Type 0 where
  called : (key : Str) (callback : C) (due : ℕ) → Event C
  waited : ℕ → Event C
  fired : Timer C → Event C

-- The calls that a callback makes at a time, after what happened before.
abbrev pub noted : {C : Type 0} → ℕ → List (Call C) → List (Event C) → List (Event C)
noted now [] es = es
noted now (c ∷ cs) es = noted now cs (called c.key c.callback (now + c.delay) ∷ es)

-- The states that the object can come to, with what happened, the latest first, as long as no
-- callback calls a function with its own text. The host runs a timer at any time from the one at
-- which it is due.
pub data Run (C : Type 0) (start : ℕ) : List (Event C) → Debounced C → Type 0 where
  begin : Run C start [] (new_debounced start)
  calls :
      {es : List (Event C)} {s : Debounced C} (key : Str) (callback : C) (delay : ℕ)
      → Run C start es s
      → Run C start (called key callback (s.now + delay) ∷ es) (call key callback delay s)
  waits :
      {es : List (Event C)} {s : Debounced C} (n : ℕ)
      → Run C start es s
      → Run C start (waited n ∷ es) (record s { now = s.now + n })
  fires :
      {es : List (Event C)} {s : Debounced C} (t : Timer C) (ran : Ran C)
      → Run C start es s
      → In t s.pending
      → t.due ≤ s.now
      → AreOthers t.key ran.made
      → Run C start (noted s.now ran.made (fired t ∷ es)) (fire t ran s)
