-- ===== src/App/Debounce/Tracking.antt =====
-- Debounced callbacks that all have one text: the value that the latest call has, and the one that
-- the latest timer has handed over.
use crownfi_sei_swaps.Prelude.{
  ℕ, ◌+◌, ◌≤◌, ◌≡◌, ◌≢◌, inl, inr, refl, sym, ap, ◌∙◌, subst, List, [], ◌∷◌, ◌++◌, Option, some,
  arith, In, Bool-cases, List-cases,
}
use crownfi_sei_swaps.Text.{Str, ◌==◌}
use crownfi_sei_swaps.Text.Laws.{==_iff, ==_refl}
use crownfi_sei_swaps.Platform.Dict.{lookup}
use crownfi_sei_swaps.App.Debounce.{
  Timer, quietly, Debounced, new_debounced, clear_known, call, fire, Event, called, waited, fired,
  Run, begin, calls, waits, fires,
}
use crownfi_sei_swaps.App.Debounce.Latest.{latest, debounce_latest}

module _ {C : Type 0} (text : Str) where
  -- All calls are of functions with this text.
  abbrev pub OnlyText : List (Event C) → Type 0
  OnlyText [] = Unit
  OnlyText (called key callback due ∷ es) = (key ≡ text) × OnlyText es
  OnlyText (waited n ∷ es) = OnlyText es
  OnlyText (fired t ∷ es) = OnlyText es

  OnlyText-latest :
      (es : List (Event C)) (key : Str) (c : C × ℕ)
      → OnlyText es
      → latest key es ≡ some c
      → key ≡ text
  OnlyText-latest [] key c h e = absurd (ground arith)
  OnlyText-latest (called k callback due ∷ es) key c (same, h) e = elim (Bool-cases (k == key)) [
    | inl at ↦ sym ((==_iff k key).0 at) ∙ same
    | inr other ↦ OnlyText-latest es key c h (rw other at e)
  ]
  OnlyText-latest (waited n ∷ es) key c h e = OnlyText-latest es key c h e
  OnlyText-latest (fired t ∷ es) key c h e = OnlyText-latest es key c h e

  -- The value of the latest call, and the one that the latest timer has handed over.
  pub record Tracks (start : ℕ) (s : Debounced C) (chosen shown : C) : Type 0 where
    pub events : List (Event C)
    pub run : Run C start events s
    pub only : OnlyText events
    pub newest : (c : C) (due : ℕ) → latest text events ≡ some (c, due) → c ≡ chosen
    pub settled : s.pending ≡ [] → shown ≡ chosen

  pub Tracks-begin : (start : ℕ) (c : C) → Tracks start (new_debounced start) c c
  Tracks-begin start c = record {
    events = [];
    run = begin;
    only = tt;
    newest = λ d due e. absurd (ground arith);
    settled = λ e. refl;
  }

  append_last : (xs : List (Timer C)) (x : Timer C) → xs ++ (x ∷ []) ≢ []
  append_last [] x e = absurd (ground arith)
  append_last (y ∷ xs) x e = absurd (ground arith)

  same_value : (c d : C) (n k : ℕ) → ◌≡◌ {A = Option (C × ℕ)} (some (c, n)) (some (d, k)) → d ≡ c
  same_value c d n k e = cc

  pub call_pending : (c : C) (delay : ℕ) (s : Debounced C) → (call text c delay s).pending ≢ []
  unfolding call
  call_pending c delay s e = append_last (clear_known (lookup text s.timeouts) s.pending) _ e

  pub Tracks-call :
      (start delay : ℕ) (s : Debounced C) (chosen shown c : C)
      → Tracks start s chosen shown
      → Tracks start (call text c delay s) c shown
  Tracks-call start delay s chosen shown c h = record {
    events = called text c (s.now + delay) ∷ h.events;
    run = calls text c delay h.run;
    only = (refl, h.only);
    newest = λ d due e. same_value c d _ due (rw (==_refl text) at e);
    settled = λ e. absurd (call_pending c delay s e);
  }

  pub Tracks-wait :
      (start n : ℕ) (s : Debounced C) (chosen shown : C)
      → Tracks start s chosen shown
      → Tracks start (record s { now = s.now + n }) chosen shown
  Tracks-wait start n s chosen shown h = record {
    events = waited n ∷ h.events;
    run = waits n h.run;
    only = h.only;
    newest = h.newest;
    settled = h.settled;
  }

  pub Tracks-callback :
      (start : ℕ) (s : Debounced C) (chosen shown : C) (t : Timer C)
      → Tracks start s chosen shown
      → In t s.pending
      → (t.callback ≡ chosen) × (t.key ≡ text)
  Tracks-callback start s chosen shown t h m =
      let (known, newest, _, _) = debounce_latest start h.events s t h.run m in
      let at = OnlyText-latest h.events t.key (t.callback, t.due) h.only newest in
      (h.newest t.callback t.due (ap (λ k. latest k h.events) (sym at) ∙ newest), at)

  pub Tracks-fire :
      (start : ℕ) (s : Debounced C) (chosen shown : C) (t : Timer C)
      → Tracks start s chosen shown
      → In t s.pending
      → t.due ≤ s.now
      → Tracks start (fire t quietly s) chosen t.callback × ((fire t quietly s).pending ≡ [])
  Tracks-fire start s chosen shown t h m due =
      let (same, at) = Tracks-callback start s chosen shown t h m in
      let (_, _, _, gone) = debounce_latest start h.events s t h.run m in
      let after : Tracks start (fire t quietly s) chosen t.callback = record {
        events = fired t ∷ h.events;
        run = fires t quietly h.run m due tt;
        only = h.only;
        newest = h.newest;
        settled = λ e. same;
      } in
      (
        after,
        elim (List-cases (fire t quietly s).pending) [
          | inl empty ↦ empty
          | inr (u, rest, e) ↦
              let member : In u (fire t quietly s).pending =
                subst (λ us. In u us) (sym e) (inl refl) in
              let (_, at') =
                Tracks-callback start (fire t quietly s) chosen t.callback u after member in
              absurd (gone quietly tt u member (at' ∙ sym at))
        ],
      )
