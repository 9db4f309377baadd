-- ===== src/App/Debounce/Latest.antt =====
-- What debouncing promises: at most one timer for each text is pending, and what runs is the latest
-- call of its text.
use crownfi_sei_swaps.Prelude.{
  ℕ, ◌+◌, ◌<◌, ◌≡◌, ◌≢◌, ◌⊎◌, inl, inr, refl, sym, ap, subst, ◌∙◌, false, List, [], ◌∷◌, ◌++◌,
  Option, none, some, eqb, eqb_iff, arith, In, Bool-cases, if◌then◌else◌,
}
use crownfi_sei_swaps.Text.{Str, ◌==◌}
use crownfi_sei_swaps.Text.Laws.{==_iff, ==_refl}
use crownfi_sei_swaps.Platform.Dict.{lookup, insert, lookup-insert_self, lookup-insert_ne}
use crownfi_sei_swaps.App.Debounce.{
  Timer, Debounced, Call, Ran, new_debounced, clear, clear_known, call, call_all, run_callback,
  fire, AreOthers, noted, Event, called, waited, fired, Run, begin, calls, waits, fires,
}

module _ {C : Type 0} where
  -- The latest call of the functions with a text, and when it was due.
  abbrev pub latest : Str → List (Event C) → Option (C × ℕ)
  latest key [] = none
  latest key (called k callback due ∷ es) = if k == key then some (callback, due) else latest key es
  latest key (waited n ∷ es) = latest key es
  latest key (fired t ∷ es) = latest key es

  In-clear :
      (id : ℕ) (t : Timer C) (ts : List (Timer C)) → In t (clear id ts) → In t ts × (t.id ≢ id)
  unfolding clear
  In-clear id t [] h = absurd h
  In-clear id t (u ∷ ts) h = elim (Bool-cases (eqb u.id id)) [
    | inl same ↦
        let h' : In t (clear id ts) = rw same at h in
        let (m, ne) = In-clear id t ts h' in (inr m, ne)
    | inr other ↦
        let h' : In t (u ∷ clear id ts) = rw other at h in
        elim h' [
          | inl e ↦ (
            inl e,
            λ same. absurd (ground (arith, ap (λ (x : Timer C). x.id) e, eqb_iff u.id id)),
          )
          | inr m ↦ let (a, ne) = In-clear id t ts m in (inr a, ne)
        ]
  ]

  In-append : (t : Timer C) (xs ys : List (Timer C)) → In t (xs ++ ys) → In t xs ⊎ In t ys
  In-append t [] ys h = inr h
  In-append t (x ∷ xs) ys (inl e) = inl (inl e)
  In-append t (x ∷ xs) ys (inr h) = elim (In-append t xs ys h) [
    | inl a ↦ inl (inr a)
    | inr b ↦ inr b
  ]

  record IsDebounced (es : List (Event C)) (s : Debounced C) : Type 0 where
    known : (t : Timer C) → In t s.pending → lookup t.key s.timeouts ≡ some (some t.id)
    newest : (t : Timer C) → In t s.pending → latest t.key es ≡ some (t.callback, t.due)
    fresh : (t : Timer C) → In t s.pending → t.id < s.next_id
    single : (t u : Timer C) → In t s.pending → In u s.pending → t.id ≡ u.id → t ≡ u

  IsDebounced-new : (now : ℕ) → IsDebounced [] (new_debounced now)
  unfolding new_debounced
  IsDebounced-new now = record {
    known = λ t m. absurd m;
    newest = λ t m. absurd m;
    fresh = λ t m. absurd m;
    single = λ t u m k e. absurd m;
  }

  -- What is left of the pending timers when a key is called again: timers of other keys.
  cleared-other :
      (es : List (Event C)) (s : Debounced C) (key : Str) (t : Timer C)
      → IsDebounced es s
      → In t (clear_known (lookup key s.timeouts) s.pending)
      → In t s.pending × ((key == t.key) ≡ false)
  cleared-other es s key t h m = elim (Bool-cases (key == t.key)) [
    | inr other ↦ (before (lookup key s.timeouts) m, other)
    | inl same ↦
        let at : key ≡ t.key = (==_iff key t.key).0 same in
        let old = before (lookup key s.timeouts) m in
        let found : lookup key s.timeouts ≡ some (some t.id) =
          ap (λ k. lookup k s.timeouts) at ∙ h.known t old in
        let m' : In t (clear t.id s.pending) =
          subst (λ o. In t (clear_known o s.pending)) found m in
        absurd ((In-clear t.id t s.pending m').1 refl)
  ]
    where
      before : (o : Option (Option ℕ)) → In t (clear_known o s.pending) → In t s.pending
      before none k = k
      before (some none) k = k
      before (some (some id)) k = (In-clear id t s.pending k).0

  -- The timer of a call.
  abbrev timer_of : Str → C → ℕ → Debounced C → Timer C
  timer_of key callback delay s = record {
    id = s.next_id;
    key = key;
    callback = callback;
    due = s.now + delay;
  }

  module _ (es : List (Event C)) (s : Debounced C) (h : IsDebounced es s) (key : Str) (callback : C)
      (delay : ℕ) where
    called-cases :
        (t : Timer C)
        → In t (call key callback delay s).pending
        → (In t s.pending × ((key == t.key) ≡ false)) ⊎ (t ≡ timer_of key callback delay s)
    unfolding call
    called-cases t m = elim (In-append t (clear_known (lookup key s.timeouts) s.pending) _ m) [
      | inl old ↦ inl (cleared-other es s key t h old)
      | inr last ↦ elim last [ inl e ↦ inr e | inr none_left ↦ absurd none_left ]
    ]

    call-IsDebounced :
        IsDebounced (called key callback (s.now + delay) ∷ es) (call key callback delay s)
    unfolding call
    call-IsDebounced = record {
      known = λ t m. elim (called-cases t m) [
        | inl (old, other) ↦
            lookup-insert_ne key t.key (some s.next_id) s.timeouts other ∙ h.known t old
        | inr e ↦ rw e (lookup-insert_self key (some s.next_id) s.timeouts)
      ];
      newest = λ t m. elim (called-cases t m) [
        | inl (old, other) ↦ rw other (h.newest t old)
        | inr e ↦ rw e (rw (==_refl key) refl)
      ];
      fresh = λ t m. elim (called-cases t m) [
        | inl (old, other) ↦ omega (arith, h.fresh t old)
        | inr e ↦ rw e (omega arith)
      ];
      single = λ t u m k same. elim (called-cases t m) [
        | inl (old, _) ↦ elim (called-cases u k) [
          | inl (old', _) ↦ h.single t u old old' same
          | inr e ↦ absurd (omega (arith, h.fresh t old, same, ap (λ (x : Timer C). x.id) e))
        ]
        | inr e ↦ elim (called-cases u k) [
          | inl (old', _) ↦
              absurd (omega (arith, h.fresh u old', same, ap (λ (x : Timer C). x.id) e))
          | inr e' ↦ e ∙ sym e'
        ]
      ];
    }

  -- Timers with one key are one timer.
  one_timer :
      (es : List (Event C)) (s : Debounced C)
      → IsDebounced es s
      → (t u : Timer C) → In t s.pending
      → In u s.pending
      → t.key ≡ u.key
      → t ≡ u
  one_timer es s h t u m k same =
      h.single t u m k
        (id_of (sym (h.known t m) ∙ (ap (λ x. lookup x s.timeouts) same ∙ h.known u k)))
    where
      id_of : {a b : ℕ} → some (some a) ≡ some (some b) → a ≡ b
      id_of e = cc

  -- No timer of a text is pending.
  abbrev IsQuiet : Str → Debounced C → Type 0
  IsQuiet key s = (u : Timer C) → In u s.pending → u.key ≢ key

  -- What is left as a timer runs: timers of other keys.
  started-other :
      (es : List (Event C)) (s : Debounced C) (t u : Timer C)
      → IsDebounced es s
      → In t s.pending
      → In u (clear t.id s.pending)
      → In u s.pending × (u.key ≢ t.key)
  started-other es s t u h m k =
      let (old, apart) = In-clear t.id u s.pending k in
      (old, λ same. apart (ap (λ (x : Timer C). x.id) (one_timer es s h u t old m same)))

  started-IsDebounced :
      (es : List (Event C)) (s : Debounced C) (t : Timer C)
      → IsDebounced es s
      → IsDebounced (fired t ∷ es) (record s { pending = clear t.id s.pending })
  started-IsDebounced es s t h = record {
    known = λ u k. h.known u (In-clear t.id u s.pending k).0;
    newest = λ u k. h.newest u (In-clear t.id u s.pending k).0;
    fresh = λ u k. h.fresh u (In-clear t.id u s.pending k).0;
    single = λ u v k l same.
        h.single u v (In-clear t.id u s.pending k).0 (In-clear t.id v s.pending l).0 same;
  }

  call-IsQuiet :
      (es : List (Event C)) (s : Debounced C) (c : Call C) (key : Str)
      → IsDebounced es s
      → IsQuiet key s
      → c.key ≢ key
      → IsQuiet key (call c.key c.callback c.delay s)
  call-IsQuiet es s c key h quiet other u m =
      elim (called-cases es s h c.key c.callback c.delay u m) [
        | inl (old, _) ↦ quiet u old
        | inr e ↦ λ same. other (sym (ap (λ (x : Timer C). x.key) e) ∙ same)
      ]

  call_all-IsDebounced :
      (es : List (Event C)) (s : Debounced C) (cs : List (Call C)) (key : Str)
      → IsDebounced es s
      → IsQuiet key s
      → AreOthers key cs
      → IsDebounced (noted s.now cs es) (call_all cs s) × IsQuiet key (call_all cs s)
  unfolding call_all call
  call_all-IsDebounced es s [] key h quiet others = (h, quiet)
  call_all-IsDebounced es s (c ∷ cs) key h quiet (other, others) =
      call_all-IsDebounced (called c.key c.callback (s.now + c.delay) ∷ es)
        (call c.key c.callback c.delay s) cs key (call-IsDebounced es s h c.key c.callback c.delay)
        (call-IsQuiet es s c key h quiet other) others

  -- Resetting the timeout of a text without a pending timer.
  reset-IsDebounced :
      (es : List (Event C)) (s : Debounced C) (key : Str)
      → IsDebounced es s
      → IsQuiet key s
      → IsDebounced es (record s { timeouts = insert key none s.timeouts })
  reset-IsDebounced es s key h quiet = record {
    known = λ u k.
        let other : (key == u.key) ≡ false = ground (arith, quiet u k, ==_iff key u.key) in
        lookup-insert_ne key u.key none s.timeouts other ∙ h.known u k;
    newest = h.newest;
    fresh = h.fresh;
    single = h.single;
  }

  fire-IsDebounced :
      (es : List (Event C)) (s : Debounced C) (t : Timer C) (ran : Ran C)
      → IsDebounced es s
      → In t s.pending
      → AreOthers t.key ran.made
      → IsDebounced (noted s.now ran.made (fired t ∷ es)) (fire t ran s)
        × IsQuiet t.key (fire t ran s)
  unfolding fire run_callback
  fire-IsDebounced es s t ran h m others =
      let (after, quiet) =
        call_all-IsDebounced (fired t ∷ es) (record s { pending = clear t.id s.pending }) ran.made
          t.key (started-IsDebounced es s t h) (λ u k. (started-other es s t u h m k).1) others in
      elim (Bool-cases ran.returned) [
        | inl returns ↦ rw returns (reset-IsDebounced _ _ t.key after quiet, quiet)
        | inr throws ↦ rw throws (after, quiet)
      ]

  Run-IsDebounced :
      (start : ℕ) {es : List (Event C)} {s : Debounced C} → Run C start es s → IsDebounced es s
  Run-IsDebounced start begin = IsDebounced-new start
  Run-IsDebounced start (calls {es = es} {s = s} key callback delay r) =
      call-IsDebounced es s (Run-IsDebounced start r) key callback delay
  Run-IsDebounced start (waits {s = s} n r) =
      let h = Run-IsDebounced start r in
      record { known = h.known; newest = h.newest; fresh = h.fresh; single = h.single }
  Run-IsDebounced start (fires {es = es} {s = s} t ran r m due others) =
      (fire-IsDebounced es s t ran (Run-IsDebounced start r) m others).0

  -- In every state that the object can come to while no callback calls a debounced function with
  -- its own text, at most one timer is pending for each text, and the object knows it. It holds the
  -- latest call of that text, the earlier ones having been cleared, and is due when that call was.
  -- After it has run, its callback having returned or thrown and called whatever functions with
  -- other texts, no timer of its text is pending.
  pub debounce_latest :
      (start : ℕ) (es : List (Event C)) (s : Debounced C) (t : Timer C)
      → Run C start es s
      → In t s.pending
      → (lookup t.key s.timeouts ≡ some (some t.id))
        × (latest t.key es ≡ some (t.callback, t.due))
        × ((u : Timer C) → In u s.pending → u.key ≡ t.key → u ≡ t)
        × ((ran : Ran C)
            → AreOthers t.key ran.made
            → (u : Timer C) → In u (fire t ran s).pending
            → u.key ≢ t.key)
  debounce_latest start es s t r m =
      let h = Run-IsDebounced start r in
      (
        h.known t m,
        h.newest t m,
        λ u k same. one_timer es s h u t k m same,
        λ ran others. (fire-IsDebounced es s t ran h m others).1,
      )
