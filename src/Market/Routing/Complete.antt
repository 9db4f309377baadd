-- ===== src/Market/Routing/Complete.antt =====
-- The search returns null only if no walk leads to the denom asked for.
use crownfi_sei_swaps.Prelude.{
  ℕ, zero, suc, ◌≡◌, ◌≢◌, ◌⊎◌, ◌↔◌, inl, inr, refl, sym, ap, ◌∙◌, subst, true, List, [], ◌∷◌,
  Option, none, some, arith, length, In, Bool-cases, Option-cases,
}
use crownfi_sei_swaps.Text.{Str, ◌==◌, contains}
use crownfi_sei_swaps.Text.Laws.{==_iff}
use crownfi_sei_swaps.Platform.{Result, ok, >>=-eq-ok, >>=_pair-eq-ok, ok-injective}
use crownfi_sei_swaps.Platform.Dict.{lookup}
use crownfi_sei_swaps.Market.Routing.{Route, Trades, better, prepend, scan, search, find_route}
use crownfi_sei_swaps.Market.Routing.Walks.{
  Edge, Walk, last, step, IsChain, Within, Within-cons, Within-trans, contains_self,
}
use crownfi_sei_swaps.Market.Routing.Terminates.{find_route-returns}

-- Every denom that was added has all its neighbours in the set, none of them the one asked for.
abbrev IsClosed : Trades → Str → List Str → List Str → Type 0
IsClosed trades to before after =
    (x : Str)
    → contains after x ≡ true
    → (contains before x ≡ true)
      ⊎ ((y : Str) → Edge trades x y → (y ≢ to) × (contains after y ≡ true))

IsClosed-trans :
    (trades : Trades) (to : Str) (s t u : List Str)
    → IsClosed trades to s t
    → IsClosed trades to t u
    → Within t u
    → IsClosed trades to s u
IsClosed-trans trades to s t u f g more x h = elim (g x h) [
  | inl old ↦ elim (f x old) [
    | inl older ↦ inl older
    | inr all ↦ inr (λ y edge. ((all y edge).0, more y (all y edge).1))
  ]
  | inr all ↦ inr all
]

-- What a call that found nothing has done.
record Exhausts (trades : Trades) (to d : Str) (s t : List Str) : Type 0 where
  more : Within s t
  self : contains t d ≡ true
  closed : IsClosed trades to s t

prepend-none : (from : Str) (best : Option Route) → prepend from best ≡ ok none → best ≡ none
unfolding prepend
prepend-none from none e = refl
prepend-none from (some []) e = absurd (ground arith)
prepend-none from (some ((a, b) ∷ r)) e = absurd (ground arith)

better-none : (best o : Option Route) → better best o ≡ none → (best ≡ none) × (o ≡ none)
unfolding better
better-none best none e = (e, refl)
better-none none (some r) e = absurd (ground arith)
better-none (some b) (some r) e = absurd (ground arith)

module _ (trades : Trades) (from to : Str) where
  scan-none :
      (go : Str → List Str → Result (Option Route × List Str))
      (exhausts : (d : Str) (s t : List Str) → go d s ≡ ok (none, t) → Exhausts trades to d s t)
      (tos : List Str) (s : List Str) (best : Option Route) (t : List Str)
      → scan go from to tos s best ≡ ok (none, t)
      → (best ≡ none)
        × Within s t
        × IsClosed trades to s t
        × ((d : Str) → In d tos → (d ≢ to) × (contains t d ≡ true))
  unfolding scan
  scan-none go exhausts [] s best t e =
      let (o, e1, e2) = >>=-eq-ok (prepend from best) _ e in
      let same = ok-injective e2 in
      let at_end : s ≡ t = ap (λ (p : Option Route × List Str). p.1) same in
      let nothing : o ≡ none = ap (λ (p : Option Route × List Str). p.0) same in
      (
        prepend-none from best (rw nothing at e1),
        λ x h. rw (← at_end) h,
        λ x h. inl (rw at_end h),
        λ d m. absurd m,
      )
  scan-none go exhausts (d ∷ tos) s best t e = elim (Bool-cases (d == to)) [
    | inl same ↦ absurd (ground arith)
    | inr other ↦
        let (o, s1, e1, e2) = >>=_pair-eq-ok (go d s) _ (rw other at e) in
        let (nothing, more, closed, rest) = scan-none go exhausts tos s1 (better best o) t e2 in
        let (no_best, no_o) = better-none best o nothing in
        let done = exhausts d s s1 (e1 ∙ ap (λ (x : Option Route). ok (x, s1)) no_o) in
        (
          no_best,
          Within-trans s s1 t done.more more,
          IsClosed-trans trades to s s1 t done.closed closed more,
          λ x m. elim m [
            | inl same ↦ (λ is_to. absurd (ground (arith, ==_iff d to)), rw same (more d done.self))
            | inr later ↦ rest x later
          ],
        )
  ]

contains_cons :
    (a x : Str) (s : List Str) → contains (a ∷ s) x ≡ true → (a ≡ x) ⊎ (contains s x ≡ true)
contains_cons a x s h = ground (arith, ==_iff a x)

some_injective : {A : Type 0} {a b : A} → some a ≡ some b → a ≡ b
some_injective e = cc

-- A search that returns null has added `from`, and all that it added is closed.
search-none :
    (trades : Trades) (to : Str) (fuel : ℕ) (from : Str) (s t : List Str)
    → search trades fuel from to s ≡ ok (none, t)
    → Exhausts trades to from s t
unfolding search
search-none trades to zero from s t e = absurd (ground arith)
search-none trades to (suc fuel) from s t e = elim (Bool-cases (contains s from)) [
  | inl old ↦
      let same : s ≡ t =
        ap (λ (p : Option Route × List Str). p.1) (ok-injective (rw (old, search) at e)) in
      record {
        more = λ x h. rw (← same) h;
        self = rw (← same) old;
        closed = λ x h. inl (rw same h);
      }
  | inr fresh ↦ elim (Option-cases (lookup from trades)) [
    | inl missing ↦
        let same : from ∷ s ≡ t =
          ap (λ (p : Option Route × List Str). p.1)
            (ok-injective (rw (fresh, missing, search) at e)) in
        subst (Exhausts trades to from s) same (record {
          more = Within-cons s from;
          self = contains_self s from;
          closed = λ x h. elim (contains_cons from x s h) [
            | inl same ↦ inr (λ y (tos, found, m). absurd (ground (arith, missing, found, same)))
            | inr old ↦ inl old
          ];
        })
    | inr (tos, found) ↦
        let (_, more, closed, all) =
          scan-none trades from to (λ d u. search trades fuel d to u)
            (λ d u v h. search-none trades to fuel d u v h) tos (from ∷ s) none t
            (rw (fresh, found, search) at e) in
        record {
          more = Within-trans s (from ∷ s) t (Within-cons s from) more;
          self = more from (contains_self s from);
          closed = λ x h. elim (closed x h) [
            | inr done ↦ inr done
            | inl old ↦ elim (contains_cons from x s old) [
              | inr older ↦ inl older
              | inl same ↦ inr (λ y (listed, known, m). all y (
                  subst (In y)
                    (some_injective (sym known ∙ ap (λ k. lookup k trades) (sym same) ∙ found)) m))
            ]
          ];
        }
  ]
]

closed_excludes :
    (trades : Trades) (to from : Str) (t : List Str)
    → IsClosed trades to [] t
    → contains t from ≡ true
    → ¬ Walk trades to from
closed_excludes trades to from t closed h (last edge) = elim (closed from h) [
  | inl old ↦ cc
  | inr all ↦ (all to edge).0 refl
]
closed_excludes trades to from t closed h (step {b = b} edge walk) = elim (closed from h) [
  | inl old ↦ cc
  | inr all ↦ closed_excludes trades to b t closed (all b edge).1 walk
]

-- A chain of at least one hop is a walk.
Walk-of_chain :
    (trades : Trades) (from to : Str) (r : Route)
    → r ≢ []
    → IsChain trades from to r
    → Walk trades to from
Walk-of_chain trades from to [] full c = absurd (full refl)
Walk-of_chain trades from to ((a, b) ∷ []) full (e, edge, done) =
    subst (Walk trades to) e (last (subst (Edge trades a) done edge))
Walk-of_chain trades from to ((a, b) ∷ hop ∷ r) full (e, edge, c) =
    subst (Walk trades to) e (step edge (Walk-of_chain trades b to (hop ∷ r) (λ empty. cc) c))

-- A route is found exactly if some walk of direct trades leads from the first denom to the second:
-- the set of denoms already seen cuts off no destination.
pub find_route_iff :
    (trades : Trades) (from to : Str)
    → ((r : Route) × (find_route trades from to ≡ ok (some r))) ↔ Walk trades to from
unfolding find_route
find_route_iff trades from to =
    let (o, e, good) = find_route-returns trades from to in
    (
      λ (r, found).
          let (full, chain, _, _) = good r (ok-injective (sym e ∙ found)) in
          Walk-of_chain trades from to r full chain,
      λ walk. elim (Option-cases o) [
        | inr (r, some_r) ↦ (r, e ∙ ap ok some_r)
        | inl nothing ↦
            let (a, t, e1, e2) =
              >>=_pair-eq-ok (search trades (suc (length trades)) from to []) _
                (e ∙ ap ok nothing) in
            let done =
              search-none trades to (suc (length trades)) from [] t
                (e1 ∙ ap (λ (x : Option Route). ok (x, t)) (ok-injective e2)) in
            absurd (closed_excludes trades to from t done.closed done.self walk)
      ],
    )
