-- ===== src/App/Farm/Searching.antt =====
-- farm.ts: the search of the list of pools. A search text is found where it stands in a name.
use mathlib.Core.List.{Perm, perm_middle}
use mathlib.Core.List.Perm
use crownfi_sei_swaps.Prelude.{
  ℕ, ◌<◌, ◌≡◌, ◌↔◌, inl, inr, refl, sym, ap, ◌∙◌, Bool, true, false, not, ◌&&◌, ◌||◌, eqb, List, [],
  ◌∷◌, ◌++◌, Option, none, some, ltb, length, arith, All, Bool-cases, if◌then◌else◌,
}
use crownfi_sei_swaps.Text.{Str, to_lower, starts_with, includes}
use crownfi_sei_swaps.Text.Laws.{starts_with-append, starts_with_sound}
use crownfi_sei_swaps.Text.Split.{split}
use crownfi_sei_swaps.Pair.{SwapMarketPair}
use crownfi_sei_swaps.App.Farm.{
  FarmFilters, Farm, get_share_balance, gt_known, keep, every_term, some_term, has_term,
  get_filtered_list,
}

-- A text that stands somewhere in another.
abbrev pub Within : Str → Str → Type 0
Within t s = (u v : Str) × (s ≡ u ++ (t ++ v))

includes_sound : (s t : Str) → includes s t ≡ true → Within t s
unfolding includes
includes_sound s [] h = ([], s, refl)
includes_sound [] (a ∷ t) h = cc
includes_sound (b ∷ s) (a ∷ t) h = elim (Bool-cases (starts_with (a ∷ t) (b ∷ s))) [
  | inl first ↦ ([], _, starts_with_sound (a ∷ t) (b ∷ s) first)
  | inr later ↦
      let (u, v, e) = includes_sound s (a ∷ t) (ground arith) in (b ∷ u, v, ap (λ r. b ∷ r) e)
]

includes_complete : (u t v : Str) → includes (u ++ (t ++ v)) t ≡ true
unfolding includes
includes_complete u [] v = refl
includes_complete [] (a ∷ t) v = rw (starts_with-append (a ∷ t) v) refl
includes_complete (b ∷ u) (a ∷ t) v = ground (arith, includes_complete u (a ∷ t) v)

pub includes_iff : (s t : Str) → (includes s t ≡ true) ↔ Within t s
includes_iff s t =
    (includes_sound s t, λ (u, v, e). ap (λ r. includes r t) e ∙ includes_complete u t v)

-- What a pool must meet to be shown: a balance, if only one's own are asked for, and in its name,
-- whatever the case of the letters, each word of the search text.
abbrev pub Wanted : FarmFilters → Str → Farm → SwapMarketPair → Type 0
Wanted filters search f p =
    (filters.my_pools ≡ true → (n : ℕ) × (get_share_balance f p ≡ some n) × (0 < n))
    × All (λ t. Within (to_lower t) (to_lower p.name)) (split b' ' search)

-- The filter as one test.
abbrev pub wanted : Farm → SwapMarketPair → Bool
wanted f p =
    (not f.filters.my_pools || gt_known (get_share_balance f p) (some 0))
    && every_term (λ t. has_term t p) (split b' ' f.search)

keep-keep :
    (a b : SwapMarketPair → Bool) (ps : List SwapMarketPair)
    → keep a (keep b ps) ≡ keep (λ p. b p && a p) ps
keep-keep a b [] = refl
keep-keep a b (p ∷ ps) = ground (arith, keep-keep a b ps)

keep_all :
    (test : SwapMarketPair → Bool) (ps : List SwapMarketPair)
    → ((p : SwapMarketPair) → test p ≡ true)
    → keep test ps ≡ ps
keep_all test [] h = refl
keep_all test (p ∷ ps) h = rw (h p) (ap (λ r. p ∷ r) (keep_all test ps h))

keep-cong :
    (a b : SwapMarketPair → Bool) (ps : List SwapMarketPair)
    → ((p : SwapMarketPair) → a p ≡ b p)
    → keep a ps ≡ keep b ps
keep-cong a b [] h = refl
keep-cong a b (p ∷ ps) h = ground (arith, h p, keep-cong a b ps h)

split_some : (sep : ℕ) (s : Str) → (w : Str) × (ws : List Str) × (split sep s ≡ w ∷ ws)
unfolding split
split_some sep [] = ([], [], refl)
split_some sep (c ∷ s) = elim (Bool-cases (eqb c sep)) [
  | inl same ↦ ([], split sep s, rw same refl)
  | inr other ↦ let (w, ws, e) = split_some sep s in (c ∷ w, ws, rw other (rw e refl))
]

-- For a single term, every term is found if and only if some term is.
check-every :
    (test : Str → Bool) (w : Str) (ws : List Str)
    → (if ltb 1 (length (w ∷ ws)) then every_term test (w ∷ ws) else some_term test (w ∷ ws))
      ≡ every_term test (w ∷ ws)
check-every test w [] = ground arith
check-every test w (v ∷ ws) = ground arith

abbrev checked : Farm → SwapMarketPair → Bool
checked f p =
    let terms = split b' ' f.search in
    if ltb 1 (length terms)
    then every_term (λ t. has_term t p) terms
    else some_term (λ t. has_term t p) terms

abbrev own : Farm → SwapMarketPair → Bool
own f p = gt_known (get_share_balance f p) (some 0)

checked-every :
    (f : Farm) (p : SwapMarketPair)
    → checked f p ≡ every_term (λ t. has_term t p) (split b' ' f.search)
checked-every f p =
    let (w, ws, e) = split_some b' ' f.search in rw e (check-every (λ t. has_term t p) w ws)

keep-asked :
    (mine : Bool) (o check : SwapMarketPair → Bool) (ps : List SwapMarketPair)
    → keep check (if mine then keep o ps else ps) ≡ keep (λ p. (not mine || o p) && check p) ps
keep-asked true o check ps = keep-keep check o ps
keep-asked false o check ps = refl

asked_as_keep :
    (f : Farm) (ps : List SwapMarketPair)
    → keep (checked f) (if f.filters.my_pools then keep (own f) ps else ps) ≡ keep (wanted f) ps
asked_as_keep f ps =
    keep-asked f.filters.my_pools (own f) (checked f) ps
    ∙ keep-cong (λ p. (not f.filters.my_pools || own f p) && checked f p) (wanted f) ps
        (λ p. ap (λ r. (not f.filters.my_pools || own f p) && r) (checked-every f p))

choose :
    (s : Str) (b : Bool) (unfiltered rest : List SwapMarketPair)
    → (s ≡ [] → b ≡ true → unfiltered ≡ rest)
    → (elim s [ [] ↦ if b then unfiltered else rest | c ∷ r ↦ rest ]) ≡ rest
choose [] true unfiltered rest h = h refl refl
choose [] false unfiltered rest h = refl
choose (c ∷ s) b unfiltered rest h = refl

nothing_asked-wanted :
    (f : Farm) (p : SwapMarketPair) → f.search ≡ [] → f.filters.my_pools ≡ false → wanted f p ≡ true
unfolding split has_term includes to_lower
nothing_asked-wanted f p h k = simp (h, k)

pub get_filtered_list_as_keep :
    (f : Farm) (ps : List SwapMarketPair) → get_filtered_list f ps ≡ keep (wanted f) ps
unfolding get_filtered_list
get_filtered_list_as_keep f ps =
    choose f.search (not f.filters.my_pools && not f.filters.crownfi_endorsed) ps
      (keep (checked f) (if f.filters.my_pools then keep (own f) ps else ps))
      (λ h k. sym (
        asked_as_keep f ps
        ∙ keep_all (wanted f) ps (λ p. nothing_asked-wanted f p h (ground arith))))
    ∙ asked_as_keep f ps

every_term-All :
    (s : Str) (ws : List Str)
    → (every_term (λ t. includes s (to_lower t)) ws ≡ true) ↔ All (λ t. Within (to_lower t) s) ws
every_term-All s [] = (λ h. tt, λ h. refl)
every_term-All s (w ∷ ws) =
    let (to, from) = every_term-All s ws in
    let (found, finds) = includes_iff s (to_lower w) in
    (λ h. (found (ground arith), to (ground arith)), λ (h, k). rw (finds h) (from k))

own_iff : (o : Option ℕ) → (gt_known o (some 0) ≡ true) ↔ ((n : ℕ) × (o ≡ some n) × (0 < n))
own_iff none = (λ h. cc, λ (n, e, h). cc)
own_iff (some n) = (λ h. (n, refl, ground arith), λ (m, e, h). ground (arith, e))

asked_true :
    (mine o found : Bool)
    → (mine ≡ true → o ≡ true)
    → found ≡ true
    → ((not mine || o) && found) ≡ true
asked_true true o found h k = ground (arith, h refl)
asked_true false o found h k = k

pub wanted_iff :
    (f : Farm) (p : SwapMarketPair) → (wanted f p ≡ true) ↔ Wanted f.filters f.search f p
unfolding has_term
wanted_iff f p =
    let (to, from) = every_term-All (to_lower p.name) (split b' ' f.search) in
    let (owned, owns) = own_iff (get_share_balance f p) in
    (
      λ h. (λ mine. owned (ground (arith, mine)), to (ground arith)),
      λ (h, k). asked_true f.filters.my_pools _ _ (λ mine. owns (h mine)) (from k),
    )

-- The filter keeps each pool that is wanted, and the others are left out.
pub keep-perm :
    (test : SwapMarketPair → Bool) (ps : List SwapMarketPair)
    → Perm (keep test ps ++ keep (λ p. not (test p)) ps) ps
keep-perm test [] = Perm.refl []
keep-perm test (p ∷ ps) = elim (Bool-cases (test p)) [
  | inl kept ↦ rw kept (Perm.cons p (keep-perm test ps))
  | inr left ↦ rw left (
      Perm.trans (perm_middle (keep test ps) (keep (λ q. not (test q)) ps))
        (Perm.cons p (keep-perm test ps)))
]

pub keep-All :
    (test : SwapMarketPair → Bool) (ps : List SwapMarketPair)
    → All (λ p. test p ≡ true) (keep test ps)
keep-All test [] = tt
keep-All test (p ∷ ps) = elim (Bool-cases (test p)) [
  | inl kept ↦ rw kept (kept, keep-All test ps)
  | inr left ↦ rw left (keep-All test ps)
]

pub keep-All_of :
    (P : SwapMarketPair → Type 0) (test : SwapMarketPair → Bool) (ps : List SwapMarketPair)
    → All P ps
    → All P (keep test ps)
keep-All_of P test [] h = tt
keep-All_of P test (p ∷ ps) (h, hs) = elim (Bool-cases (test p)) [
  | inl kept ↦ rw kept (h, keep-All_of P test ps hs)
  | inr left ↦ rw left (keep-All_of P test ps hs)
]
