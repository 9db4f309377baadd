-- ===== src/Scripts/Trace.antt =====
-- What a script does, in order, with its result: an error ends it and keeps what was done before.
use crownfi_sei_swaps.Prelude.{ℕ, ◌≤◌, ◌≡◌, List, [], ◌∷◌, ◌++◌, arith}
use crownfi_sei_swaps.Platform.{Result, ok, err}

abbrev pub Script : Type 0 → Type 0 → Type 0
Script E A = List E × Result A

module _ {E A : Type 0} where
  -- Something that only answers.
  abbrev pub ask : Result A → Script E A
  ask r = ([], r)

  -- Something that is done, unless it is rejected.
  abbrev pub act : E → Result A → Script E A
  act e (ok a) = (e ∷ [], ok a)
  act e (err error) = ([], err error)

infixl 5 ◌>>=◌ ◌>>◌
abbrev pub ◌>>=◌ : {E A B : Type 0} → Script E A → (A → Script E B) → Script E B
(es, err error) >>= next = (es, err error)
(es, ok a) >>= next = let (later, r) = next a in (es ++ later, r)

abbrev pub ◌>>◌ : {E B : Type 0} → Script E (Unit {0}) → Script E B → Script E B
m >> rest = m >>= λ _. rest

module _ {E : Type 0} (phase : E → ℕ) where
  -- What is done goes through phases, none of which comes back, from `lo` to `hi`.
  abbrev pub Between : ℕ → ℕ → List E → Type 0
  Between lo hi [] = lo ≤ hi
  Between lo hi (e ∷ es) = (lo ≤ phase e) × Between (phase e) hi es

  pub Between-up : (lo mid hi : ℕ) (es : List E) → mid ≤ hi → Between lo mid es → Between lo hi es
  Between-up lo mid hi [] h k = omega arith
  Between-up lo mid hi (e ∷ es) h (k, l) = (k, Between-up (phase e) mid hi es h l)

  pub Between-down : (lo' lo hi : ℕ) (es : List E) → lo' ≤ lo → Between lo hi es → Between lo' hi es
  Between-down lo' lo hi [] h k = omega arith
  Between-down lo' lo hi (e ∷ es) h (k, l) = (omega arith, l)

  Between-bounds : (lo hi : ℕ) (es : List E) → Between lo hi es → lo ≤ hi
  Between-bounds lo hi [] h = h
  Between-bounds lo hi (e ∷ es) (h, k) = omega (arith, Between-bounds (phase e) hi es k)

  Between-append :
      (lo mid hi : ℕ) (es later : List E)
      → Between lo mid es
      → Between mid hi later
      → Between lo hi (es ++ later)
  Between-append lo mid hi [] later h k = Between-down lo mid hi later h k
  Between-append lo mid hi (e ∷ es) later (h, l) k =
      (h, Between-append (phase e) mid hi es later l k)

  pub Between-bind :
      {A B : Type 0} (lo mid hi : ℕ) (m : Script E A) (next : A → Script E B)
      → mid ≤ hi
      → Between lo mid m.0
      → ((a : A) → Between mid hi (next a).0)
      → Between lo hi (m >>= next).0
  Between-bind lo mid hi (es, err error) next h k l = Between-up lo mid hi es h k
  Between-bind lo mid hi (es, ok a) next h k l = Between-append lo mid hi es (next a).0 k (l a)

  pub Between-refl : (lo : ℕ) → Between lo lo []
  Between-refl lo = omega arith

  pub Between-act :
      {A : Type 0} (lo : ℕ) (e : E) (r : Result A) → phase e ≡ lo → Between lo lo (act e r).0
  Between-act lo e (ok a) h = (omega arith, omega arith)
  Between-act lo e (err error) h = omega arith
