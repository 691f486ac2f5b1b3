-- ===== src/Regex/Sound.antt =====
-- What it means for a text to match a pattern, with no search in it, and that `find` decides it.
use terraform_registry.Base.{
  ℕ, zero, suc, ◌≤◌, Bool, true, Bool-cases, Option-cases, Option, none, some, ◌≡◌, ◌≢◌, ◌⊎◌, inl,
  inr, refl, sym, ap, subst, arith, [], ◌∷◌, ◌++◌, append_assoc, append-nil, All, length,
}
use terraform_registry.Text.{Bytes}
use terraform_registry.Regex.{
  Regex, done, one, star, upto, exactly, maybe, open_group, close_group, Captures, or_else, Rest,
  star_then, upto_then, exactly_then, find,
}

-- A part of the text, all of a class, that a repetition takes, and what is left.
pub record Takes (p : ℕ → Bool) (P : ℕ → Type 0) (K : Bytes → Bytes → Type 0) (taken s : Bytes)
    : Type 0 where
  pub part : Bytes
  pub left : Bytes
  pub splits : s ≡ part ++ left
  pub in_class : All (λ c. p c ≡ true) part
  pub count : P (length part)
  pub goes_on : K (taken ++ part) left

-- `Matches r taken s caps`: the text `s` matches `r` whole, and `caps` are the captures, where the
-- group that is open has taken `taken` before `s`.
abbrev pub Matches : Regex → Bytes → Bytes → Captures → Type 0
Matches done taken s caps = (s ≡ []) × (caps ≡ [])
Matches (one p r) taken s caps =
    (c : ℕ) × (t : Bytes) × (s ≡ c ∷ t) × (p c ≡ true) × Matches r (taken ++ c ∷ []) t caps
Matches (star p r) taken s caps =
    Takes p (λ _. Unit) (λ taken' left. Matches r taken' left caps) taken s
Matches (upto n p r) taken s caps =
    Takes p (λ k. k ≤ n) (λ taken' left. Matches r taken' left caps) taken s
Matches (exactly n p r) taken s caps =
    Takes p (λ k. k ≡ n) (λ taken' left. Matches r taken' left caps) taken s
Matches (maybe p r) taken s caps = Matches p taken s caps ⊎ Matches r taken s caps
Matches (open_group r) taken s caps = Matches r [] s caps
Matches (close_group r) taken s caps =
    (rest : Captures) × (caps ≡ taken ∷ rest) × Matches r [] s rest

module _ (p : ℕ → Bool) (K : Bytes → Bytes → Type 0) where
  Takes-none : (P : ℕ → Type 0) (taken s : Bytes) → P 0 → K taken s → Takes p P K taken s
  Takes-none P taken s h e = record {
    part = [];
    left = s;
    splits = refl;
    in_class = tt;
    count = h;
    goes_on = subst (λ t. K t s) (sym (append-nil taken)) e;
  }

  Takes-more :
      (P Q : ℕ → Type 0) (taken s : Bytes) (c : ℕ)
      → ((n : ℕ) → P n → Q (suc n))
      → p c ≡ true
      → Takes p P K (taken ++ c ∷ []) s
      → Takes p Q K taken (c ∷ s)
  Takes-more P Q taken s c f e t = record {
    part = c ∷ t.part;
    left = t.left;
    splits = ap (◌∷◌ c) t.splits;
    in_class = (e, t.in_class);
    count = f (length t.part) t.count;
    goes_on = subst (λ u. K u t.left) (append_assoc taken (c ∷ []) t.part) t.goes_on;
  }

Takes-map :
    (p : ℕ → Bool) (P : ℕ → Type 0) (K L : Bytes → Bytes → Type 0) (taken s : Bytes)
    → ((u v : Bytes) → K u v → L u v)
    → Takes p P K taken s
    → Takes p P L taken s
Takes-map p P K L taken s f t = record {
  part = t.part;
  left = t.left;
  splits = t.splits;
  in_class = t.in_class;
  count = t.count;
  goes_on = f (taken ++ t.part) t.left t.goes_on;
}

or_else-some :
    (m n : Option Captures) {x : Captures} → or_else m n ≡ some x → (m ≡ some x) ⊎ (n ≡ some x)
or_else-some none n h = inr h
or_else-some (some y) n h = inl h

or_else-left : (m n : Option Captures) → m ≢ none → or_else m n ≢ none
or_else-left none n h = absurd (h refl)
or_else-left (some y) n h = h

or_else-right : (m n : Option Captures) → n ≢ none → or_else m n ≢ none
or_else-right none n h = h
or_else-right (some y) n h = ground arith

-- The three repetitions return a result of `k` behind a part that they may take.
module _ (p : ℕ → Bool) (k : Rest) (caps : Captures) where
  abbrev Ends : Bytes → Bytes → Type 0
  Ends taken s = k taken s ≡ some caps

  star_then_sound :
      (taken s : Bytes) → star_then p k taken s ≡ some caps → Takes p (λ _. Unit) Ends taken s
  unfolding star_then
  star_then_sound taken [] h = Takes-none p Ends (λ _. Unit) taken [] tt h
  star_then_sound taken (c ∷ s) h = elim (Bool-cases (p c)) [
    | inl e ↦ elim (or_else-some (star_then p k (taken ++ c ∷ []) s) _ (rw e at h)) [
      | inl m ↦
          Takes-more p Ends (λ _. Unit) (λ _. Unit) taken s c (λ n u. u) e
            (star_then_sound (taken ++ c ∷ []) s m)
      | inr m ↦ Takes-none p Ends (λ _. Unit) taken (c ∷ s) tt m
    ]
    | inr e ↦ Takes-none p Ends (λ _. Unit) taken (c ∷ s) tt (rw e at h)
  ]

  upto_then_sound :
      (n : ℕ) (taken s : Bytes)
      → upto_then n p k taken s ≡ some caps
      → Takes p (λ j. j ≤ n) Ends taken s
  unfolding upto_then
  upto_then_sound zero taken s h = Takes-none p Ends (λ j. j ≤ 0) taken s (omega arith) h
  upto_then_sound (suc n) taken [] h = Takes-none p Ends (λ j. j ≤ suc n) taken [] (omega arith) h
  upto_then_sound (suc n) taken (c ∷ s) h = elim (Bool-cases (p c)) [
    | inl e ↦ elim (or_else-some (upto_then n p k (taken ++ c ∷ []) s) _ (rw e at h)) [
      | inl m ↦
          Takes-more p Ends (λ j. j ≤ n) (λ j. j ≤ suc n) taken s c (λ j u. omega arith) e
            (upto_then_sound n (taken ++ c ∷ []) s m)
      | inr m ↦ Takes-none p Ends (λ j. j ≤ suc n) taken (c ∷ s) (omega arith) m
    ]
    | inr e ↦ Takes-none p Ends (λ j. j ≤ suc n) taken (c ∷ s) (omega arith) (rw e at h)
  ]

  exactly_then_sound :
      (n : ℕ) (taken s : Bytes)
      → exactly_then n p k taken s ≡ some caps
      → Takes p (λ j. j ≡ n) Ends taken s
  unfolding exactly_then
  exactly_then_sound zero taken s h = Takes-none p Ends (λ j. j ≡ 0) taken s refl h
  exactly_then_sound (suc n) taken [] h = absurd (ground arith)
  exactly_then_sound (suc n) taken (c ∷ s) h = elim (Bool-cases (p c)) [
    | inl e ↦
        Takes-more p Ends (λ j. j ≡ n) (λ j. j ≡ suc n) taken s c (λ j u. ap suc u) e
          (exactly_then_sound n (taken ++ c ∷ []) s (rw e at h))
    | inr e ↦ absurd (ground arith)
  ]

-- Where `k` succeeds behind such a part, so does the repetition.
module _ (p : ℕ → Bool) (k : Rest) where
  abbrev Succeeds : Bytes → Bytes → Type 0
  Succeeds taken s = k taken s ≢ none

  star_then-stop : (taken s : Bytes) → Succeeds taken s → star_then p k taken s ≢ none
  unfolding star_then
  star_then-stop taken [] h = h
  star_then-stop taken (c ∷ s) h = elim (Bool-cases (p c)) [
    | inl e ↦ rw e (or_else-right _ _ h)
    | inr e ↦ rw e h
  ]

  star_then_complete :
      (part taken left : Bytes)
      → All (λ c. p c ≡ true) part
      → Succeeds (taken ++ part) left
      → star_then p k taken (part ++ left) ≢ none
  unfolding star_then
  star_then_complete [] taken left a h = star_then-stop taken left (rw append-nil at h)
  star_then_complete (c ∷ part) taken left (e, a) h =
      let more = star_then_complete part (taken ++ c ∷ []) left a (rw append_assoc h) in
      rw e (or_else-left _ _ more)

  upto_then-stop : (n : ℕ) (taken s : Bytes) → Succeeds taken s → upto_then n p k taken s ≢ none
  unfolding upto_then
  upto_then-stop zero taken s h = h
  upto_then-stop (suc n) taken [] h = h
  upto_then-stop (suc n) taken (c ∷ s) h = elim (Bool-cases (p c)) [
    | inl e ↦ rw e (or_else-right _ _ h)
    | inr e ↦ rw e h
  ]

  upto_then_complete :
      (part : Bytes) (n : ℕ) (taken left : Bytes)
      → All (λ c. p c ≡ true) part
      → length part ≤ n
      → Succeeds (taken ++ part) left
      → upto_then n p k taken (part ++ left) ≢ none
  unfolding upto_then
  upto_then_complete [] n taken left a b h = upto_then-stop n taken left (rw append-nil at h)
  upto_then_complete (c ∷ part) zero taken left a b h = absurd (omega arith)
  upto_then_complete (c ∷ part) (suc n) taken left (e, a) b h =
      let more =
        upto_then_complete part n (taken ++ c ∷ []) left a (omega arith) (rw append_assoc h) in
      rw e (or_else-left _ _ more)

  exactly_then_complete :
      (part : Bytes) (n : ℕ) (taken left : Bytes)
      → All (λ c. p c ≡ true) part
      → length part ≡ n
      → Succeeds (taken ++ part) left
      → exactly_then n p k taken (part ++ left) ≢ none
  unfolding exactly_then
  exactly_then_complete [] zero taken left a b h = rw append-nil at h
  exactly_then_complete [] (suc n) taken left a b h = absurd (omega arith)
  exactly_then_complete (c ∷ part) zero taken left a b h = absurd (omega arith)
  exactly_then_complete (c ∷ part) (suc n) taken left (e, a) b h =
      let more =
        exactly_then_complete part n (taken ++ c ∷ []) left a (omega arith) (rw append_assoc h) in
      rw e more

-- What `find` returns are the captures of a match.
pub find_sound :
    (r : Regex) (taken s : Bytes) (caps : Captures)
    → find r taken s ≡ some caps
    → Matches r taken s caps
unfolding find
find_sound done taken [] caps h = (refl, ground arith)
find_sound done taken (c ∷ s) caps h = absurd (ground arith)
find_sound (one p r) taken [] caps h = absurd (ground arith)
find_sound (one p r) taken (c ∷ s) caps h = elim (Bool-cases (p c)) [
  | inl e ↦ (c, s, refl, e, find_sound r (taken ++ c ∷ []) s caps (rw e at h))
  | inr e ↦ absurd (ground arith)
]
find_sound (star p r) taken s caps h =
    Takes-map p _ _ _ taken s (λ u v. find_sound r u v caps)
      (star_then_sound p (find r) caps taken s h)
find_sound (upto n p r) taken s caps h =
    Takes-map p _ _ _ taken s (λ u v. find_sound r u v caps)
      (upto_then_sound p (find r) caps n taken s h)
find_sound (exactly n p r) taken s caps h =
    Takes-map p _ _ _ taken s (λ u v. find_sound r u v caps)
      (exactly_then_sound p (find r) caps n taken s h)
find_sound (maybe p r) taken s caps h = elim (or_else-some (find p taken s) _ h) [
  | inl m ↦ inl (find_sound p taken s caps m)
  | inr m ↦ inr (find_sound r taken s caps m)
]
find_sound (open_group r) taken s caps h = find_sound r [] s caps h
find_sound (close_group r) taken s caps h = elim (Option-cases (find r [] s)) [
  | inl e ↦ absurd (ground arith)
  | inr (rest, e) ↦ (rest, ground arith, find_sound r [] s rest e)
]

-- Where the text matches, `find` returns captures.
pub find_complete :
    (r : Regex) (taken s : Bytes) (caps : Captures) → Matches r taken s caps → find r taken s ≢ none
unfolding find
find_complete done taken s caps (e, f) = rw e (ground arith)
find_complete (one p r) taken s caps (c, t, e, f, m) =
    let ih = find_complete r (taken ++ c ∷ []) t caps m in rw e (rw f ih)
find_complete (star p r) taken s caps t =
    let ih = find_complete r (taken ++ t.part) t.left caps t.goes_on in
    rw t.splits (star_then_complete p (find r) t.part taken t.left t.in_class ih)
find_complete (upto n p r) taken s caps t =
    let ih = find_complete r (taken ++ t.part) t.left caps t.goes_on in
    rw t.splits (upto_then_complete p (find r) t.part n taken t.left t.in_class t.count ih)
find_complete (exactly n p r) taken s caps t =
    let ih = find_complete r (taken ++ t.part) t.left caps t.goes_on in
    rw t.splits (exactly_then_complete p (find r) t.part n taken t.left t.in_class t.count ih)
find_complete (maybe p r) taken s caps (inl m) =
    let ih = find_complete p taken s caps m in or_else-left _ _ ih
find_complete (maybe p r) taken s caps (inr m) =
    let ih = find_complete r taken s caps m in or_else-right _ _ ih
find_complete (open_group r) taken s caps m = let ih = find_complete r [] s caps m in ih
find_complete (close_group r) taken s caps (rest, e, m) =
    let ih = find_complete r [] s rest m in
    elim (Option-cases (find r [] s)) [ inl n ↦ absurd (ih n) | inr (x, f) ↦ rw f (ground arith) ]
