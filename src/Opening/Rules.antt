-- ===== src/Opening/Rules.antt =====
-- Rules for the parts of `copyOpenPosition` (src/executor/byreal-position.ts): what leaves the
-- positions and the referers alone.
use clmm_copybot.Common.{◌≡◌, refl, ◌∙◌, ◌⊎◌, inl, inr, String, none, List}
use clmm_copybot.Opening.{
  Query, Reply, Net, Opener, Result, ok, returned, threw, and_then, replied, ask,
}

module _ {S : Type 0} where
  -- What no part of the code before the sending changes.
  pub record Quiet (s s' : Opener S) : Type 0 where
    pub positions_same : s'.positions ≡ s.positions
    pub referers_same : s'.referers ≡ s.referers
    pub now_same : s'.now ≡ s.now
    pub rent_same : s'.rent_per_position ≡ s.rent_per_position

  pub Quiet-refl : (s : Opener S) → Quiet s s
  Quiet-refl s = record {
    positions_same = refl;
    referers_same = refl;
    now_same = refl;
    rent_same = refl;
  }

  -- A part of the code that started in a state that differs from `s` by nothing above: it returns
  -- null at most, and where it goes on, `P` holds of its value.
  abbrev pub EndsIn :
      {A : Type 0} → (A → Opener S → Type 0) → Opener S → Result A × Opener S → Type 0
  EndsIn P s (ok a, s') = P a s' × Quiet s s'
  EndsIn P s (returned r, s') = (r ≡ none) × Quiet s s'
  EndsIn P s (threw m, s') = Quiet s s'

  pub record Ends {A : Type 0} (P : A → Opener S → Type 0) (s : Opener S) (x : Result A × Opener S)
      : Type 0 where
    pub ends : EndsIn P s x

  pub goes_on :
      {A : Type 0} (P : A → Opener S → Type 0) (s : Opener S) (a : A) (s' : Opener S)
      → P a s'
      → Quiet s s'
      → Ends P s (ok a, s')
  goes_on P s a s' h q = record { ends = (h, q) }

  pub gives_up :
      {A : Type 0} (P : A → Opener S → Type 0) (s s' : Opener S)
      → Quiet s s'
      → Ends P s (returned none, s')
  gives_up P s s' q = record { ends = (refl, q) }

  pub then_rule :
      {A B : Type 0} (P : A → Opener S → Type 0) (Q : B → Opener S → Type 0) (s : Opener S)
      (x : Result A × Opener S) (k : A → Opener S → Result B × Opener S)
      → Ends P s x
      → ((a : A) (s' : Opener S) → P a s' → Quiet s s' → Ends Q s (k a s'))
      → Ends Q s (and_then x k)
  then_rule P Q s (ok a, s') k h g = g a s' h.ends.0 h.ends.1
  then_rule P Q s (returned r, s') k h g = record { ends = h.ends }
  then_rule P Q s (threw m, s') k h g = record { ends = h.ends }

  -- Nothing is claimed of the value.
  abbrev pub Any : {A : Type 0} → A → Opener S → Type 0
  Any a s = Unit {0}

  pub weaken :
      {A : Type 0} (P Q : A → Opener S → Type 0) (s : Opener S) (x : Result A × Opener S)
      → Ends P s x
      → ((a : A) (s' : Opener S) → P a s' → Q a s')
      → Ends Q s x
  weaken P Q s (ok a, s') h g = record { ends = (g a s' h.ends.0, h.ends.1) }
  weaken P Q s (returned r, s') h g = record { ends = h.ends }
  weaken P Q s (threw m, s') h g = record { ends = h.ends }

  pub forget :
      {A : Type 0} (P : A → Opener S → Type 0) (s : Opener S) (x : Result A × Opener S)
      → Ends P s x
      → Ends Any s x
  forget P s x h = weaken P Any s x h (λ a s' p. tt)

  Quiet-trans : {s s' s'' : Opener S} → Quiet s s' → Quiet s' s'' → Quiet s s''
  Quiet-trans q r = record {
    positions_same = r.positions_same ∙ q.positions_same;
    referers_same = r.referers_same ∙ q.referers_same;
    now_same = r.now_same ∙ q.now_same;
    rent_same = r.rent_same ∙ q.rent_same;
  }

  -- What holds of a part from a later state holds of it from an earlier one.
  pub rebase :
      {A : Type 0} (P : A → Opener S → Type 0) (s s' : Opener S) (x : Result A × Opener S)
      → Quiet s s'
      → Ends P s' x
      → Ends P s x
  rebase P s s' (ok a, t) q h = record { ends = (h.ends.0, Quiet-trans q h.ends.1) }
  rebase P s s' (returned r, t) q h = record { ends = (h.ends.0, Quiet-trans q h.ends.1) }
  rebase P s s' (threw m, t) q h = record { ends = Quiet-trans q h.ends }

module _ {N : Type 0} (net : Net N) where
  -- The query was answered so, after some others.
  abbrev pub Answered : (q : Query) → Reply N q → Type 0
  Answered q a = (past : List Query) × (net q past ≡ inr a)

module _ {S N : Type 0} (net : Net N) where
  module _ (s : Opener S) where
    replied_rule :
        (q : Query) (past : List Query) (x : String ⊎ Reply N q) (s' : Opener S)
        → net q past ≡ x
        → Quiet s s'
        → Ends (λ a s''. Answered net q a) s (replied x s')
    replied_rule q past (inl m) s' e h = record { ends = h }
    replied_rule q past (inr a) s' e h = record { ends = ((past, e), h) }

    pub ask_rule :
        (q : Query) (s' : Opener S) → Quiet s s' → Ends (λ a s''. Answered net q a) s (ask net q s')
    ask_rule q s' h = replied_rule q s'.asked (net q s'.asked) _ refl (record {
      positions_same = h.positions_same;
      referers_same = h.referers_same;
      now_same = h.now_same;
      rent_same = h.rent_same;
    })

    -- A query, and what follows.
    pub ask_then :
        {B : Type 0} (Q : B → Opener S → Type 0) (q : Query) (s' : Opener S)
        (k : Reply N q → Opener S → Result B × Opener S)
        → Quiet s s'
        → ((a : Reply N q) (s'' : Opener S) → Answered net q a → Quiet s s'' → Ends Q s (k a s''))
        → Ends Q s (and_then (ask net q s') k)
    ask_then Q q s' k h g = then_rule _ Q s (ask net q s') k (ask_rule q s' h) g
