-- ===== src/Client/Sound/Keeps.antt =====
-- Methods that keep the client's state sound, one rule for each way to build a method.
use catshadow.Prelude.{
  ◌≡◌, refl, ap, ◌∙◌, ◌++◌, append-nil, append_assoc, sym, subst, inl, inr, Bool, true, false, List,
  [], Option, none, some, Result, ok, err, if◌then◌else◌,
}
use catshadow.Client.{Client, M, Panic, pure, panic, gets, ◌>>=◌, deferred}
use catshadow.Client.Steps.{ends, deferred_ends, bind_done, bind_panicked, bind_blocked}
use catshadow.Client.Sound.{IsSound, Extends, Fact, nothing, Holds, Extends-Holds}

-- One list goes on from another.
abbrev pub Grows {ℓ} : {A : Type ℓ} → List A → List A → Type ℓ
Grows {A = A} l l' = (more : List A) × (l' ≡ l ++ more)

-- How a sound state may change: it is sound, no contact is lost, and events are only added.
pub record Goes {R : Type 0} (c c' : Client R) : Type 0 where
  pub sound : IsSound c'
  pub extends : Extends c.heap c'.heap
  pub events : Grows c.event_ch c'.event_ch

-- From a sound state in which the fact holds, the method comes to a sound state, however it ends.
pub record Keeps {R A : Type 0} (s : Fact) (m : M R A) : Type 0 where
  pub at : (c : Client R) → IsSound c → Holds s c.heap → Goes c (m c).1

module _ {R : Type 0} where
  -- A change that emits nothing.
  pub Goes-quiet :
      {c c' : Client R} → IsSound c' → Extends c.heap c'.heap → c.event_ch ≡ c'.event_ch → Goes c c'
  Goes-quiet {c} v e same = record {
    sound = v;
    extends = e;
    events = ([], sym same ∙ sym (append-nil c.event_ch));
  }

  pub Goes-refl : (c : Client R) → IsSound c → Goes c c
  Goes-refl c v = Goes-quiet v (λ p id n h. h) refl

  pub Goes-trans : {c c' c'' : Client R} → Goes c c' → Goes c' c'' → Goes c c''
  Goes-trans {c} g g' = record {
    sound = g'.sound;
    extends = λ p id n h. g'.extends p id n (g.extends p id n h);
    events =
        let (es, e) = g.events in
        let (es', e') = g'.events in
        (es ++ es', e' ∙ ap (λ l. l ++ es') e ∙ append_assoc c.event_ch es es');
  }

module _ {R : Type 0} {s : Fact} where
  pub Keeps-pure : {A : Type 0} (a : A) → Keeps {R = R} s (pure a)
  unfolding pure
  Keeps-pure a = record { at = λ c v h. Goes-refl c v }

  pub Keeps-panic : {A : Type 0} (p : Panic) → Keeps {R = R} s (panic {A = A} p)
  unfolding panic
  Keeps-panic p = record { at = λ c v h. Goes-refl c v }

  pub Keeps-gets : {A : Type 0} (f : Client R → A) → Keeps s (gets f)
  unfolding gets
  Keeps-gets f = record { at = λ c v h. Goes-refl c v }

  -- What a method keeps knowing nothing, it keeps.
  pub Keeps-forget : {A : Type 0} (m : M R A) → Keeps nothing m → Keeps s m
  Keeps-forget m km = record { at = λ c v h. km.at c v tt }

  pub Keeps-bind :
      {A B : Type 0} (m : M R A) (f : A → M R B)
      → Keeps s m
      → ((a : A) → Keeps s (f a))
      → Keeps s (m >>= f)
  Keeps-bind m f km kf = record {
    at = λ c v h.
        let g = km.at c v h in
        let h' = Extends-Holds s c.heap (m c).1.heap g.extends h in
        elim (ends (m c)) [
          | inl (a, e) ↦
              subst (λ r. Goes c r.1) (sym (bind_done m f c (m c).1 a e))
                (Goes-trans g ((kf a).at (m c).1 g.sound h'))
          | inr (inl (p, e)) ↦ subst (λ r. Goes c r.1) (sym (bind_panicked m f c (m c).1 p e)) g
          | inr (inr e) ↦ subst (λ r. Goes c r.1) (sym (bind_blocked m f c (m c).1 e)) g
        ];
  }

  pub Keeps-if :
      {A : Type 0} (b : Bool) (m n : M R A) → Keeps s m → Keeps s n → Keeps s (if b then m else n)
  Keeps-if true m n km kn = km
  Keeps-if false m n km kn = kn

  pub Keeps-option :
      {X A : Type 0} (o : Option X) (m : M R A) (f : X → M R A)
      → Keeps s m
      → ((x : X) → Keeps s (f x))
      → Keeps s (elim o [ none ↦ m | some x ↦ f x ])
  Keeps-option none m f km kf = km
  Keeps-option (some x) m f km kf = kf x

  pub Keeps-result :
      {X E A : Type 0} (r : Result X E) (f : E → M R A) (g : X → M R A)
      → ((e : E) → Keeps s (f e))
      → ((x : X) → Keeps s (g x))
      → Keeps s (elim r [ err e ↦ f e | ok x ↦ g x ])
  Keeps-result (err e) f g kf kg = kf e
  Keeps-result (ok x) f g kf kg = kg x

  -- The deferred call runs after the body, on the state that the body leaves.
  pub Keeps-deferred :
      {A : Type 0} (k : M R (Unit {0})) (m : M R A) → Keeps s k → Keeps s m → Keeps s (deferred k m)
  Keeps-deferred k m kk km = record {
    at = λ c v h.
        let g = km.at c v h in
        let after = kk.at (m c).1 g.sound (Extends-Holds s c.heap (m c).1.heap g.extends h) in
        elim (deferred_ends k m c) [
          | inl e ↦ subst (Goes c) (sym e) (Goes-trans g after)
          | inr e ↦ subst (Goes c) (sym e) g
        ];
  }

pub ruleset keeps_rules = (
  Keeps-pure, Keeps-panic, Keeps-gets, Keeps-bind, Keeps-if, Keeps-option, Keeps-result,
  Keeps-deferred,
)
