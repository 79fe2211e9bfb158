-- ===== src/Engine/PolicyCheck/FirstRefusal.antt =====
-- The policies of a cluster are checked in order, up to the first that refuses.
use senlin.Prelude.{
  ℕ, subst, ◌≡◌, refl, sym, ap, ◌⊎◌, inl, inr, true, false, Option, none, some, List, [], ◌∷◌, ◌++◌,
  map, Bool-cases, arith,
}
use senlin.Engine.PolicyCheck.{
  Target, CheckData, Binding, is_cooling, Verdict, goes_on, stops, breaks, touch, check_result,
  apply_method, check_binding, check_bindings, policy_check,
}

-- After the action, the time is that of the last operation of the binding.
abbrev pub recorded {ℓ} : {A : Type ℓ} → Target → ℕ → Binding A → Binding A
recorded Target.before now b = b
recorded Target.after now b = record b { last_op = some now }

module _ {ℓ} {A : Type ℓ} (target : Target) (now : ℕ) where
  touch-recorded : (t : Target) (b : Binding A) → touch t now b ≡ recorded t now b
  unfolding touch
  touch-recorded Target.before b = refl
  touch-recorded Target.after b = refl

  -- The bindings let the data through, one after the other.
  abbrev pub Passes : List (Binding A) → CheckData A → CheckData A → Type ℓ
  Passes [] d d' = d ≡ d'
  Passes (b ∷ bs) d d' =
      (e : CheckData A) × (check_binding target now (recorded target now b) d ≡ goes_on e)
      × Passes bs e d'

  -- Each binding is as it was, or recorded.
  abbrev pub MaybeRecorded : List (Binding A) → List (Binding A) → Type ℓ
  MaybeRecorded [] cs = cs ≡ []
  MaybeRecorded (b ∷ bs) [] = b ∷ bs ≡ []
  MaybeRecorded (b ∷ bs) (c ∷ cs) = ((c ≡ b) ⊎ (c ≡ recorded target now b)) × MaybeRecorded bs cs

  unchanged-MaybeRecorded : (bs : List (Binding A)) → MaybeRecorded bs bs
  unchanged-MaybeRecorded [] = refl
  unchanged-MaybeRecorded (b ∷ bs) = (inl refl, unchanged-MaybeRecorded bs)

  -- The bindings and the data after a loop that ends at a binding that refuses, or raises an
  -- exception.
  pub record IsRefused (bs : List (Binding A)) (d : CheckData A) (after : List (Binding A))
      (result : Option (CheckData A)) : Type ℓ where
    pub passed : List (Binding A)
    pub refusing : Binding A
    pub rest : List (Binding A)
    pub reached : CheckData A
    pub all : bs ≡ passed ++ refusing ∷ rest
    pub through : Passes passed d reached
    pub halts :
        ((last : CheckData A) × (check_binding target now (recorded target now refusing) reached
            ≡ stops last)
          × (last.is_ok ≡ false)
          × (result ≡ some last))
        ⊎ ((check_binding target now (recorded target now refusing) reached ≡ breaks)
            × (result ≡ none))
    pub others : List (Binding A)
    pub spared : MaybeRecorded rest others
    pub touched : after ≡ map (recorded target now) passed ++ recorded target now refusing ∷ others

  -- What the loop ends with.
  abbrev pub Ends :
      List (Binding A) → CheckData A → List (Binding A) × Option (CheckData A) → Type ℓ
  Ends bs d (after, result) =
      ((last : CheckData A) × (result ≡ some last)
        × (last.is_ok ≡ true)
        × Passes bs d last
        × (after ≡ map (recorded target now) bs))
      ⊎ IsRefused bs d after result

  -- A binding lets only data through that is in order.
  check_result-cases :
      (o : Option (CheckData A)) (d : CheckData A)
      → ((check_result o ≡ goes_on d) → d.is_ok ≡ true)
        × ((check_result o ≡ stops d) → d.is_ok ≡ false)
  unfolding check_result
  check_result-cases none d = (λ h. absurd (ground (arith, h)), λ h. absurd (ground (arith, h)))
  check_result-cases (some e) d = (λ h. ground (arith, h), λ h. ground (arith, h))

  apply_method-cases :
      (o : Option (CheckData A → Option (CheckData A))) (d e : CheckData A)
      → ((apply_method o d ≡ goes_on e) → e.is_ok ≡ true)
        × ((apply_method o d ≡ stops e) → e.is_ok ≡ false)
  unfolding apply_method
  apply_method-cases none d e = check_result-cases (some d) e
  apply_method-cases (some method) d e = check_result-cases (method d) e

  check_binding-cases :
      (b : Binding A) (d e : CheckData A)
      → d.is_ok ≡ true
      → ((check_binding target now b d ≡ goes_on e) → e.is_ok ≡ true)
        × ((check_binding target now b d ≡ stops e) → e.is_ok ≡ false)
  unfolding check_binding
  check_binding-cases b d e ok = elim (Bool-cases (b.needs_check target)) [
    | inl needed ↦ elim (Bool-cases (is_cooling now b.cooldown b.last_op)) [
      | inl cooling ↦
          rw (check_binding, needed, cooling)
            (λ h. absurd (ground (arith, h)), λ h. ground (arith, h))
      | inr ready ↦ rw (check_binding, needed, ready) (apply_method-cases (b.method target) d e)
    ]
    | inr skipped ↦
        rw (check_binding, skipped) (λ h. ground (arith, h, ok), λ h. absurd (ground (arith, h)))
  ]

  module _ (b : Binding A) (bs : List (Binding A)) (d : CheckData A) (ok : d.is_ok ≡ true)
      (rest_ends : (e : CheckData A)
        → e.is_ok ≡ true
        → Ends bs e (check_bindings target now bs e)) where
    abbrev b' : Binding A
    b' = recorded target now b

    goes_on-Ends :
        (e : CheckData A)
        → check_binding target now b' d ≡ goes_on e
        → Ends
            (b ∷ bs)
            d
            (b' ∷ (check_bindings target now bs e).0, (check_bindings target now bs e).1)
    goes_on-Ends e h = elim (rest_ends e ((check_binding-cases b' d e ok).0 h)) [
      | inl (last, result, fine, passed, touched) ↦
          inl (last, result, fine, (e, h, passed), ap (◌∷◌ b') touched)
      | inr refused ↦ inr (record {
        passed = b ∷ refused.passed;
        refusing = refused.refusing;
        rest = refused.rest;
        reached = refused.reached;
        all = ap (◌∷◌ b) refused.all;
        through = (e, h, refused.through);
        halts = refused.halts;
        others = refused.others;
        spared = refused.spared;
        touched = ap (◌∷◌ b') refused.touched;
      })
    ]

    by_verdict :
        (e : CheckData A)
        → ((check_binding target now b' d ≡ goes_on e)
            → check_bindings target now (b ∷ bs) d
              ≡ (b' ∷ (check_bindings target now bs e).0, (check_bindings target now bs e).1))
          × ((check_binding target now b' d ≡ stops e)
              → check_bindings target now (b ∷ bs) d ≡ (b' ∷ bs, some e))
          × ((check_binding target now b' d ≡ breaks)
              → check_bindings target now (b ∷ bs) d ≡ (b' ∷ bs, none))
    unfolding check_bindings
    by_verdict e = (
      λ h. rw (check_bindings, touch-recorded target b, h) refl,
      λ h. rw (check_bindings, touch-recorded target b, h) refl,
      λ h. rw (check_bindings, touch-recorded target b, h) refl,
    )

    verdict-Ends :
        (v : Verdict A)
        → check_binding target now b' d ≡ v
        → Ends (b ∷ bs) d (check_bindings target now (b ∷ bs) d)
    verdict-Ends (goes_on e) h =
        subst (Ends (b ∷ bs) d) (sym ((by_verdict e).0 h)) (goes_on-Ends e h)
    verdict-Ends (stops e) h = subst (Ends (b ∷ bs) d) (sym ((by_verdict e).1 h)) (
        inr (record {
          passed = [];
          refusing = b;
          rest = bs;
          reached = d;
          all = refl;
          through = refl;
          halts = inl (e, h, (check_binding-cases b' d e ok).1 h, refl);
          others = bs;
          spared = unchanged-MaybeRecorded bs;
          touched = refl;
        }))
    verdict-Ends breaks h = subst (Ends (b ∷ bs) d) (sym ((by_verdict d).2 h)) (
        inr (record {
          passed = [];
          refusing = b;
          rest = bs;
          reached = d;
          all = refl;
          through = refl;
          halts = inr (h, refl);
          others = bs;
          spared = unchanged-MaybeRecorded bs;
          touched = refl;
        }))

  check_bindings-Ends :
      (bs : List (Binding A)) (d : CheckData A)
      → d.is_ok ≡ true
      → Ends bs d (check_bindings target now bs d)
  unfolding check_bindings
  check_bindings-Ends [] d ok = inl (d, refl, ok, refl, refl)
  check_bindings-Ends (b ∷ bs) d ok =
      verdict-Ends b bs d ok (λ e k. check_bindings-Ends bs e k) _ refl

-- A policy check takes the bindings of a cluster in their order. Either each lets the data through,
-- which ends in order; or the check ends at the first that does not, with data that is not in order or
-- by an exception. Each binding that has been reached, the last one included, is seen by the check with
-- its last operation recorded, where the check is one after the action, and is left so.
pub policy_check-Ends {ℓ} :
    {A : Type ℓ} (target : Target) (now : ℕ) (bindings : List (Binding A)) (d : CheckData A)
    → Ends target now bindings (record d { is_ok = true }) (policy_check target now bindings d)
unfolding policy_check
policy_check-Ends target now bindings d =
    check_bindings-Ends target now bindings (record d { is_ok = true }) refl
