-- ===== src/Engine/Handlers/ScaleIn.antt =====
-- What a scale-in does, on each of its branches.
use senlin.Engine.Handlers.NewSize.{
  FitsIn, Misfit, check_new_size-FitsIn, check_new_size-Misfit, asking_for, re_evaluated,
}
use senlin.Prelude.{
  ℕ, ◌≤◌, ◌<◌, ◌≡◌, refl, ap, ◌∙◌, ◌⊎◌, inl, inr, Bool, true, Option, none, some, List, [], ◌∷◌,
  ◌++◌, map, length, if◌then◌else◌, Option-cases, arith,
}
use senlin.Prelude.Int.{ℤ, pos, ◌-ℤ◌, ltb_ℤ}
use senlin.Db.{node_delete}
use senlin.Scaling.Adjust.{SizeError}
use senlin.Scaling.Victims.{nodes_by_random}
use senlin.Scaling.Victims.Random.{InRange}
use senlin.Policies.Deletion.{random, pick_victims}
use senlin.Policies.Deletion.Counts.{pick_victims-Counted, min_ℕ}
use senlin.Engine.Results.{ActionResult}
use senlin.Engine.Handlers.{
  World, Setting, evaluate, set_resizing, with_desired, start_children, delete_action,
  after_deletion, delete_nodes,
}
use senlin.Engine.Handlers.Resizing.{
  destroys, positive_input, bad_size, Handled, refused, done, wind_up, candidates_or, shrink,
  check_new_size, scale_in_by, do_scale_in,
}

-- The end of a handler after deletions.
wind_up-after_deletion :
    (ids : List ℕ) (r : ActionResult × World)
    → wind_up (after_deletion ids r) ≡ done r.0 (re_evaluated r.1)
unfolding wind_up after_deletion evaluate
wind_up-after_deletion ids (ActionResult.res_ok, w) = refl
wind_up-after_deletion ids (ActionResult.res_error, w) = refl
wind_up-after_deletion ids (ActionResult.res_retry, w) = refl
wind_up-after_deletion ids (ActionResult.res_cancel, w) = refl
wind_up-after_deletion ids (ActionResult.res_timeout, w) = refl

-- The wait for the dependents returns.
abbrev pub Returns : Setting → Type 0
Returns setting =
    (w : World) → (result : ActionResult) × (w' : World) × (setting.wait w ≡ some (result, w'))

pub delete_nodes-some :
    (setting : Setting) (destroy : Bool) (ids : List ℕ) (w : World) (r : ActionResult × World)
    → 0 < length ids
    → setting.wait (start_children (delete_action destroy) ids w) ≡ some r
    → delete_nodes setting destroy ids w ≡ some (after_deletion ids r)
unfolding delete_nodes
delete_nodes-some setting destroy [] w r p h = absurd (omega (arith, p))
delete_nodes-some setting destroy (i ∷ is) w r p h = rw h refl

module _ (setting : Setting) (w : World) where
  -- The size that a scale-in by that many nodes leads to.
  abbrev pub left_of : ℕ → ℤ
  left_of c = pos (length w.rows) -ℤ pos c

  -- The cluster when the deletions of the victims have been started.
  abbrev pub shrunk : ℕ → List ℕ → World
  shrunk c victims = record (asking_for (left_of c) w) {
    started = w.started ++ map (λ i. (node_delete, i)) victims;
  }

  -- What follows the checks, for that number of victims.
  abbrev pub Shrinks : ℕ → Option Handled → Type 0
  Shrinks c handled =
      (victims : List ℕ) × (r : ActionResult × World) × (length victims ≡ c)
      × (setting.wait (shrunk c victims) ≡ some r)
      × (handled ≡ some (done r.0 (re_evaluated r.1)))

  shrink-some :
      (c : ℕ) (ids : List ℕ) (r : ActionResult × World)
      → nodes_by_random setting.draw w.loaded (pos c) ≡ some ids
      → delete_nodes setting true ids (set_resizing (with_desired (left_of c)) w)
        ≡ some (after_deletion ids r)
      → shrink setting none [] (pos c) (left_of c) w ≡ some (done r.0 (re_evaluated r.1))
  unfolding shrink candidates_or set_resizing destroys
  shrink-some c ids r e h = rw (e, h) (ap some (wind_up-after_deletion ids r))

  shrink-Shrinks :
      (c : ℕ)
      → InRange setting.draw
      → Returns setting
      → 0 < c
      → c ≤ length w.loaded
      → Shrinks c (shrink setting none [] (pos c) (left_of c) w)
  unfolding delete_action set_resizing
  shrink-Shrinks c in_range returns p fits =
      let (ids, e, size) = pick_victims-Counted setting.draw in_range w.loaded c fits random in
      let (result, w', k) = returns (shrunk c ids) in
      (
        ids,
        (result, w'),
        size,
        k,
        shrink-some c ids (result, w') (unfold pick_victims in e)
            (delete_nodes-some setting true ids (set_resizing (with_desired (left_of c)) w)
              (result, w') (omega (arith, size, p)) k),
      )

  trimmed_lem :
      (c : ℕ)
      → (if ltb_ℤ (pos (length w.rows)) (pos c) then pos (length w.rows) else pos c)
        ≡ pos (min_ℕ c (length w.rows))
  trimmed_lem c = ground arith

  -- The checks that the size passes, or not.
  with_check :
      (c : ℕ) (o : Option SizeError)
      → check_new_size setting (left_of (min_ℕ c (length w.rows))) w ≡ o
      → scale_in_by setting none [] (pos c) w ≡ elim o [
        | some message ↦ some (refused (bad_size message))
        | none ↦
            shrink setting none []
              (pos (min_ℕ c (length w.rows)))
              (left_of (min_ℕ c (length w.rows)))
              w
      ]
  unfolding scale_in_by
  with_check c o e = ap tested (trimmed_lem c) ∙ ap answer e
    where
      answer : Option SizeError → Option Handled
      answer o' = elim o' [
        | some message ↦ some (refused (bad_size message))
        | none ↦
            shrink setting none [] (pos (min_ℕ c (length w.rows)))
              (left_of (min_ℕ c (length w.rows))) w
      ]

      tested : ℤ → Option Handled
      tested t = elim (check_new_size setting (pos (length w.rows) -ℤ t) w) [
        | some message ↦ some (refused (bad_size message))
        | none ↦ shrink setting none [] t (pos (length w.rows) -ℤ t) w
      ]

pub positive_input-pos : (c : ℕ) → 0 < c → positive_input (some (pos c)) ≡ some (pos c)
unfolding positive_input
positive_input-pos c p = ground (arith, p)

given_count :
    (setting : Setting) (w : World) (c : ℕ)
    → 0 < c
    → do_scale_in setting none (some (pos c)) w ≡ scale_in_by setting none [] (pos c) w
unfolding do_scale_in
given_count setting w c p = rw (do_scale_in, positive_input-pos c p) refl

-- A scale-in by a positive count that no policy has decided, of a cluster with nodes whose object
-- holds as many as the database: it is for the nodes that are there if it asks for more. Where the
-- size that it leads to is not within the configured and the cluster's own bounds it is refused with
-- the message of the first bound that it breaks; else that size is in the object and in the row of the cluster, with the status of a
-- resize, when a deletion has been started of each of exactly so many victims and the wait for them
-- begins, and the handler ends with the result of the wait, the nodes of the database, and the status
-- that they lead to.
pub do_scale_in_lem :
    (setting : Setting) (w : World) (c : ℕ)
    → InRange setting.draw
    → Returns setting
    → length w.loaded ≡ length w.rows
    → 0 < length w.rows
    → 0 < c
    → ((message : SizeError) × Misfit setting.max_nodes w.own
          (left_of setting w (min_ℕ c (length w.rows)))
          message
        × (do_scale_in setting none (some (pos c)) w ≡ some (refused (bad_size message))))
      ⊎ (FitsIn setting.max_nodes w.own (left_of setting w (min_ℕ c (length w.rows)))
          × Shrinks setting w (min_ℕ c (length w.rows)) (do_scale_in setting none (some (pos c)) w))
do_scale_in_lem setting w c in_range returns loaded some_nodes p =
    let k = min_ℕ c (length w.rows) in
    let start = given_count setting w c p in
    elim (Option-cases (check_new_size setting (left_of setting w k) w)) [
      | inl fine ↦
          let (ids, r, size, waited, e) =
            shrink-Shrinks setting w k in_range returns (ground (arith, some_nodes, p))
              (ground (arith, loaded)) in
          inr (
            check_new_size-FitsIn setting w _ fine,
            (ids, r, size, waited, start ∙ with_check setting w c none fine ∙ e),
          )
      | inr (message, bad) ↦ inl (
        message,
        check_new_size-Misfit setting w _ message bad,
        start ∙ with_check setting w c (some message) bad,
      )
    ]
