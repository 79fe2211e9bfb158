-- ===== src/Engine/Handlers/ScaleOut.antt =====
-- What a scale-out does, on each of its branches.
use senlin.Engine.Handlers.NewSize.{
  FitsIn, Misfit, check_new_size-FitsIn, check_new_size-Misfit, asking_for, re_evaluated,
}
use senlin.Prelude.{
  ℕ, zero, suc, ◌+◌, ◌≤◌, ◌<◌, ◌≡◌, refl, ap, ◌∙◌, ◌⊎◌, inl, inr, Option, none, some, List, [], ◌∷◌,
  ◌++◌, map, length, get_elem?, Option-cases, arith,
}
use senlin.Prelude.Int.{ℤ, pos, ◌+ℤ◌}
use senlin.Db.{node_create}
use senlin.Node.{Node}
use senlin.Scaling.Adjust.{SizeError}
use senlin.Engine.Results.{ActionResult}
use senlin.Engine.Handlers.{
  World, Setting, evaluate, set_resizing, with_desired, start_children, Placements, placement_of,
  new_node, new_nodes, after_creation, in_range, create_nodes,
}
use senlin.Engine.Handlers.Resizing.{
  bad_size, Handled, refused, done, wind_up, grow, check_new_size, scale_out_by, do_scale_out,
}
use senlin.Engine.Handlers.ScaleIn.{Returns, positive_input-pos}

-- The end of a handler after creations.
wind_up-after_creation :
    (nodes : List Node) (r : ActionResult × World)
    → wind_up (after_creation nodes r) ≡ done r.0 (re_evaluated r.1)
unfolding wind_up after_creation evaluate
wind_up-after_creation nodes (ActionResult.res_ok, w) = refl
wind_up-after_creation nodes (ActionResult.res_error, w) = refl
wind_up-after_creation nodes (ActionResult.res_retry, w) = refl
wind_up-after_creation nodes (ActionResult.res_cancel, w) = refl
wind_up-after_creation nodes (ActionResult.res_timeout, w) = refl

-- A policy that has placed the new nodes has a place for each.
abbrev pub HasPlaces : Placements → ℕ → Type 0
HasPlaces none k = Unit
HasPlaces (some places) k = k ≤ length places

get_elem?-some :
    (l : List (Option ℕ × Option ℕ)) (m : ℕ)
    → m < length l
    → (place : Option ℕ × Option ℕ) × (get_elem? l m ≡ some place)
get_elem?-some [] m h = absurd (omega (arith, h))
get_elem?-some (x ∷ l) zero h = (x, refl)
get_elem?-some (x ∷ l) (suc m) h = get_elem?-some l m (omega (arith, h))

module _ (setting : Setting) where
  placed_at :
      (placements : Placements) (m k : ℕ)
      → HasPlaces placements (m + suc k)
      → (place : Option ℕ × Option ℕ) × (placement_of placements m ≡ some place)
  unfolding placement_of
  placed_at none m k h = ((none, none), refl)
  placed_at (some places) m k h = get_elem?-some places m (omega (arith, h))

  new_nodes-length :
      (placements : Placements) (k m : ℕ)
      → HasPlaces placements (m + k)
      → (nodes : List Node) × (new_nodes setting placements m k ≡ some nodes) × (length nodes ≡ k)
  unfolding new_nodes
  new_nodes-length placements zero m h = ([], refl, refl)
  new_nodes-length placements (suc k) m h =
      let shifted : m + suc k ≡ suc m + k = omega arith in
      let (place, e0) = placed_at placements m k h in
      let (rest, e1, size) = new_nodes-length placements k (suc m) (rw (← shifted) h) in
      (new_node setting m place ∷ rest, rw (e0, e1) refl, omega (arith, size))

  module _ (w : World) where
    -- The size that a scale-out by that many nodes leads to.
    abbrev pub joined_by : ℕ → ℤ
    joined_by c = pos (length w.rows) +ℤ pos c

    -- The cluster when the creation of the nodes has been started.
    abbrev pub grown : ℕ → List Node → World
    grown c nodes = record (asking_for (joined_by c) w) {
      rows = w.rows ++ nodes;
      started = w.started ++ map (λ i. (node_create, i)) (map (λ n. n.id) nodes);
    }

    abbrev pub Grows : ℕ → Option Handled → Type 0
    Grows c handled =
        (nodes : List Node) × (r : ActionResult × World) × (length nodes ≡ c)
        × (setting.wait (grown c nodes) ≡ some r)
        × (handled ≡ some (done r.0 (re_evaluated r.1)))

    create_nodes-some :
        (placements : Placements) (c : ℕ) (nodes : List Node) (r : ActionResult × World)
        (w1 : World)
        → 0 < c
        → new_nodes setting placements 0 c ≡ some nodes
        → setting.wait (
            start_children node_create
              (map (λ n. n.id) nodes)
              (record w1 { rows = w1.rows ++ nodes }))
          ≡ some r
        → create_nodes setting placements (pos c) w1 ≡ some (after_creation nodes r)
    unfolding create_nodes in_range
    create_nodes-some placements zero nodes r w1 p e h = absurd (omega (arith, p))
    create_nodes-some placements (suc c) nodes r w1 p e h = rw (e, h) refl

    grow-Grows :
        (placements : Placements) (c : ℕ)
        → Returns setting
        → 0 < c
        → HasPlaces placements c
        → Grows c (grow setting placements (pos c) (joined_by c) w)
    unfolding grow set_resizing
    grow-Grows placements c returns p places =
        let none_before : 0 + c ≡ c = omega arith in
        let (nodes, e, size) = new_nodes-length placements c 0 (rw none_before places) in
        let (result, w', k) = returns (grown c nodes) in
        let made =
          create_nodes-some placements c nodes (result, w')
            (set_resizing (with_desired (joined_by c)) w) p e k in
        (
          nodes,
          (result, w'),
          size,
          k,
          rw made (ap some (wind_up-after_creation nodes (result, w'))),
        )

    -- The checks that the size passes, or not.
    with_check :
        (placements : Placements) (c : ℕ) (o : Option SizeError)
        → check_new_size setting (joined_by c) w ≡ o
        → scale_out_by setting placements (pos c) w ≡ elim o [
          | some message ↦ some (refused (bad_size message))
          | none ↦ grow setting placements (pos c) (joined_by c) w
        ]
    unfolding scale_out_by
    with_check placements c o e = rw (scale_out_by, e) refl

    given_count :
        (placements : Placements) (c : ℕ)
        → 0 < c
        → do_scale_out setting none placements (some (pos c)) w
          ≡ scale_out_by setting placements (pos c) w
    unfolding do_scale_out
    given_count placements c p = rw (do_scale_out, positive_input-pos c p) refl

-- A scale-out by a positive count that no policy has decided: where the size that it leads to is not
-- within the configured and the cluster's own bounds it is refused with the message of the first
-- bound that it breaks. Else that size is
-- in the object and in the row of the cluster, with the status of a resize, when exactly so many
-- nodes have been added to the database, the creation of each has been started and the wait for
-- them begins, and the handler ends with the result of the wait, the nodes of the database, and the
-- status that they lead to. A policy that has placed the nodes has a place for each.
pub do_scale_out_lem :
    (setting : Setting) (w : World) (placements : Placements) (c : ℕ)
    → Returns setting
    → HasPlaces placements c
    → 0 < c
    → ((message : SizeError) × Misfit setting.max_nodes w.own (joined_by setting w c) message
        × (do_scale_out setting none placements (some (pos c)) w
            ≡ some (refused (bad_size message))))
      ⊎ (FitsIn setting.max_nodes w.own (joined_by setting w c)
          × Grows setting w c (do_scale_out setting none placements (some (pos c)) w))
do_scale_out_lem setting w placements c returns places p =
    let start = given_count setting w placements c p in
    elim (Option-cases (check_new_size setting (joined_by setting w c) w)) [
      | inl fine ↦
          let (nodes, r, size, waited, e) = grow-Grows setting w placements c returns p places in
          inr (
            check_new_size-FitsIn setting w (joined_by setting w c) fine,
            (nodes, r, size, waited, start ∙ with_check setting w placements c none fine ∙ e),
          )
      | inr (message, bad) ↦ inl (
        message,
        check_new_size-Misfit setting w _ message bad,
        start ∙ with_check setting w placements c (some message) bad,
      )
    ]
